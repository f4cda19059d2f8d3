-- ===== src/Lib.antt =====
-- infra-shelf provisions apps on shared containers: databases, queues, object storage. This
-- library models the core that its command line and its web server share.
--
-- An engine (internal/shelfcore) works on a registry of apps (internal/registry) and on the docker
-- containers (internal/docker, internal/services). It loads the registry, checks what was asked,
-- runs commands in the containers, and saves the registry after every app.
--
-- - Common: bytes, texts, sorted maps for Go's maps, results for `(value, error)`.
-- - Registry: internal/registry/registry.go, the services, their configurations and the entries.
--   Registry/Names is ValidateAppName and ParseServices; Registry/Dotenv is parseDotenv;
--   Registry/Env renders .env files (EnvBlocks, EnvFile); Registry/Store is Load and the whole of
--   internal/registry/store_save.go but DefaultPath. A disk is a function from paths to nodes, the
--   environment, and the faults that the coming writes meet. The encodings and the cipher, which
--   are Go's standard library, are the parameter `Codec` of Registry/Store/Crypto, with laws.
--   encoding/json keeps only valid UTF-8: `valid` of the codec is what it makes of a text, and
--   Registry/Coerced is what it makes of a registry. A registry that was loaded has valid texts.
--   Registry/Storage is what the engine needs of a store, and the file store fills it.
-- - Envspec: internal/envspec/envspec.go, the flags --env and --envs and the apps they stand for.
-- - Machine: internal/docker/exec.go. What docker, the clock and crypto/rand answer, and which files
--   and directories can be written and read, is the parameter `Host`; the commands that were run, the random bytes drawn and the files under the
--   backups directory are the state. `M` is the monad of the code that runs on it.
-- - Services: internal/passwordgen and internal/services, one module for each service. The files
--   that envFileCandidates finds are given by the host. Json is the values that RabbitMQ's
--   definitions and Redis' backups are decoded to.
-- - Engine: internal/shelfcore/services.go and engine.go; Engine/Setup, Engine/Add, Engine/Remove
--   (remove.go, detach.go, credentials.go), Engine/Backup, Engine/Restore (restore.go,
--   reconcile.go) are the operations. Engine/Provision and Engine/Targets are the loop over
--   services and the bookkeeping that Setup and Add share. The world is the storage, the machine
--   and the list of what the reporter was told. A message is kept as the values it is made of.
-- - Backups: internal/backup/backup.go. Backups/Tree is List, TakeSnapshot, ListForApp, Resolve and
--   Delete on a tree of directories, which may not be listable and whose removals can fail; Backups/Prune is Prune. What
--   sort.Slice does with equal times and the order of a Go map are parameters.
-- - Scheduler: internal/web/scheduler. Scheduler/Rows and Scheduler/Store are store.go: the two
--   tables are lists of rows, and each statement can fail before it changes anything.
--   Scheduler/Manager (run, RunNow, BriefOutput) and Scheduler/Jobs (Reload, addSchedule) are
--   manager.go. The clock's texts and robfig/cron are parameters with laws; the times are those of
--   the years up to 9999, whose RFC3339 texts can be read back.
-- - Config: internal/config/config.go, over the environment, the files and the working directory.
-- - Runlog: internal/web/runlog. S3backup: internal/s3backup, over a log of the requests to the
--   store, each of which can fail.
-- - BackupService: internal/web/backupservice/service.go, which runs an engine, uploads what it made
--   and prunes. Its backup_runner is the runner of the Scheduler.
-- - Server: internal/web/server/server.go, the pages that change schedules; Server/Manual is
--   runManualBackup, Server/Forms what is read from forms, and internal/web/auth/basic.go.
-- - Examples: the theorems at concrete inputs.
--
-- Every loop but one is structural recursion over a list or a text. The digits that `%d` prints are
-- found with fuel, the number itself: it has no more digits. Random bytes are numbers below 256,
-- and a number that a form gives is below 2^63; no other machine integer occurs in these parts.
-- White space and letters are those of ASCII.
--
-- Not modelled: DeleteBackup, DefaultPath, CreatedAtTime; Apps and Services of internal/backup; the
-- migration of an older database, and the start and stop of cron; the lines of the server's log;
-- the other pages and the templates of internal/web/server; internal/cli and internal/output, which
-- parse flags and print; cmd.
pub mod Common
pub mod Registry
pub mod Envspec
pub mod Json
pub mod Machine
pub mod Services
pub mod Engine
pub mod Backups
pub mod Scheduler
pub mod Config
pub mod Runlog
pub mod S3backup
pub mod BackupService
pub mod Server
pub mod Examples

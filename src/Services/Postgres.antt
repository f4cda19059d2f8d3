-- ===== src/Services/Postgres.antt =====
-- internal/services/postgres/postgres.go
use infra_shelf.Common.{ℕ, zero, suc, Bytes, List, [], ◌∷◌, ◌++◌, some, if◌then◌else◌, length}
use infra_shelf.Common.Text.{codes, is_empty, has_prefix}
use infra_shelf.Registry.{PostgresConfig}
use infra_shelf.Registry.Names.{validate_app_name}
use infra_shelf.Registry.Store.{FilePath}
use infra_shelf.Machine.{
  Host, M, pure, lift, ◌>>=◌, ◌>>◌, exec, exec_with_stdin, write_file, open_file,
}
use infra_shelf.Services.Password.{generate}

abbrev pub container : Bytes
container = codes "infra-postgres"

abbrev super_user : Bytes
super_user = codes "postgres"

-- `strings.ReplaceAll(s, old, new)`; `skip` bytes of an occurrence are still to be passed over.
replace_from : Bytes → Bytes → ℕ → Bytes → Bytes
replace_from old new skip [] = []
replace_from old new (suc skip) (c ∷ s) = replace_from old new skip s
replace_from (o ∷ old) new zero (c ∷ s) =
    let passed = replace_from (o ∷ old) new (length old) s in
    let copied = replace_from (o ∷ old) new zero s in
    if has_prefix (c ∷ s) (o ∷ old) then new ++ passed else c ∷ copied
replace_from [] new zero (c ∷ s) = c ∷ replace_from [] new zero s

unfoldable pub replace_all : Bytes → Bytes → Bytes → Bytes
unfolding replace_from
replace_all s old new = replace_from old new zero s

pub grants_template : Bytes
grants_template =
    codes
      "\nDO $$ DECLARE r record;\nBEGIN\n  FOR r IN SELECT nspname FROM pg_namespace WHERE nspname NOT LIKE 'pg_%' AND nspname != 'information_schema'\n  LOOP\n    EXECUTE format('ALTER SCHEMA %I OWNER TO %I', r.nspname, '__APP__');\n    EXECUTE format('GRANT ALL ON ALL TABLES IN SCHEMA %I TO %I', r.nspname, '__APP__');\n    EXECUTE format('GRANT ALL ON ALL SEQUENCES IN SCHEMA %I TO %I', r.nspname, '__APP__');\n    EXECUTE format('ALTER DEFAULT PRIVILEGES IN SCHEMA %I GRANT ALL ON TABLES TO %I', r.nspname, '__APP__');\n    EXECUTE format('ALTER DEFAULT PRIVILEGES IN SCHEMA %I GRANT ALL ON SEQUENCES TO %I', r.nspname, '__APP__');\n  END LOOP;\n  FOR r IN SELECT schemaname, tablename FROM pg_tables WHERE schemaname NOT LIKE 'pg_%' AND schemaname != 'information_schema'\n  LOOP\n    EXECUTE format('ALTER TABLE %I.%I OWNER TO %I', r.schemaname, r.tablename, '__APP__');\n  END LOOP;\n  FOR r IN SELECT sequence_schema, sequence_name FROM information_schema.sequences WHERE sequence_schema NOT LIKE 'pg_%' AND sequence_schema != 'information_schema'\n  LOOP\n    EXECUTE format('ALTER SEQUENCE %I.%I OWNER TO %I', r.sequence_schema, r.sequence_name, '__APP__');\n  END LOOP;\nEND $$;\n"

module _ (h : Host) where
  unfoldable pub psql : Bytes → Bytes → M Bytes
  psql database sql =
      let args = codes "psql" ∷ codes "-U" ∷ super_user ∷ [] in
      let chosen = if is_empty database then args else args ++ (codes "-d" ∷ database ∷ []) in
      exec h container (chosen ++ (codes "-c" ∷ sql ∷ []))

  unfoldable pub grant_permissions : Bytes → M (Unit {0})
  unfolding psql
  grant_permissions app_name = do
    psql app_name (replace_all grants_template (codes "__APP__") app_name)
    pure tt

  -- The statements in turn; the first that fails ends the loop.
  run_statements : List Bytes → M (Unit {0})
  unfolding psql
  run_statements [] = pure tt
  run_statements (sql ∷ rest) = do psql [] sql; run_statements rest

  abbrev pub provision_statements : Bytes → Bytes → List Bytes
  provision_statements app_name password =
      (codes "CREATE DATABASE \"" ++ (app_name ++ codes "\";"))
      ∷ (codes "CREATE USER \""
          ++ (app_name ++ (codes "\" WITH PASSWORD '" ++ (password ++ codes "';"))))
      ∷ (codes "GRANT ALL PRIVILEGES ON DATABASE \""
          ++ (app_name ++ (codes "\" TO \"" ++ (app_name ++ codes "\";"))))
      ∷ []

  unfoldable pub provision : Bytes → M PostgresConfig
  unfolding run_statements grant_permissions
  provision app_name = do
    lift (validate_app_name app_name)
    password ← generate h 24
    run_statements (provision_statements app_name password)
    grant_permissions app_name
    pure (record { database = app_name; username = app_name; password = password })

  unfoldable pub backup : Bytes → FilePath → M (Unit {0})
  backup app_name dest_path = do
    lift (validate_app_name app_name)
    sql ← exec h container (
        codes "pg_dump"
        ∷ codes "-U"
        ∷ super_user
        ∷ codes "--clean"
        ∷ codes "--if-exists"
        ∷ app_name
        ∷ [])
    write_file h dest_path sql

  unfoldable pub restore : Bytes → FilePath → M (Unit {0})
  unfolding grant_permissions
  restore app_name src_path = do
    lift (validate_app_name app_name)
    f ← open_file src_path
    exec_with_stdin h container (some f)
        (codes "psql" ∷ codes "-U" ∷ super_user ∷ codes "-d" ∷ app_name ∷ [])
    grant_permissions app_name

  unfoldable pub teardown : Bytes → M (Unit {0})
  unfolding run_statements
  teardown app_name = do
    lift (validate_app_name app_name)
    run_statements (
        (codes "SELECT pg_terminate_backend(pid) FROM pg_stat_activity WHERE datname = '"
          ++ (app_name ++ codes "';"))
        ∷ (codes "DROP DATABASE IF EXISTS \"" ++ (app_name ++ codes "\";"))
        ∷ (codes "DROP USER IF EXISTS \"" ++ (app_name ++ codes "\";"))
        ∷ [])

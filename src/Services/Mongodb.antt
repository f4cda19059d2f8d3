-- ===== src/Services/Mongodb.antt =====
-- internal/services/mongodb/mongodb.go
use infra_shelf.Common.{
  Bytes, ◌||◌, List, [], ◌∷◌, ◌++◌, Option, none, some, incomplete_config, if◌then◌else◌,
}
use infra_shelf.Common.Text.{codes, is_empty}
use infra_shelf.Registry.{MongoDbConfig}
use infra_shelf.Registry.Names.{validate_app_name}
use infra_shelf.Registry.Store.{FilePath}
use infra_shelf.Machine.{Host, M, pure, fail, lift, ◌>>=◌, ◌>>◌, docker, write_file, open_file}
use infra_shelf.Services.Credentials.{get_root_creds}
use infra_shelf.Services.Password.{generate}

abbrev pub container : Bytes
container = codes "infra-mongodb"

abbrev interactive : Option Bytes → List Bytes → List Bytes
interactive none rest = rest
interactive (some input) rest = codes "-i" ∷ rest

-- The role array of a database, as a JavaScript literal.
abbrev pub roles : Bytes → Bytes
roles db =
    codes "[{role:\"readWrite\",db:\""
    ++ (db ++ (codes "\"},{role:\"dbAdmin\",db:\"" ++ (db ++ codes "\"}]")))

module _ (h : Host) where
  -- `sh -c <script>` in the container, with the root credentials in its environment.
  unfoldable pub mongo_shell : Bytes → Option Bytes → M Bytes
  mongo_shell script stdin = do
    creds ←
        lift (
          get_root_creds (codes "MONGO_INITDB_ROOT_USERNAME") (codes "MONGO_INITDB_ROOT_PASSWORD")
            h)
    docker h
        (codes "exec"
          ∷ interactive stdin (
              codes "-e"
              ∷ (codes "MONGO_ROOT_USER=" ++ creds.user)
              ∷ codes "-e"
              ∷ (codes "MONGO_ROOT_PASS=" ++ creds.pass)
              ∷ container
              ∷ codes "sh"
              ∷ codes "-c"
              ∷ script
              ∷ []))
        stdin

  unfoldable pub mongo_eval : Bytes → M (Unit {0})
  unfolding mongo_shell
  mongo_eval js = do
    mongo_shell
        (codes
            "mongosh --quiet -u \"$MONGO_ROOT_USER\" -p \"$MONGO_ROOT_PASS\" --authenticationDatabase admin --eval '"
          ++ (js ++ codes "'"))
        none
    pure tt

  unfoldable pub provision : Bytes → M MongoDbConfig
  unfolding mongo_eval
  provision app_name = do
    lift (validate_app_name app_name)
    password ← generate h 24
    mongo_eval (
        codes "db.getSiblingDB(\""
        ++ (app_name
            ++ (codes "\").createUser({user:\""
                ++ (app_name
                    ++ (codes "\",pwd:\""
                        ++ (password ++ (codes "\",roles:" ++ (roles app_name ++ codes "})"))))))))
    pure (record { database = app_name; username = app_name; password = password })

  -- The file is created first; the archive is streamed into it.
  unfoldable pub backup : Bytes → FilePath → M (Unit {0})
  unfolding mongo_shell
  backup app_name dest_path = do
    lift (validate_app_name app_name)
    write_file h dest_path []
    archive ←
        mongo_shell
          (codes
              "mongodump --quiet -u \"$MONGO_ROOT_USER\" -p \"$MONGO_ROOT_PASS\" --authenticationDatabase admin --db \""
            ++ (app_name ++ codes "\" --archive --gzip"))
          none
    write_file h dest_path archive

  unfoldable pub restore : Bytes → FilePath → M (Unit {0})
  unfolding mongo_shell
  restore app_name src_path = do
    lift (validate_app_name app_name)
    f ← open_file src_path
    mongo_shell
        (codes
            "mongorestore --quiet -u \"$MONGO_ROOT_USER\" -p \"$MONGO_ROOT_PASS\" --authenticationDatabase admin --archive --gzip --drop --nsInclude \""
          ++ (app_name ++ codes ".*\""))
        (some f)
    pure tt

  unfoldable pub ensure : MongoDbConfig → M (Unit {0})
  unfolding mongo_eval
  ensure cfg =
      if is_empty cfg.database || is_empty cfg.username || is_empty cfg.password
      then fail incomplete_config
      else mongo_eval (
          codes "const d=db.getSiblingDB(\""
          ++ (cfg.database
              ++ (codes "\");const r="
                  ++ (roles cfg.database
                      ++ (codes ";if(d.getUser(\""
                          ++ (cfg.username
                              ++ (codes "\")===null){d.createUser({user:\""
                                  ++ (cfg.username
                                      ++ (codes "\",pwd:\""
                                          ++ (cfg.password
                                              ++ (codes "\",roles:r});}else{d.updateUser(\""
                                                  ++ (cfg.username
                                                      ++ (codes "\",{pwd:\""
                                                          ++ (cfg.password
                                                            ++ codes "\",roles:r});}"))))))))))))))

  unfoldable pub teardown : Bytes → M (Unit {0})
  unfolding mongo_eval
  teardown app_name = do
    lift (validate_app_name app_name)
    mongo_eval (
        codes "const d=db.getSiblingDB(\""
        ++ (app_name
            ++ (codes "\");try{d.dropUser(\""
                ++ (app_name ++ codes "\");}catch(e){}d.dropDatabase();"))))

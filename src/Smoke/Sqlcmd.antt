-- ===== src/Smoke/Sqlcmd.antt =====
-- scripts/run-local-rls-smoke.mjs: the sqlcmd command of a step, run locally or in a container.
use oc.Base.{ℕ, zero, suc, String, Option, none, some, Bool, ◌||◌, List, [], ◌∷◌}
use oc.Base.{◌==◌, coalesce, if◌then◌else◌}
use Prim.Native.String
use oc.Base.Text.{truthy, truthy_option, trim}
use oc.Base.Exec.{Exec, Failure, Result, ok, err, other, lift, ◌>>=◌}

-- The variables of `config.env ?? process.env` that the script reads
pub record SmokeEnv : Type 0 where
  pub sqlserver_host : Option String
  pub sqlserver_port : Option String
  pub sqlserver_user : Option String
  pub sqlserver_password : Option String
  pub sqlserver_database : Option String
  pub sql_smoke_database : Option String
  pub sql_smoke_keep_database : Option String
  pub sqlcmd_mode : Option String
  pub sqlcmd_docker_image : Option String
  pub sqlcmd_path : Option String

-- What node:path makes of the file's place: `root`, `dbDir` and `testsDir`
pub record SmokePaths : Type 0 where
  pub root : String
  pub db_dir : String
  pub tests_dir : String

pub data SqlcmdClient : Type 0 where
  docker : (image : String) → SqlcmdClient
  local : (path : String) → SqlcmdClient

abbrev pub is_text : String → Option String → Bool
is_text s o = coalesce o "" == s

unfoldable pub sqlcmd_client : SmokeEnv → SqlcmdClient
sqlcmd_client env =
    if is_text "docker" env.sqlcmd_mode || truthy_option env.sqlcmd_docker_image
    then docker (coalesce env.sqlcmd_docker_image "mcr.microsoft.com/mssql/server:2025-latest")
    else local (coalesce env.sqlcmd_path "sqlcmd")

-- The options of one step. The database and the argument of sqlcmd stand beside them.
pub record StepOptions : Type 0 where
  pub client : SqlcmdClient
  pub cwd : String
  pub env : SmokeEnv
  pub host : String
  pub password : String
  pub port : String
  pub user : String

-- The third argument of `spawn`: the environment is `env` with SQLCMDPASSWORD on top.
pub record SpawnOptions : Type 0 where
  pub cwd : String
  pub env : SmokeEnv
  pub sqlcmdpassword : String
  pub stdio : String

pub record Command : Type 0 where
  pub executable : String
  pub args : List String
  pub options : SpawnOptions

unfoldable pub server_name : String → String → String
server_name host port =
    let normalized_port = trim port in
    if truthy normalized_port
    then String.◌++◌ "tcp:" (String.◌++◌ host (String.◌++◌ "," normalized_port))
    else host

unfoldable pub sqlcmd_args : StepOptions → String → List String → List String
unfolding server_name
sqlcmd_args options database args =
    "-C"
    ∷ "-b"
    ∷ "-S"
    ∷ server_name options.host options.port
    ∷ "-U"
    ∷ options.user
    ∷ "-d"
    ∷ database
    ∷ args

unfoldable pub sqlcmd_options : StepOptions → SpawnOptions
sqlcmd_options options = record {
  cwd = options.cwd;
  env = options.env;
  sqlcmdpassword = options.password;
  stdio = "inherit";
}

module _ (paths : SmokePaths) where
  abbrev command_of : SqlcmdClient → StepOptions → List String → Command
  command_of (docker image) options sqlcmd = record {
    executable = "docker";
    args =
        "run"
        ∷ "--rm"
        ∷ "-e"
        ∷ "ACCEPT_EULA=Y"
        ∷ "-e"
        ∷ "SQLCMDPASSWORD"
        ∷ "-v"
        ∷ String.◌++◌ paths.db_dir ":/work/db:ro"
        ∷ "-w"
        ∷ "/work/db/sqlserver/tests"
        ∷ image
        ∷ "/opt/mssql-tools18/bin/sqlcmd"
        ∷ sqlcmd;
    options = sqlcmd_options (record options { cwd = paths.root });
  }
  command_of (local path) options sqlcmd = record {
    executable = path;
    args = sqlcmd;
    options = sqlcmd_options options;
  }

  unfoldable pub sqlcmd_command : StepOptions → String → List String → Command
  unfolding sqlcmd_args sqlcmd_options
  sqlcmd_command options database args =
      command_of options.client options (sqlcmd_args options database args)

  module _ {W : Type 0} (runner : Command → Exec W (Unit {0})) where
    unfoldable pub run_sqlcmd : StepOptions → String → List String → Exec W (Unit {0})
    run_sqlcmd options database args = runner (sqlcmd_command options database args)

    unfoldable pub run_sql_query : StepOptions → (admin_database query : String) → Exec W (Unit {0})
    unfolding run_sqlcmd
    run_sql_query options admin_database query =
        run_sqlcmd options admin_database ("-Q" ∷ query ∷ [])

    unfoldable pub run_sql_file : StepOptions → (database file_path : String) → Exec W (Unit {0})
    unfolding run_sqlcmd
    run_sql_file options database file_path = run_sqlcmd options database ("-i" ∷ file_path ∷ [])

-- What a child process ends with first: its event `error`, or `close` with an exit code or `null`.
pub data ChildEnd : Type 0 where
  failed : String → ChildEnd
  closed : Option ℕ → ChildEnd

abbrev joined : String → List String → String
joined s [] = s
joined s (a ∷ rest) = joined (String.◌++◌ s (String.◌++◌ " " a)) rest

-- `String(number)` is an argument, and so is what node:child_process does.
module _ (to_text : ℕ → String) where
  abbrev pub exited : String → List String → Option ℕ → Failure
  exited executable args code = other (
      String.◌++◌ (joined executable args)
        (String.◌++◌ " exited with " (elim code [ none ↦ "null" | some n ↦ to_text n ])))

  abbrev pub settle_child : Command → ChildEnd → Result (Unit {0})
  settle_child c (failed message) = err (other message)
  settle_child c (closed none) = err (exited c.executable c.args none)
  settle_child c (closed (some zero)) = ok tt
  settle_child c (closed (some (suc n))) = err (exited c.executable c.args (some (suc n)))

  unfoldable pub spawn_runner :
      {W : Type 0} → (Command → Exec W ChildEnd) → Command → Exec W (Unit {0})
  spawn_runner spawn command = do end ← spawn command; lift (settle_child command end)

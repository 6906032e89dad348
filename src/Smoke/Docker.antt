-- ===== src/Smoke/Docker.antt =====
-- scripts/run-rls-smoke.mjs: the smoke test in a container of its own. What node:child_process, Number
-- and the clock do is an argument.
pub mod Waiting
use oc.Base.{ℕ, zero, suc, String, Option, none, some, Bool, true, false, List, [], ◌∷◌, ◌++◌}
use oc.Base.{eqb, coalesce, if◌then◌else◌}
use Prim.Native.String
use oc.Base.Exec.{Exec, Result, ok, err, other, pure, throw, try_finally, ◌>>=◌, ◌>>◌}
use oc.Audit.Enumeration.{JsNumber, accept_number}
use oc.Smoke.Sqlcmd.{ChildEnd, failed, closed, exited}

-- The variables of `process.env` that the script reads
pub record DockerEnv : Type 0 where
  pub sql_smoke_container : Option String
  pub mssql_sa_password : Option String
  pub mssql_image : Option String
  pub sql_smoke_retries : Option String
  pub sql_smoke_delay_ms : Option String

-- the script's constants
pub record Container : Type 0 where
  pub name : String
  pub password : String
  pub image : String
  pub retries : ℕ
  pub delay_ms : ℕ

-- Number of `undefined` is not an integer.
abbrev positive_int : (String → JsNumber) → Option String → ℕ → ℕ
positive_int to_number none fallback = fallback
positive_int to_number (some value) fallback = accept_number to_number (to_number value) fallback

unfoldable pub container_of : (String → JsNumber) → DockerEnv → Container
container_of to_number env = record {
  name = coalesce env.sql_smoke_container "oc01-rls-smoke";
  password = coalesce env.mssql_sa_password "Oc01_sqlSmoke_2026!";
  image = coalesce env.mssql_image "mcr.microsoft.com/mssql/server:2025-latest";
  retries = positive_int to_number env.sql_smoke_retries 45;
  delay_ms = positive_int to_number env.sql_smoke_delay_ms 2000;
}

module _ (to_text : ℕ → String) where
  -- what becomes of the promise of `run`, by how the child ended
  abbrev pub settle_run : Bool → (command : String) → List String → ChildEnd → Result ℕ
  settle_run reject command args (failed message) = err (other message)
  settle_run reject command args (closed none) =
      if reject then err (exited to_text command args none) else ok 1
  settle_run reject command args (closed (some zero)) = ok 0
  settle_run reject command args (closed (some (suc n))) =
      if reject then err (exited to_text command args (some (suc n))) else ok (suc n)

  module _ {W : Type 0} (spawn : String → List String → (stdio : String) → W → ChildEnd × W)
      (sleep : ℕ → W → W) where
    unfoldable pub run : String → List String → (reject : Bool) → (stdio : String) → Exec W ℕ
    run command args reject stdio w =
        let (end, w') = spawn command args stdio w in (settle_run reject command args end, w')

    module _ (container : Container) (db_dir : String) where
      unfoldable pub run_sql_query :
          (query : String) → (reject : Bool) → (stdio : String) → Exec W ℕ
      run_sql_query query reject stdio =
          run "docker"
            ("exec" ∷ container.name ∷ "/opt/mssql-tools18/bin/sqlcmd" ∷ "-C" ∷ "-S" ∷ "localhost"
              ∷ "-U" ∷ "sa" ∷ "-P" ∷ container.password ∷ "-Q" ∷ query ∷ [])
            reject stdio

      unfoldable pub run_sql_file : (file_path : String) → Exec W ℕ
      run_sql_file file_path =
          run "docker"
            ("exec" ∷ "-w" ∷ "/work/sqlserver/tests" ∷ container.name
              ∷ "/opt/mssql-tools18/bin/sqlcmd" ∷ "-C" ∷ "-S" ∷ "localhost" ∷ "-U" ∷ "sa" ∷ "-P"
              ∷ container.password ∷ "-d" ∷ "master" ∷ "-i" ∷ file_path ∷ [])
            true "inherit"

      abbrev pub removal : List String
      removal = "rm" ∷ "-f" ∷ container.name ∷ []

      unfoldable pub remove_container : Exec W (Unit {0})
      unfolding run
      remove_container = do run "docker" removal false "ignore"; pure tt

      abbrev pub pause : Exec W (Unit {0})
      pause w = (ok tt, sleep container.delay_ms w)

      abbrev pub probe_server : Exec W ℕ
      probe_server = run_sql_query "SELECT 1" false "ignore"

      -- the loop, with the attempts that are left
      unfoldable pub wait_for_sql_server : ℕ → Exec W (Unit {0})
      unfolding run_sql_query
      wait_for_sql_server zero =
          throw (other "SQL Server did not become ready before the smoke timeout.")
      wait_for_sql_server (suc attempts) = do
        exit_code ← probe_server
        let rest = pause >> wait_for_sql_server attempts
        if eqb exit_code 0 then pure tt else rest

      -- the try block
      unfoldable pub container_steps : Exec W (Unit {0})
      unfolding run run_sql_file wait_for_sql_server
      container_steps = do
        run "docker"
            ("run"
              ∷ "-d"
              ∷ "--name"
              ∷ container.name
              ∷ "-e"
              ∷ "ACCEPT_EULA=Y"
              ∷ "-e"
              ∷ String.◌++◌ "MSSQL_SA_PASSWORD=" container.password
              ∷ container.image
              ∷ [])
            true "inherit"
        wait_for_sql_server container.retries
        run "docker" ("cp" ∷ db_dir ∷ String.◌++◌ container.name ":/work/" ∷ []) true "inherit"
        run_sql_file "rls-runtime-smoke.sql"
        pure tt

      -- the statements of the module
      unfoldable pub rls_smoke : Exec W (Unit {0})
      rls_smoke = do remove_container; try_finally container_steps remove_container

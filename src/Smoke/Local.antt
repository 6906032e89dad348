-- ===== src/Smoke/Local.antt =====
-- scripts/run-local-rls-smoke.mjs: the run, from the check of the environment to the clean-up.
pub mod Cleanup
pub mod Outcome
pub mod Entry
use oc.Base.{String, Option, none, some, Bool, true, false, not, ◌&&◌}
use oc.Base.{coalesce, if◌then◌else◌}
use Prim.Native.String
use oc.Base.Text.{truthy}
use oc.Base.Exec.{
  Exec, Failure, ok, unauthorized, bad_request, forbidden, internal, too_many_requests,
  service_unavailable, other, thrown_value, pure, throw, lift, try_catch, ◌>>=◌, ◌>>◌,
}
use oc.Smoke.Names.{smoke_database_name}
use oc.Smoke.Queries.{create_database_sql, drop_database_sql}
use oc.Smoke.Sqlcmd.{is_text}
use oc.Smoke.Sqlcmd.{
  SmokeEnv, SmokePaths, SqlcmdClient, docker, local, Command, StepOptions, sqlcmd_client,
  run_sql_query, run_sql_file,
}

pub record SmokeResult : Type 0 where
  pub kept : Bool
  pub smoke_database : String

-- `errorMessage(error)`
abbrev pub error_message : Failure → String
error_message (unauthorized m) = m
error_message (bad_request m) = m
error_message (forbidden m) = m
error_message (internal m) = m
error_message (too_many_requests m) = m
error_message (service_unavailable m) = m
error_message (other m) = m
error_message (thrown_value s) = s

-- `error.message += text` on an Error
abbrev pub extend_message : Failure → String → Option Failure
extend_message (unauthorized m) t = some (unauthorized (String.◌++◌ m t))
extend_message (bad_request m) t = some (bad_request (String.◌++◌ m t))
extend_message (forbidden m) t = some (forbidden (String.◌++◌ m t))
extend_message (internal m) t = some (internal (String.◌++◌ m t))
extend_message (too_many_requests m) t = some (too_many_requests (String.◌++◌ m t))
extend_message (service_unavailable m) t = some (service_unavailable (String.◌++◌ m t))
extend_message (other m) t = some (other (String.◌++◌ m t))
extend_message (thrown_value s) t = none

-- The variables `created` and `primaryError` beside the world
pub record Progress (W : Type 0) : Type 0 where
  pub created : Bool
  pub primary_error : Option Failure
  pub world : W

abbrev pub on_world : {W A : Type 0} → Exec W A → Exec (Progress W) A
on_world m s = let (r, w) = m s.world in (r, record s { world = w })

-- What `primaryError` is after the clean-up failed: the primary error says so too, or there was none.
abbrev pub with_cleanup_error : Option Failure → Failure → Failure
with_cleanup_error none cleanup = cleanup
with_cleanup_error (some primary) cleanup =
    coalesce (extend_message primary (String.◌++◌ " Cleanup also failed: " (error_message cleanup)))
      cleanup

-- `if (primaryError)`: a value that is thrown may be falsy, an Error is not.
abbrev pub is_raised : Failure → Bool
is_raised (thrown_value s) = truthy s
is_raised _ = true

module _ {W : Type 0} where
  abbrev pub mark_created : Exec (Progress W) (Unit {0})
  mark_created s = (ok tt, record s { created = true })

  abbrev pub set_primary_error : Failure → Exec (Progress W) (Unit {0})
  set_primary_error e s = (ok tt, record s { primary_error = some e })

  abbrev pub amend_primary_error : Failure → Exec (Progress W) (Unit {0})
  amend_primary_error e s =
      (ok tt, record s { primary_error = some (with_cleanup_error s.primary_error e) })

  -- the try block and its catch
  unfoldable pub smoke_steps : (create file : Exec W (Unit {0})) → Exec (Progress W) (Unit {0})
  smoke_steps create file =
      try_catch (do on_world create; mark_created; on_world file) set_primary_error

  -- the finally block
  unfoldable pub smoke_cleanup : Exec W (Unit {0}) → Bool → Exec (Progress W) (Unit {0})
  smoke_cleanup drop keep s =
      if s.created && not keep then try_catch (on_world drop) amend_primary_error s else (ok tt, s)

  module _ (log : String → Exec W (Unit {0})) (keep : Bool) (name : String) where
    abbrev report : Exec W SmokeResult
    report =
        if keep
        then (do
          log (String.◌++◌ "SQL smoke database kept: " name)
          pure (record { kept = true; smoke_database = name }))
        else pure (record { kept = false; smoke_database = name })

    -- what is left of the run behind the try statement
    abbrev pub concluded : Option Failure → Exec W SmokeResult
    concluded none = report
    concluded (some e) = if is_raised e then throw e else report

abbrev default_host : SqlcmdClient → String
default_host (docker _) = "host.docker.internal"
default_host (local _) = "localhost"

-- the options that every step shares
unfoldable pub step_options : SmokeEnv → (cwd password : String) → StepOptions
step_options env cwd password = record {
  client = sqlcmd_client env;
  cwd = cwd;
  env = env;
  host = coalesce env.sqlserver_host (default_host (sqlcmd_client env));
  password = password;
  port = coalesce env.sqlserver_port "1433";
  user = coalesce env.sqlserver_user "sa";
}

unfoldable pub keeps_database : SmokeEnv → Bool
keeps_database env = is_text "true" env.sql_smoke_keep_database

module _ {W : Type 0} (paths : SmokePaths) (runner : Command → Exec W (Unit {0}))
    (log : String → Exec W (Unit {0})) where
  module _ (env : SmokeEnv) (cwd password name : String) where
    abbrev pub admin_query : String → Exec W (Unit {0})
    admin_query query =
        run_sql_query paths runner (step_options env cwd password)
          (coalesce env.sqlserver_database "master") query

    abbrev pub create_step : Exec W (Unit {0})
    create_step = admin_query (create_database_sql name)

    abbrev pub file_step : Exec W (Unit {0})
    file_step =
        run_sql_file paths runner (step_options env cwd password) name "rls-runtime-smoke.sql"

    abbrev pub drop_step : Exec W (Unit {0})
    drop_step = admin_query (drop_database_sql name)

    unfoldable pub run_smoke : Exec W SmokeResult
    unfolding smoke_steps smoke_cleanup
    run_smoke w =
        let start : Progress W = record { created = false; primary_error = none; world = w } in
        let keep = keeps_database env in
        let s = ((smoke_steps create_step file_step >> smoke_cleanup drop_step keep) start).1 in
        concluded log keep name s.primary_error s.world

  -- `config.cwd` may be undefined; `now` is the text of `config.now()`.
  unfoldable pub run_local_rls_smoke : SmokeEnv → Option String → String → Exec W SmokeResult
  unfolding run_smoke
  run_local_rls_smoke env cwd now = do
    let password = coalesce env.sqlserver_password ""
    if truthy password
        then pure tt
        else throw (other "SQLSERVER_PASSWORD is required to run the local SQL Server RLS smoke.")
    name ← lift (smoke_database_name env.sql_smoke_database now)
    run_smoke env (coalesce cwd paths.tests_dir) password name

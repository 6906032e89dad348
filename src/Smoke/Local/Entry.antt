-- ===== src/Smoke/Local/Entry.antt =====
-- scripts/run-local-rls-smoke.mjs as a command: what the process prints and exits with.
use oc.Base.{ℕ, String, Option, none, some, Bool, false, ◌==◌, ◌≡◌, ap, if◌then◌else◌}
use oc.Base.Text.{truthy}
use oc.Base.Exec.{Exec, Failure, ok, err, pure, try_catch, ◌>>◌}
use oc.Base.Exec.Laws.{bind-ok, bind_failed, caught_ok, caught_by, paired}
use oc.Smoke.Sqlcmd.{SmokeEnv, SmokePaths, Command}
use oc.Smoke.Local.{SmokeResult, error_message, run_local_rls_smoke}

-- `pathToFileURL(path).href` is an argument, and so are the two values that are compared.
unfoldable pub is_cli_entry_point :
    (path_to_file_url : String → String) (module_url : String) → Option String → Bool
is_cli_entry_point path_to_file_url module_url none = false
is_cli_entry_point path_to_file_url module_url (some script) =
    if truthy script then module_url == path_to_file_url script else false

module _ {W : Type 0} (paths : SmokePaths) (runner : Command → Exec W (Unit {0}))
    (log print_error : String → Exec W (Unit {0})) where
  -- with the exit code, which is 0 if the script sets none
  unfoldable pub exit_with : Failure → Exec W ℕ
  exit_with e = do print_error (error_message e); pure 1

  -- `main().catch(...)`, in an environment and at a time
  unfoldable pub main : SmokeEnv → String → Exec W ℕ
  unfolding exit_with
  main env now = try_catch (do run_local_rls_smoke paths runner log env none now; pure 0) exit_with

  module _ (prints : (t : String) (w : W) → (print_error t w).0 ≡ ok tt) (env : SmokeEnv)
      (now : String) (w : W) where
    -- A run that returns exits with 0.
    pub main-ok :
        (r : SmokeResult)
        → (run_local_rls_smoke paths runner log env none now w).0 ≡ ok r
        → (main env now w).0 ≡ ok 0
    unfolding main pure
    main-ok r h =
        caught_ok _ exit_with w 0 (
          ap (λ o. o.0)
            (bind-ok (run_local_rls_smoke paths runner log env none now) _ (paired _ h)))

    -- A run that throws exits with 1, if the message can be printed.
    pub main-err :
        (e : Failure)
        → (run_local_rls_smoke paths runner log env none now w).0 ≡ err e
        → (main env now w).0 ≡ ok 1
    unfolding main exit_with pure
    main-err e h =
        caught_by _ exit_with w e 1
          (bind_failed (run_local_rls_smoke paths runner log env none now) _ w e h)
          (λ v. ap (λ o. o.0) (bind-ok _ _ (paired _ (prints (error_message e) v))))

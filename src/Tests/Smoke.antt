-- ===== src/Tests/Smoke.antt =====
-- Tests and examples of the two smoke tests: runs over scripted child processes.
use oc.Base.{ℕ, zero, suc, String, some, none, List, [], ◌∷◌, first}
use oc.Base.{◌≡◌, refl, eqb, length, if◌then◌else◌}
use oc.Base.{◌↔◌}
use oc.Base.Exec.{Result, ◌>>=◌, Exec, ok, err, other}
use oc.Base.Text.{trim}
use oc.Smoke.Names.{
  matches_name, is_letter, matches_name_rest, is_name_char, is_system_name, lowers_to,
  smoke_database_name, assert_safe_database_name,
}
use oc.Smoke.Names.Safe.{IsSafeName, assert_safe_database_name-IsSafeName}
use oc.Smoke.Queries.{create_database_sql, drop_database_sql}
use oc.Smoke.Queries.Literals.{read_pieces, create_pieces, drop_pieces, read_pieces-database_sql}
use oc.Smoke.Sqlcmd.{SmokeEnv, SmokePaths, Command, ChildEnd, closed, failed, spawn_runner}
use oc.Smoke.Local.{keeps_database, run_smoke}
use oc.Smoke.Local.Outcome.{
  spawn_runner-Error, run_smoke-commands, run_smoke-outcome, create_command, file_command,
  drop_command,
}
use oc.Smoke.Docker.{run, Container, rls_smoke, wait_for_sql_server, removal}
use oc.Smoke.Docker.Waiting.{WaitEnd, wait_for_sql_server-WaitEnd, rls_smoke-removal}

abbrev to_text : ℕ → String
to_text zero = "0"
to_text (suc n) = "1"

abbrev env : SmokeEnv
env = record {
  sqlserver_host = none;
  sqlserver_port = none;
  sqlserver_user = none;
  sqlserver_password = some "secret";
  sqlserver_database = none;
  sql_smoke_database = some " smoke_1 ";
  sql_smoke_keep_database = none;
  sqlcmd_mode = none;
  sqlcmd_docker_image = none;
  sqlcmd_path = none;
}

abbrev paths : SmokePaths
paths = record { root = "/r"; db_dir = "/r/db"; tests_dir = "/r/db/sqlserver/tests" }

-- Children that are recorded; the first ends well, and every other fails.
abbrev spawn : Command → Exec (List Command) ChildEnd
spawn c [] = (ok (closed (some 0)), c ∷ [])
spawn c (d ∷ w) = (ok (failed "gone"), c ∷ d ∷ w)

spawn_ends : (c : Command) (w : List Command) → (end : ChildEnd) × ((spawn c w).0 ≡ ok end)
spawn_ends c [] = (_, refl)
spawn_ends c (d ∷ w) = (_, refl)

abbrev runner : Command → Exec (List Command) (Unit {0})
runner = spawn_runner to_text spawn

runner_records : (c : Command) (w : List Command) → (runner c w).1 ≡ c ∷ w
unfolding spawn_runner ◌>>=◌
runner_records c [] = refl
runner_records c (d ∷ w) = refl

abbrev quiet : String → Exec (List Command) (Unit {0})
quiet t w = (ok tt, w)

run_smoke-commands_example :
    (run_smoke paths runner quiet env "/" "secret" "smoke_1" []).1
    ≡ drop_command paths runner quiet env "/" "secret" "smoke_1"
      ∷ file_command paths runner quiet env "/" "secret" "smoke_1"
      ∷ create_command paths runner quiet env "/" "secret" "smoke_1"
      ∷ []
unfolding spawn_runner ◌>>=◌ keeps_database
run_smoke-commands_example =
    run_smoke-commands paths runner quiet env "/" "secret" "smoke_1" (λ w. w) runner_records
      (λ t w. refl) []

run_smoke-outcome_example :
    (run_smoke paths runner quiet env "/" "secret" "smoke_1" []).0
    ≡ err (other "gone Cleanup also failed: gone")
unfolding spawn_runner ◌>>=◌ keeps_database
run_smoke-outcome_example =
    run_smoke-outcome paths runner quiet env "/" "secret" "smoke_1"
      (spawn_runner-Error to_text spawn spawn_ends) (λ t w. refl) []

assert_safe_database_name-IsSafeName_example :
    (assert_safe_database_name "Master1" ≡ ok tt) ↔ IsSafeName "Master1"
assert_safe_database_name-IsSafeName_example = assert_safe_database_name-IsSafeName "Master1"

read_pieces-database_sql_example :
    (read_pieces create_pieces (create_database_sql "a]'; --") ≡ some ("a]'; --" ∷ "a]'; --" ∷ []))
    × (read_pieces drop_pieces (drop_database_sql "a]'; --")
        ≡ some ("a]'; --" ∷ "a]'; --" ∷ "a]'; --" ∷ []))
read_pieces-database_sql_example = read_pieces-database_sql "a]'; --"

trimmed_name : smoke_database_name (some " smoke_1 ") "7" ≡ ok "smoke_1"
unfolding smoke_database_name matches_name trim is_letter matches_name_rest is_name_char
    is_system_name lowers_to
trimmed_name = refl

default_name : smoke_database_name (some "  ") "7" ≡ ok "oc01_rls_smoke_7"
unfolding smoke_database_name matches_name trim is_letter matches_name_rest is_name_char
    is_system_name lowers_to
default_name = refl

system_name :
    smoke_database_name (some "TempDB") "7"
    ≡ err (other "SQL_SMOKE_DATABASE cannot be a SQL Server system database.")
unfolding smoke_database_name matches_name trim is_letter matches_name_rest is_name_char
    is_system_name lowers_to
system_name = refl

abbrev container : Container
container = record { name = "c"; password = "p"; image = "i"; retries = 3; delay_ms = 1 }

-- A server that answers at the second attempt: the children so far, the last one first.
abbrev children : String → List String → String → List (List String) → ChildEnd × List (List String)
children command args stdio w =
    (if eqb (length w) 0 then closed (some 1) else closed (some 0), args ∷ w)

wait_for_sql_server-WaitEnd_example :
    WaitEnd to_text children
      (λ ms w. w)
      container
      "/db"
      3
      []
      (wait_for_sql_server to_text children (λ ms w. w) container "/db" 3 [])
wait_for_sql_server-WaitEnd_example =
    wait_for_sql_server-WaitEnd to_text children (λ ms w. w) container "/db" 3 []

second_attempt :
    (o : (Result (Unit {0}) × List (List String))) × (wait_for_sql_server to_text children
        (λ ms w. w)
        container
        "/db"
        3
        []
      ≡ o)
    × (o.0 ≡ ok tt)
    × (length o.1 ≡ 2)
unfolding wait_for_sql_server ◌>>=◌ run
second_attempt = (_, refl, refl, refl)

rls_smoke-removal_example :
    first (rls_smoke to_text children (λ ms w. w) container "/db" []).1
    ≡ some (removal to_text children (λ ms w. w) container "/db")
rls_smoke-removal_example =
    rls_smoke-removal to_text children (λ ms w. w) container "/db" (λ w. w) (λ c args stdio w. refl)
      []

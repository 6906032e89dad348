-- ===== src/Tests/History.antt =====
-- The history of a source over the sample server's tables.
use oc.Base.{ℕ, String, List, [], ◌∷◌, ◌++◌, ◌≡◌, refl, ◌≤◌, ◌⊎◌, map, length, ◌==◌}
use mathlib.Core.List.{Perm}
use oc.Base.Exec.{ok, ◌>>=◌}
use oc.Database.Statements.{ProtectionRow}
use oc.Sql.Schema.{Server, cleared}
use oc.Sql.Run.{Moment, select, take, latest_first}
use oc.Sql.Execute.{execute, run_select_history}
use oc.Audit.Enumeration.{history_entry, list_protection_history}
use oc.Audit.Enumeration.Blocking.{on_server}
use oc.Audit.Enumeration.History.{IsLatestFirst, list_protection_history-IsLatestFirst}
use oc.Sample.Backend.{plain, world}

abbrev protection : String → ℕ → ProtectionRow
protection ip until = record {
  source_ip = ip;
  reason = "identifier_enumeration_threshold";
  denied_attempt_count = 5;
  window_seconds = 600;
  blocked_until = until;
}

abbrev protected_server : Server
protected_server = record {
  session = cleared;
  tables = record world.durable {
    ip_protection_events =
        protection "192.0.2.2" 1900
        ∷ protection "192.0.2.9" 2100
        ∷ protection "192.0.2.2" 2500
        ∷ [];
  };
}

abbrev history_moment : Moment
history_moment = record { now = 2000; fresh_id = "n"; fresh_token = "t" }

-- the later of the source's two protections comes first
two_listed :
    list_protection_history "192.0.2.2" (on_server plain history_moment) protected_server ≡ (
      ok (map history_entry (protection "192.0.2.2" 2500 ∷ protection "192.0.2.2" 1900 ∷ [])),
      protected_server,
    )
unfolding list_protection_history execute run_select_history select take latest_first ◌>>=◌
two_listed = refl

list_protection_history-IsLatestFirst_example :
    (rows : List ProtectionRow) × (rest : List ProtectionRow) × (list_protection_history "192.0.2.2"
        (on_server plain history_moment)
        protected_server
      ≡ (ok (map history_entry rows), protected_server))
    × Perm
        (rows ++ rest)
        (select (λ e. e.source_ip == "192.0.2.2") protected_server.tables.ip_protection_events)
    × IsLatestFirst (rows ++ rest)
    × (length rows ≤ 50)
    × ((rest ≡ []) ⊎ (length rows ≡ 50))
list_protection_history-IsLatestFirst_example =
    list_protection_history-IsLatestFirst plain history_moment "192.0.2.2" protected_server

-- ===== src/Audit.antt =====
-- apps/api/src/audit/audit.service.ts
pub mod Json
pub mod Enumeration
use oc.Base.{String, Option, none, some, List}
use oc.Base.Exec.{Exec, pure, ◌>>=◌, ◌>>◌}
use oc.Contracts.{AuditEventInput}
use oc.Database.{QueryExecutor}
use oc.Database.Statements.{AuditEventRow, insert_audit_event}
use Json.{stringify}

abbrev metadata_json : Option (List (String × String)) → Option String
metadata_json none = none
metadata_json (some m) = some (stringify m)

-- the values that `record` binds
unfoldable pub audit_row : AuditEventInput → AuditEventRow
audit_row event = record {
  company_id = event.company_id;
  actor_user_id = event.actor_user_id;
  source_ip = event.source_ip;
  event_type = event.event_type;
  target_type = event.target_type;
  target_id = event.target_id;
  reason = event.reason;
  metadata_json = metadata_json event.metadata;
}

-- `record(event, executor)`
unfoldable pub record_event : {W : Type 0} → AuditEventInput → QueryExecutor W → Exec W (Unit {0})
unfolding audit_row
record_event event executor = do executor.query (insert_audit_event (audit_row event)); pure tt

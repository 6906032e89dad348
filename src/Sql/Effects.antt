-- ===== src/Sql/Effects.antt =====
-- What the statements that write have done, read off their success.
use oc.Base.{◌+◌, map, String, ◌≡◌, some, [], ◌∷◌, ◌++◌, length, arith}
use oc.Base.Exec.{ok, throw}
use oc.Database.Statements.{QueryResult, AuditEventRow, ProtectionInsert}
use oc.Sql.Schema.{Server, Session, Tables}
use oc.Sql.Policy.{Dialect}
use oc.Sql.Run.{Moment}
use oc.Sql.Rows.{new_admin, tenant_admin_role_rows}
use oc.Sql.Execute.{
  run_insert_company, run_insert_admin, run_insert_tenant_admin_role, run_insert_audit_event,
  run_insert_protection, run_update_bootstrap, update_target,
}

abbrev pub with_company : Moment → String → Tables → Tables
with_company m name t = record t {
  companies = record { id = m.fresh_id; name = name } ∷ t.companies;
}

abbrev pub with_admin : Moment → String → String → Tables → Tables
with_admin m company_id email t = record t { users = new_admin m company_id email ∷ t.users }

abbrev pub with_tenant_admin : String → String → Tables → Tables
with_tenant_admin user_id company_id t = record t {
  user_roles = tenant_admin_role_rows user_id company_id t.roles ++ t.user_roles;
}

abbrev pub with_protection : Moment → ProtectionInsert → Tables → Tables
with_protection m p t = record t {
  ip_protection_events =
      record {
        source_ip = p.source_ip;
        reason = p.reason;
        denied_attempt_count = p.denied_attempt_count;
        window_seconds = p.window_seconds;
        blocked_until = m.now + p.block_seconds;
      }
      ∷ t.ip_protection_events;
}

abbrev pub with_update : Dialect → Moment → Session → String → Tables → Tables
with_update dialect m session user_id t = record t {
  users = map (update_target dialect m.now session user_id) t.users;
}

abbrev pub with_audit_event : Moment → AuditEventRow → Tables → Tables
with_audit_event m e t = record t {
  audit_events = record { event = e; created_at = m.now } ∷ t.audit_events;
}

module _ (dialect : Dialect) (s s' : Server) where
  pub insert_company_effect :
      (m : Moment) (name : String) (r : QueryResult String)
      → run_insert_company dialect m name s ≡ (ok r, s')
      → (r.rows ≡ m.fresh_id ∷ []) × (s' ≡ record s { tables = with_company m name s.tables })
  unfolding run_insert_company throw
  insert_company_effect m name r h = ground arith

  pub insert_admin_effect :
      (m : Moment) (company_id email : String) (r : QueryResult String)
      → run_insert_admin dialect m company_id email s ≡ (ok r, s')
      → (r.rows ≡ m.fresh_id ∷ [])
        × (s' ≡ record s { tables = with_admin m company_id email s.tables })
  unfolding run_insert_admin throw
  insert_admin_effect m company_id email r h = ground arith

  pub insert_tenant_admin_role_effect :
      (user_id company_id : String) (r : QueryResult (Unit {0}))
      → run_insert_tenant_admin_role dialect user_id company_id s ≡ (ok r, s')
      → (r.rows_affected ≡ some (length (tenant_admin_role_rows user_id company_id s.tables.roles)))
        × (s' ≡ record s { tables = with_tenant_admin user_id company_id s.tables })
  unfolding run_insert_tenant_admin_role throw
  insert_tenant_admin_role_effect user_id company_id r h = ground arith

  pub insert_audit_event_effect :
      (m : Moment) (e : AuditEventRow) (r : QueryResult (Unit {0}))
      → run_insert_audit_event dialect m e s ≡ (ok r, s')
      → s' ≡ record s { tables = with_audit_event m e s.tables }
  unfolding run_insert_audit_event throw
  insert_audit_event_effect m e r h = ground arith

  pub insert_protection_effect :
      (m : Moment) (p : ProtectionInsert) (r : QueryResult (Unit {0}))
      → run_insert_protection dialect m p s ≡ (ok r, s')
      → s' ≡ record s { tables = with_protection m p s.tables }
  unfolding run_insert_protection throw
  insert_protection_effect m p r h = ground arith

  pub update_bootstrap_effect :
      (m : Moment) (user_id : String) (r : QueryResult (Unit {0}))
      → run_update_bootstrap dialect m user_id s ≡ (ok r, s')
      → s' ≡ record s { tables = with_update dialect m s.session user_id s.tables }
  unfolding run_update_bootstrap throw
  update_bootstrap_effect m user_id r h = ground arith

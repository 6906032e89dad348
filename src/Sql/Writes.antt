-- ===== src/Sql/Writes.antt =====
-- All that a statement of the API can do to the tables.
pub mod Guards
use oc.Base.{◌<◌, String, true, false, ◌≡◌, refl, ap, sym, ◌∙◌, inl, inr, ◌==◌, ◌||◌}
use oc.Base.Exec.{ok}
use oc.Database.Statements.{
  Statement, Row, QueryResult, AuditEventRow, ProtectionInsert, set_company_id, set_user_role,
  set_global_principal_login, select_one, select_global_user, select_bootstrap, update_bootstrap,
  insert_company, insert_admin, insert_tenant_admin_role, insert_audit_event, count_denied,
  insert_protection, select_blocked, select_history,
}
use oc.Sql.Schema.{Company, User, Tables, Server, Session}
use oc.Sql.Policy.{Dialect}
use oc.Sql.Run.{Moment, exists}
use oc.Sql.Rows.{company_exists, user_exists, null_or, has_conflict, tenant_admin_role_rows}
use oc.Sql.Execute.{
  execute, run_select_global_user, run_select_bootstrap, run_count_denied, run_select_blocked,
  run_select_history, run_insert_tenant_admin_role,
}
use oc.Sql.Effects.{
  with_company, with_admin, with_tenant_admin, with_audit_event, with_protection, with_update,
  insert_company_effect, insert_admin_effect, insert_tenant_admin_role_effect,
  insert_audit_event_effect, insert_protection_effect, update_bootstrap_effect,
}
use oc.Sql.Writes.Guards.{
  insert_company_guard, insert_admin_guard, assign_rows_guard, insert_audit_event_guard,
  insert_protection_guard,
}

-- The new tables, and what the constraints have checked of the old ones
pub data Writes (dialect : Dialect) (m : Moment) (t t' : Tables) : Type 0 where
  nothing : t' ≡ t → Writes dialect m t t'
  company :
      (name : String)
      → exists (λ (c : Company). dialect.same_text c.name name || c.id == m.fresh_id) t.companies
        ≡ false
      → t' ≡ with_company m name t
      → Writes dialect m t t'
  admin :
      (company_id email : String)
      → company_exists t company_id ≡ true
      → exists (λ (u : User). dialect.same_text u.email email || u.id == m.fresh_id) t.users ≡ false
      → t' ≡ with_admin m company_id email t
      → Writes dialect m t t'
  roles :
      (user_id company_id : String)
      → user_exists t user_id ≡ true
      → company_exists t company_id ≡ true
      → has_conflict t.user_roles (tenant_admin_role_rows user_id company_id t.roles) ≡ false
      → t' ≡ with_tenant_admin user_id company_id t
      → Writes dialect m t t'
  audit_event :
      (e : AuditEventRow)
      → (null_or (company_exists t) e.company_id ≡ true)
        × (null_or (user_exists t) e.actor_user_id ≡ true)
      → t' ≡ with_audit_event m e t
      → Writes dialect m t t'
  protection :
      (p : ProtectionInsert)
      → (0 < p.denied_attempt_count) × (0 < p.window_seconds)
      → t' ≡ with_protection m p t
      → Writes dialect m t t'
  bootstrap :
      (session : Session) (user_id : String)
      → t' ≡ with_update dialect m session user_id t
      → Writes dialect m t t'

module _ (dialect : Dialect) (m : Moment) (s s' : Server) where
  tables_of : {t : Tables} → s' ≡ record s { tables = t } → s'.tables ≡ t
  tables_of e = ap (λ (x : Server). x.tables) e

  roles_written :
      (user_id company_id : String) (r : QueryResult (Unit {0}))
      → run_insert_tenant_admin_role dialect user_id company_id s ≡ (ok r, s')
      → Writes dialect m s.tables s'.tables
  unfolding run_insert_tenant_admin_role
  roles_written user_id company_id r h =
      let rows = tenant_admin_role_rows user_id company_id s.tables.roles in
      let e = tables_of (insert_tenant_admin_role_effect dialect s s' user_id company_id r h).1 in
      elim (assign_rows_guard dialect s s' user_id company_id rows r h) [
        | inl none_new ↦ nothing (e ∙ rw none_new refl)
        | inr (user, company_known, free) ↦ roles user_id company_id user company_known free e
      ]

  pub execute-Writes :
      (q : Statement) (r : QueryResult (Row q))
      → execute dialect m q s ≡ (ok r, s')
      → Writes dialect m s.tables s'.tables
  unfolding execute run_select_global_user run_select_bootstrap run_count_denied run_select_blocked
      run_select_history
  execute-Writes (set_company_id v) r h = nothing (ap (λ o. o.1.tables) (sym h))
  execute-Writes (set_user_role v) r h = nothing (ap (λ o. o.1.tables) (sym h))
  execute-Writes (set_global_principal_login v) r h = nothing (ap (λ o. o.1.tables) (sym h))
  execute-Writes select_one r h = nothing (ap (λ o. o.1.tables) (sym h))
  execute-Writes (select_global_user u) r h = nothing (ap (λ o. o.1.tables) (sym h))
  execute-Writes (select_bootstrap u) r h = nothing (ap (λ o. o.1.tables) (sym h))
  execute-Writes (count_denied ip window) r h = nothing (ap (λ o. o.1.tables) (sym h))
  execute-Writes (select_blocked ip) r h = nothing (ap (λ o. o.1.tables) (sym h))
  execute-Writes (select_history ip) r h = nothing (ap (λ o. o.1.tables) (sym h))
  execute-Writes (update_bootstrap user_id) r h =
      bootstrap s.session user_id (tables_of (update_bootstrap_effect dialect s s' m user_id r h))
  execute-Writes (insert_company name) r h =
      company name (insert_company_guard dialect s s' m name r h)
        (tables_of (insert_company_effect dialect s s' m name r h).1)
  execute-Writes (insert_admin company_id email) r h =
      let (known, free) = insert_admin_guard dialect s s' m company_id email r h in
      admin company_id email known free
        (tables_of (insert_admin_effect dialect s s' m company_id email r h).1)
  execute-Writes (insert_tenant_admin_role user_id company_id) r h =
      roles_written user_id company_id r h
  execute-Writes (insert_audit_event e) r h =
      audit_event e (insert_audit_event_guard dialect s s' m e r h)
        (tables_of (insert_audit_event_effect dialect s s' m e r h))
  execute-Writes (insert_protection p) r h =
      protection p (insert_protection_guard dialect s s' m p r h)
        (tables_of (insert_protection_effect dialect s s' m p r h))

-- a predicate on the tables that every statement keeps, if it runs
abbrev pub Kept : Dialect → (Tables → Type 0) → Type 0
Kept dialect P = (m : Moment) (t t' : Tables) → Writes dialect m t t' → P t → P t'

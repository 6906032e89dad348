-- ===== src/Sql/Execute.antt =====
-- What each statement does on a connection: the SQL texts of apps/api/src, under the constraints of
-- 001_core.sql and the policy of 002_rls.sql. A statement that fails changes nothing.
use oc.Base.{ℕ, ◌+◌, String, some, Bool, List, [], ◌∷◌, ◌++◌}
use oc.Base.{map, not, is_some, ◌&&◌, ◌||◌, ◌==◌, ltb, leb, length, if◌then◌else◌}
use oc.Base.Exec.{Exec, ok}
use oc.Database.Statements.{
  Statement, Row, QueryResult, AuditEventRow, ProtectionInsert, GlobalUserCredentialRow,
  ProtectionRow, set_company_id, set_user_role, set_global_principal_login, select_one,
  select_global_user, select_bootstrap, update_bootstrap, insert_company, insert_admin,
  insert_tenant_admin_role, insert_audit_event, count_denied, insert_protection, select_blocked,
  select_history,
}
use oc.Sql.Schema.{Company, Role, User, UserRole, AuditEvent, Tables, Session, Server}
use oc.Sql.Policy.{Dialect, tenant_predicate, tenant_or_global_principal_filter}
use oc.Sql.Run.{Moment, select, exists, take, done, latest_first}
use oc.Sql.Rows.{
  commit_rows, company_exists, credential_user_roles, has_conflict, is_recent_denial,
  is_unused_bootstrap, fits, new_admin, null_or, refuse, set_session, tenant_admin_role_rows,
  use_bootstrap, user_exists,
}

module _ (dialect : Dialect) where
  -- FILTER PREDICATE on dbo.users and dbo.user_roles
  unfoldable pub visible_users : Session → Tables → List User
  visible_users s t = select (λ u. tenant_or_global_principal_filter dialect s u.company_id) t.users

  unfoldable pub visible_user_roles : Session → Tables → List UserRole
  visible_user_roles s t =
      select (λ r. tenant_or_global_principal_filter dialect s r.company_id) t.user_roles

  -- FILTER PREDICATE on dbo.audit_events
  unfoldable pub visible_audit_events : Session → Tables → List AuditEvent
  visible_audit_events s t =
      select (λ e. tenant_predicate dialect s e.event.company_id) t.audit_events

  -- the conditions of its WHERE clause on the user
  abbrev pub is_login_candidate : String → User → Bool
  is_login_candidate username u =
      dialect.lower u.email == dialect.lower username
      && u.is_global_admin
      && is_some u.password_hash
      && not u.force_credential_rotation

  unfoldable pub credential_rows :
      String → List User → List UserRole → List Role → List GlobalUserCredentialRow
  credential_rows username [] urs roles = []
  credential_rows username (u ∷ us) urs roles =
      let rest = credential_rows username us urs roles in
      if is_login_candidate username u then credential_user_roles u urs roles ++ rest else rest

  abbrev pub is_target : Session → String → User → Bool
  is_target s user_id u =
      tenant_or_global_principal_filter dialect s u.company_id && u.id == user_id

  unfoldable pub update_target : ℕ → Session → String → User → User
  update_target now s user_id u = if is_target s user_id u then use_bootstrap now u else u

  unfoldable pub run_insert_company : Moment → String → Exec Server (QueryResult String)
  run_insert_company m name s =
      if tenant_predicate dialect s.session (some m.fresh_id)
        && fits 255 name
        && not (
            exists (λ (c : Company). dialect.same_text c.name name || c.id == m.fresh_id)
              s.tables.companies)
      then commit_rows
          (record s.tables {
            companies = record { id = m.fresh_id; name = name } ∷ s.tables.companies;
          })
          (m.fresh_id ∷ []) 1 s
      else refuse s

  unfoldable pub run_insert_admin : Moment → String → String → Exec Server (QueryResult String)
  run_insert_admin m company_id email s =
      if dialect.is_uniqueidentifier company_id
        && tenant_predicate dialect s.session (some company_id)
        && company_exists s.tables company_id
        && fits 320 email
        && not (
            exists (λ (u : User). dialect.same_text u.email email || u.id == m.fresh_id)
              s.tables.users)
      then commit_rows (record s.tables { users = new_admin m company_id email ∷ s.tables.users })
          (m.fresh_id ∷ []) 1 s
      else refuse s

  abbrev pub assign_rows : String → String → List UserRole → Exec Server (QueryResult (Unit {0}))
  assign_rows user_id company_id [] s = (ok (done [] 0), s)
  assign_rows user_id company_id (r ∷ rs) s =
      if dialect.is_uniqueidentifier user_id
        && dialect.is_uniqueidentifier company_id
        && tenant_predicate dialect s.session (some company_id)
        && user_exists s.tables user_id
        && company_exists s.tables company_id
        && not (has_conflict s.tables.user_roles (r ∷ rs))
      then commit_rows (record s.tables { user_roles = (r ∷ rs) ++ s.tables.user_roles }) []
          (length (r ∷ rs)) s
      else refuse s

  unfoldable pub run_insert_tenant_admin_role :
      String → String → Exec Server (QueryResult (Unit {0}))
  run_insert_tenant_admin_role user_id company_id s =
      assign_rows user_id company_id (tenant_admin_role_rows user_id company_id s.tables.roles) s

  unfoldable pub run_insert_audit_event :
      Moment → AuditEventRow → Exec Server (QueryResult (Unit {0}))
  run_insert_audit_event m e s =
      if null_or dialect.is_uniqueidentifier e.company_id
        && null_or dialect.is_uniqueidentifier e.actor_user_id
        && null_or dialect.is_uniqueidentifier e.target_id
        && tenant_predicate dialect s.session e.company_id
        && null_or (company_exists s.tables) e.company_id
        && null_or (user_exists s.tables) e.actor_user_id
        && null_or (fits 45) e.source_ip
        && fits 80 e.event_type
        && null_or (fits 80) e.target_type
        && fits 255 e.reason
      then commit_rows
          (record s.tables {
            audit_events = record { event = e; created_at = m.now } ∷ s.tables.audit_events;
          })
          [] 1 s
      else refuse s

  -- the UPDATE sees the rows of the filter; the block predicate then holds each changed row
  unfoldable pub run_update_bootstrap : Moment → String → Exec Server (QueryResult (Unit {0}))
  run_update_bootstrap m user_id s =
      let targets = select (is_target s.session user_id) s.tables.users in
      if exists (λ (u : User). not (tenant_predicate dialect s.session u.company_id)) targets
      then refuse s
      else commit_rows
          (record s.tables { users = map (update_target m.now s.session user_id) s.tables.users })
          [] (length targets) s

  -- TOP (1)
  unfoldable pub run_select_bootstrap : String → Exec Server (QueryResult String)
  run_select_bootstrap hash s =
      let found = take 1 (
        map (λ (u : User). u.id)
          (select (is_unused_bootstrap hash) (visible_users s.session s.tables))) in
      commit_rows s.tables found (length found) s

  unfoldable pub run_select_global_user : String → Exec Server (QueryResult GlobalUserCredentialRow)
  run_select_global_user username s =
      let rows =
        credential_rows username (visible_users s.session s.tables)
          (visible_user_roles s.session s.tables) s.tables.roles in
      commit_rows s.tables rows (length rows) s

  unfoldable pub run_count_denied : Moment → String → ℕ → Exec Server (QueryResult ℕ)
  run_count_denied m ip window s =
      let n =
        length
          (select (is_recent_denial m.now ip window) (visible_audit_events s.session s.tables)) in
      commit_rows s.tables (n ∷ []) 1 s

  -- dbo.ip_protection_events is under no policy; CK_ip_protection_events_counts
  unfoldable pub run_insert_protection :
      Moment → ProtectionInsert → Exec Server (QueryResult (Unit {0}))
  run_insert_protection m p s =
      if ltb 0 p.denied_attempt_count
        && ltb 0 p.window_seconds
        && fits 45 p.source_ip
        && fits 255 p.reason
      then commit_rows
          (record s.tables {
            ip_protection_events =
                record {
                  source_ip = p.source_ip;
                  reason = p.reason;
                  denied_attempt_count = p.denied_attempt_count;
                  window_seconds = p.window_seconds;
                  blocked_until = m.now + p.block_seconds;
                }
                ∷ s.tables.ip_protection_events;
          })
          [] 1 s
      else refuse s

  unfoldable pub run_select_blocked : Moment → String → Exec Server (QueryResult ℕ)
  run_select_blocked m ip s =
      let found = take 1 (
        map (λ (e : ProtectionRow). e.blocked_until)
          (latest_first (
            select (λ (e : ProtectionRow). e.source_ip == ip && leb m.now e.blocked_until)
              s.tables.ip_protection_events))) in
      commit_rows s.tables found (length found) s

  unfoldable pub run_select_history : String → Exec Server (QueryResult ProtectionRow)
  run_select_history ip s =
      let found = take 50 (
        latest_first
          (select (λ (e : ProtectionRow). e.source_ip == ip) s.tables.ip_protection_events)) in
      commit_rows s.tables found (length found) s

  unfoldable pub execute : Moment → (q : Statement) → Exec Server (QueryResult (Row q))
  execute m (set_company_id v) s = set_session (record s.session { company_id = v }) s
  execute m (set_user_role v) s = set_session (record s.session { user_role = v }) s
  execute m (set_global_principal_login v) s =
      set_session (record s.session { global_principal_login = v }) s
  execute m select_one s = (ok (done (tt ∷ []) 1), s)
  execute m (select_global_user username) s = run_select_global_user username s
  execute m (select_bootstrap hash) s = run_select_bootstrap hash s
  execute m (update_bootstrap user_id) s = run_update_bootstrap m user_id s
  execute m (insert_company name) s = run_insert_company m name s
  execute m (insert_admin company_id email) s = run_insert_admin m company_id email s
  execute m (insert_tenant_admin_role user_id company_id) s =
      run_insert_tenant_admin_role user_id company_id s
  execute m (insert_audit_event e) s = run_insert_audit_event m e s
  execute m (count_denied ip window) s = run_count_denied m ip window s
  execute m (insert_protection p) s = run_insert_protection m p s
  execute m (select_blocked ip) s = run_select_blocked m ip s
  execute m (select_history ip) s = run_select_history ip s

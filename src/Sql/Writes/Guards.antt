-- ===== src/Sql/Writes/Guards.antt =====
-- What the constraints have checked when a statement of the API has run.
use oc.Base.{◌<◌, ◌⊎◌, inl, String, true, false, List, ◌≡◌, refl, arith, ◌==◌, ◌||◌, [], ◌∷◌}
use oc.Base.Exec.{ok, throw}
use oc.Database.Statements.{QueryResult, AuditEventRow, ProtectionInsert}
use oc.Sql.Schema.{Company, User, UserRole, Server}
use oc.Sql.Policy.{Dialect}
use oc.Sql.Run.{Moment, exists}
use oc.Sql.Rows.{company_exists, user_exists, null_or, has_conflict}
use oc.Sql.Execute.{
  run_insert_company, run_insert_admin, run_insert_audit_event, run_insert_protection, assign_rows,
}

module _ (dialect : Dialect) (s s' : Server) where
  pub insert_company_guard :
      (m : Moment) (name : String) (r : QueryResult String)
      → run_insert_company dialect m name s ≡ (ok r, s')
      → exists
          (λ (c : Company). dialect.same_text c.name name || c.id == m.fresh_id)
          s.tables.companies
        ≡ false
  unfolding run_insert_company throw
  insert_company_guard m name r h = ground arith

  pub insert_admin_guard :
      (m : Moment) (company_id email : String) (r : QueryResult String)
      → run_insert_admin dialect m company_id email s ≡ (ok r, s')
      → (company_exists s.tables company_id ≡ true)
        × (exists
              (λ (u : User). dialect.same_text u.email email || u.id == m.fresh_id)
              s.tables.users
            ≡ false)
  unfolding run_insert_admin throw
  insert_admin_guard m company_id email r h = ground arith

  -- nothing is checked of no rows
  pub assign_rows_guard :
      (user_id company_id : String) (rows : List UserRole) (r : QueryResult (Unit {0}))
      → assign_rows dialect user_id company_id rows s ≡ (ok r, s')
      → (rows ≡ [])
        ⊎ ((user_exists s.tables user_id ≡ true)
            × (company_exists s.tables company_id ≡ true)
            × (has_conflict s.tables.user_roles rows ≡ false))
  unfolding throw
  assign_rows_guard user_id company_id [] r h = inl refl
  assign_rows_guard user_id company_id (x ∷ xs) r h = ground arith

  pub insert_audit_event_guard :
      (m : Moment) (e : AuditEventRow) (r : QueryResult (Unit {0}))
      → run_insert_audit_event dialect m e s ≡ (ok r, s')
      → (null_or (company_exists s.tables) e.company_id ≡ true)
        × (null_or (user_exists s.tables) e.actor_user_id ≡ true)
  unfolding run_insert_audit_event throw
  insert_audit_event_guard m e r h = ground arith

  pub insert_protection_guard :
      (m : Moment) (p : ProtectionInsert) (r : QueryResult (Unit {0}))
      → run_insert_protection dialect m p s ≡ (ok r, s')
      → (0 < p.denied_attempt_count) × (0 < p.window_seconds)
  unfolding run_insert_protection throw
  insert_protection_guard m p r h = ground arith

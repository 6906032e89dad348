-- ===== src/Companies/Keeps.antt =====
-- companies.service.ts: a provisioning keeps what its executor's statements keep.
use oc.Base.{ℕ, String, Option, none, some, first, ltb, coalesce}
use oc.Base.Text.{truthy}
use oc.Base.Exec.{lift, throw}
use oc.Base.Exec.Keeping.{
  Keeping, Returning, Keeping-bind, Keeping-if, Returning-bind, Returning-if, Returning-pure,
  Returning-throw,
}
use oc.Contracts.{AuthContext, CreateCompanyRequest}
use oc.Database.{SqlDriver, QueryExecutor, transaction, apply_session_context, session_role}
use oc.Database.Statements.{
  Statement, set_company_id, set_user_role, insert_company, insert_admin, insert_tenant_admin_role,
  insert_audit_event,
}
use oc.Audit.{record_event, audit_row}
use oc.Companies.{
  provision, provisioned, provisioning_event, require_id, require_assigned, create_as,
  create_company,
}

module _ {W : Type 0} (Q : W → Type 0) where
  require_id-Returning : (o : Option String) (m : String) → Returning Q (require_id o m)
  require_id-Returning none m = Returning-throw Q _
  require_id-Returning (some id) m =
      Returning-if Q (truthy id) _ _ (Returning-pure Q _) (Returning-throw Q _)

  require_assigned-Returning : (o : Option ℕ) → Returning Q (require_assigned o)
  require_assigned-Returning o =
      Returning-if Q (ltb (coalesce o 0) 1) _ _ (Returning-throw Q _) (Returning-pure Q tt)

  pub provision-Returning :
      (tx : QueryExecutor W)
      → ((q : Statement) → Returning Q (tx.query q))
      → (actor : AuthContext) (request : CreateCompanyRequest)
      → Returning Q (provision actor request tx)
  unfolding provision apply_session_context record_event
  provision-Returning tx q actor request =
      Returning-bind Q _ _
        (Returning-bind Q _ _ (q (set_company_id actor.company_id)) λ _.
          Returning-bind Q _ _ (q (set_user_role (session_role actor))) λ _. Returning-pure Q tt)
        λ _. Returning-bind Q _ _ (q (insert_company request.company_name)) λ company.
          Returning-bind Q _ _ (require_id-Returning (first company.rows) _) λ company_id.
            Returning-bind Q _ _ (q (insert_admin company_id request.admin_email)) λ admin.
              Returning-bind Q _ _ (require_id-Returning (first admin.rows) _) λ admin_id.
                Returning-bind Q _ _ (q (insert_tenant_admin_role admin_id company_id)) λ assigned.
                  Returning-bind Q _ _ (require_assigned-Returning assigned.rows_affected) λ _.
                    Returning-bind Q _ _
                      (Returning-bind Q _ _
                        (q (
                          insert_audit_event
                            (audit_row (provisioning_event actor company_id admin_id))))
                        λ _. Returning-pure Q tt)
                      λ _. Returning-pure Q (provisioned company_id admin_id)

  pub create_company-Keeping :
      (driver : SqlDriver W) (request : CreateCompanyRequest)
      → ((actor : AuthContext) → Keeping Q (transaction driver (provision actor request)))
      → (store : Option AuthContext) → Keeping Q (create_company driver store request)
  unfolding create_company create_as lift throw
  create_company-Keeping driver request k store =
      Keeping-bind Q _ _ (λ w h. h)
        λ actor. Keeping-if Q actor.is_super_admin _ _ (k actor) (λ w h. h)

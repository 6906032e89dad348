-- ===== src/Companies.antt =====
-- apps/api/src/companies: the provisioning service and its controller's route.
pub mod Steps
pub mod Keeps
pub mod Admissible
pub mod Returns
pub mod Completes
pub mod Expected
pub mod Provisioning
pub mod Authority
pub mod Refines
use oc.Base.{ℕ, String, Option, none, some, true, [], ◌∷◌, ltb, first}
use oc.Base.{coalesce, if◌then◌else◌}
use oc.Base.Text.{truthy}
use oc.Base.Exec.{Exec, forbidden, internal, pure, throw, lift, ◌>>=◌, ◌>>◌}
use oc.Contracts.{
  AuthContext, AuditEventInput, CreateCompanyRequest, CreateCompanyResponse, one_time_token,
}
use oc.Database.{QueryExecutor, SqlDriver, transaction, apply_session_context}
use oc.Database.Statements.{insert_company, insert_admin, insert_tenant_admin_role}
use oc.Audit.{record_event}
use oc.Tenant.Context.{get_required}

abbrev pub provisioning_event : AuthContext → String → String → AuditEventInput
provisioning_event actor company_id admin_user_id = record {
  company_id = none;
  actor_user_id = some actor.user_id;
  source_ip = none;
  event_type = "company_provisioned";
  target_type = some "company";
  target_id = some company_id;
  reason = "super_admin_provisioning";
  metadata = some (("adminUserId", admin_user_id) ∷ []);
}

abbrev pub provisioned : String → String → CreateCompanyResponse
provisioned company_id admin_user_id = record {
  company_id = company_id;
  admin_user_id = admin_user_id;
  bootstrap_access_mode = one_time_token;
  force_rotate_on_first_use = true;
}

module _ {W : Type 0} where
  -- `rows[0]?.id`, where a missing or empty id throws
  abbrev require_id : Option String → String → Exec W String
  require_id none message = throw (internal message)
  require_id (some id) message = if truthy id then pure id else throw (internal message)

  abbrev pub require_assigned : Option ℕ → Exec W (Unit {0})
  require_assigned rows_affected =
      if ltb (coalesce rows_affected 0) 1
      then throw (internal "Company provisioning could not assign tenant_admin role.")
      else pure tt

  -- the callback that `createCompany` hands to `transaction`
  unfoldable pub provision :
      AuthContext → CreateCompanyRequest → QueryExecutor W → Exec W CreateCompanyResponse
  provision actor request tx = do
    apply_session_context actor tx
    company ← tx.query (insert_company request.company_name)
    company_id ← require_id (first company.rows) "Company provisioning did not return a company id."
    admin ← tx.query (insert_admin company_id request.admin_email)
    admin_user_id ←
        require_id (first admin.rows) "Company provisioning did not return an admin user id."
    role_assignment ← tx.query (insert_tenant_admin_role admin_user_id company_id)
    require_assigned role_assignment.rows_affected
    record_event (provisioning_event actor company_id admin_user_id) tx
    pure (provisioned company_id admin_user_id)

  -- what follows `getRequired`
  unfoldable pub create_as :
      SqlDriver W → CreateCompanyRequest → AuthContext → Exec W CreateCompanyResponse
  create_as driver request actor =
      if actor.is_super_admin
      then transaction driver (provision actor request)
      else throw (forbidden "Only super_admin can provision companies.")

  unfoldable pub create_company :
      SqlDriver W → Option AuthContext → CreateCompanyRequest → Exec W CreateCompanyResponse
  unfolding create_as
  create_company driver store request = lift (get_required store) >>= create_as driver request

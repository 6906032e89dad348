-- ===== src/TenantAccess.antt =====
-- apps/api/src/tenant-access: the service and its controller's route.
pub mod Decision
pub mod Unrecorded
pub mod Keeps
use oc.Base.{String, Option, none, some, Bool, false, if◌then◌else◌}
use oc.Base.{◌∷◌, []}
use oc.Base.Text.{truthy}
use oc.Base.Exec.{
  Exec, Failure, forbidden, too_many_requests, pure, throw, lift, try_catch, best_effort, ◌>>=◌,
  ◌>>◌,
}
use oc.Contracts.{AuthContext, AuditEventInput}
use oc.Database.{QueryExecutor}
use oc.Rbac.{assert_tenant_permission, admin}
use oc.Audit.{record_event}
use oc.Audit.Enumeration.{EnumerationPolicy, record_denied_lookup, is_blocked}
use oc.Tenant.Context.{get_required}

-- `TenantAccessResponse`; the field `access` is always "granted".
pub record TenantAccessResponse : Type 0 where
  pub company_id : String
  pub access : String

abbrev pub granted : String → TenantAccessResponse
granted company_id = record { company_id = company_id; access = "granted" }

abbrev pub blocked_failure : Failure
blocked_failure = too_many_requests "Access temporarily blocked after repeated cross-tenant probes."

-- the audit event of `recordCrossTenantDenial`
abbrev pub denial_event : AuthContext → String → AuditEventInput
denial_event actor target_company_id = record {
  company_id = actor.company_id;
  actor_user_id = some actor.user_id;
  source_ip = actor.source_ip;
  event_type = "cross_tenant_denied";
  target_type = some "company";
  target_id = some target_company_id;
  reason = "scope_mismatch";
  metadata = some (("attemptedPermission", "tenant:admin") ∷ []);
}

-- The services of the component query through `database`, the DatabaseService itself: each of their
-- statements is a transaction of its own.
module _ {W : Type 0} (database : QueryExecutor W) (policy : EnumerationPolicy) where
  -- `isSourceBlocked`
  unfoldable pub is_source_blocked : String → Exec W Bool
  is_source_blocked source_ip = try_catch (is_blocked source_ip database) (λ _. pure false)

  -- the part of `recordCrossTenantDenial` behind the audit record
  unfoldable pub count_denial : Option String → Exec W (Unit {0})
  count_denial none = pure tt
  count_denial (some source_ip) =
      if truthy source_ip
      then best_effort (do record_denied_lookup policy source_ip database; pure tt)
      else pure tt

  unfoldable pub record_cross_tenant_denial : AuthContext → String → Exec W (Unit {0})
  unfolding count_denial
  record_cross_tenant_denial actor target_company_id = do
    best_effort (record_event (denial_event actor target_company_id) database)
    count_denial actor.source_ip

  -- the catch block of `getTenantAdminAccess`
  unfoldable pub on_denial : AuthContext → String → Failure → Exec W (Unit {0})
  on_denial actor company_id (forbidden m) = do
    record_cross_tenant_denial actor company_id
    throw (forbidden m)
  on_denial actor company_id e = throw e

  -- `actor.sourceIp && (await this.isSourceBlocked(actor.sourceIp))`
  unfoldable pub source_is_blocked : Option String → Exec W Bool
  source_is_blocked none = pure false
  source_is_blocked (some source_ip) =
      if truthy source_ip then is_source_blocked source_ip else pure false

  -- what follows the test of the source
  unfoldable pub check_permission : AuthContext → String → Exec W TenantAccessResponse
  unfolding on_denial
  check_permission actor company_id = do
    try_catch (lift (assert_tenant_permission actor company_id admin)) (on_denial actor company_id)
    pure (granted company_id)

  unfoldable pub get_tenant_admin_access : Option AuthContext → String → Exec W TenantAccessResponse
  unfolding source_is_blocked check_permission
  get_tenant_admin_access store company_id = do
    actor ← lift (get_required store)
    blocked ← source_is_blocked actor.source_ip
    if blocked then throw blocked_failure else check_permission actor company_id

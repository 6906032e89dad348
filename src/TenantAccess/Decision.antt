-- ===== src/TenantAccess/Decision.antt =====
-- tenant-access.service.ts: the answer depends on the block and on the permission alone, whatever
-- happens to the audit record and to the count.
use oc.Base.{String, Option, none, some, Bool, true, false, ◌≡◌, refl, if◌then◌else◌}
use oc.Base.Text.{truthy}
use oc.Base.Exec.{
  Result, Failure, ok, err, forbidden, too_many_requests, throw, try_catch, ◌>>=◌, continue,
  recover,
}
use oc.Base.Exec.Quiet.{
  Quiet, Quiet-pure, Quiet-if, Quiet-catch, Quiet-bind, Quiet-best_effort, bind-outcome,
}
use oc.Contracts.{AuthContext}
use oc.Database.{QueryExecutor}
use oc.Rbac.{assert_tenant_permission, admin}
use oc.Audit.Enumeration.{EnumerationPolicy}
use oc.Tenant.Context.{get_required}
use oc.TenantAccess.{
  TenantAccessResponse, granted, blocked_failure, record_cross_tenant_denial, count_denial,
  get_tenant_admin_access, source_is_blocked, is_source_blocked, check_permission, on_denial,
}

-- the answer to the verdict on the permission
abbrev pub outcome : String → Result (Unit {0}) → Result TenantAccessResponse
outcome company_id (ok _) = ok (record { company_id = company_id; access = "granted" })
outcome company_id (err e) = err e

module _ {W : Type 0} (database : QueryExecutor W) (policy : EnumerationPolicy) where
  count_denial-Quiet : (o : Option String) → Quiet (count_denial database policy o)
  unfolding count_denial
  count_denial-Quiet none = Quiet-pure tt
  count_denial-Quiet (some ip) = Quiet-if (truthy ip) _ _ (Quiet-best_effort _) (Quiet-pure tt)

  record_cross_tenant_denial-Quiet :
      (actor : AuthContext) (target : String)
      → Quiet (record_cross_tenant_denial database policy actor target)
  unfolding record_cross_tenant_denial
  record_cross_tenant_denial-Quiet actor target =
      Quiet-bind _ _ (Quiet-best_effort _) (λ _. count_denial-Quiet actor.source_ip)

  source_is_blocked-Quiet : (o : Option String) → Quiet (source_is_blocked database policy o)
  unfolding source_is_blocked is_source_blocked
  source_is_blocked-Quiet none = Quiet-pure false
  source_is_blocked-Quiet (some ip) =
      Quiet-if (truthy ip) _ _ (Quiet-catch _ _ (λ _. Quiet-pure false)) (Quiet-pure false)

  on_denial_rethrows :
      (actor : AuthContext) (target : String) (e : Failure) (w : W)
      → (on_denial database policy actor target e w).0 ≡ err e
  unfolding on_denial throw
  on_denial_rethrows actor target (forbidden m) w =
      bind-outcome _ _ (err (forbidden m)) w (record_cross_tenant_denial-Quiet actor target)
        (λ v. refl)
  on_denial_rethrows actor target _ w = refl

  check_permission-outcome :
      (actor : AuthContext) (company_id : String) (w : W)
      → (check_permission database policy actor company_id w).0
        ≡ outcome company_id (assert_tenant_permission actor company_id admin)
  unfolding check_permission ◌>>=◌ try_catch
  check_permission-outcome actor company_id w = go (assert_tenant_permission actor company_id admin)
    where
      after :
          (r : Result (Unit {0})) (e : Failure) (v : W)
          → r ≡ err e
          → (continue r (λ _ u. (ok (granted company_id), u)) v).0 ≡ err e
      after (ok _) e v k = absurd (cc)
      after (err x) e v k = cc

      go :
          (r : Result (Unit {0}))
          → (let (q, v) = recover r (on_denial database policy actor company_id) w in
              continue q (λ _ u. (ok (granted company_id), u)) v).0
            ≡ outcome company_id r
      go (ok _) = refl
      go (err e) = after _ e _ (on_denial_rethrows actor company_id e w)

  -- The answer to a request for access under a context: 429 if the look-up, which never throws,
  -- finds the source blocked, else access or the denial that the permission check gives.
  pub get_tenant_admin_access-decision :
      (actor : AuthContext) (company_id : String) (w : W)
      → (blocked : Bool) × ((source_is_blocked database policy actor.source_ip w).0 ≡ ok blocked)
        × ((get_tenant_admin_access database policy (some actor) company_id w).0 ≡ (
            if blocked
            then err
                (too_many_requests "Access temporarily blocked after repeated cross-tenant probes.")
            else outcome company_id (assert_tenant_permission actor company_id admin)))
  unfolding get_tenant_admin_access get_required ◌>>=◌
  get_tenant_admin_access-decision actor company_id w =
      let (blocked, found) = (source_is_blocked-Quiet actor.source_ip).returns w in
      (blocked, found, go (source_is_blocked database policy actor.source_ip w).0 _ blocked found)
    where
      go :
          (r : Result Bool) (v : W) (b : Bool)
          → r ≡ ok b
          → (continue r
              (λ blocked.
                if blocked
                then throw blocked_failure
                else check_permission database policy actor company_id)
              v).0
            ≡ (if b
                then err blocked_failure
                else outcome company_id (assert_tenant_permission actor company_id admin))
      go (ok true) v true k = refl
      go (ok false) v false k = check_permission-outcome actor company_id v
      go (ok true) v false k = absurd (cc)
      go (ok false) v true k = absurd (cc)
      go (err e) v b k = absurd (cc)

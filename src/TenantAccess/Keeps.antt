-- ===== src/TenantAccess/Keeps.antt =====
-- tenant-access.service.ts: a request for access keeps what its executor's statements keep.
use oc.Base.{String, Option, none, some}
use oc.Base.Text.{truthy}
use oc.Base.Exec.{Failure, forbidden, pure, throw, lift}
use oc.Base.Exec.Keeping.{Keeping, Keeping-bind, Keeping-if, Keeping-catch, Keeping-best_effort}
use oc.Contracts.{AuthContext, AuditEventInput}
use oc.Database.{QueryExecutor}
use oc.Database.Statements.{Statement}
use oc.Audit.{record_event}
use oc.Audit.Enumeration.{EnumerationPolicy, record_denied_lookup, protect, is_blocked}
use oc.TenantAccess.{
  record_cross_tenant_denial, count_denial, get_tenant_admin_access, source_is_blocked,
  is_source_blocked, check_permission, on_denial,
}

module _ {W : Type 0} (Q : W → Type 0) (executor : QueryExecutor W)
    (q : (s : Statement) → Keeping Q (executor.query s)) (policy : EnumerationPolicy) where
  record_event-Keeping : (event : AuditEventInput) → Keeping Q (record_event event executor)
  unfolding record_event pure
  record_event-Keeping event = Keeping-bind Q _ _ (q _) (λ _ w h. h)

  record_denied_lookup-Keeping : (ip : String) → Keeping Q (record_denied_lookup policy ip executor)
  unfolding record_denied_lookup protect pure
  record_denied_lookup-Keeping ip =
      Keeping-bind Q _ _ (q _)
        λ r. Keeping-if Q _ _ _ (λ w h. h) (Keeping-bind Q _ _ (q _) (λ _ w h. h))

  count_denial-Keeping : (o : Option String) → Keeping Q (count_denial executor policy o)
  unfolding count_denial pure
  count_denial-Keeping none w h = h
  count_denial-Keeping (some ip) w h =
      Keeping-if Q (truthy ip) _ _
        (Keeping-best_effort Q _
          (Keeping-bind Q _ _ (record_denied_lookup-Keeping ip) (λ _ w h. h)))
        (λ w h. h) w h

  on_denial-Keeping :
      (actor : AuthContext) (target : String) (e : Failure)
      → Keeping Q (on_denial executor policy actor target e)
  unfolding on_denial record_cross_tenant_denial throw
  on_denial-Keeping actor target (forbidden m) w h =
      Keeping-bind Q _ _
        (Keeping-bind Q _ _ (Keeping-best_effort Q _ (record_event-Keeping _))
          (λ _. count_denial-Keeping actor.source_ip))
        (λ _ v k. k) w h
  on_denial-Keeping actor target _ w h = h

  source_is_blocked-Keeping : (o : Option String) → Keeping Q (source_is_blocked executor policy o)
  unfolding source_is_blocked is_source_blocked is_blocked pure
  source_is_blocked-Keeping none w h = h
  source_is_blocked-Keeping (some ip) w h =
      Keeping-if Q (truthy ip) _ _
        (Keeping-catch Q _ _ (Keeping-bind Q _ _ (q _) (λ _ w h. h)) (λ _ w h. h)) (λ w h. h) w h

  pub get_tenant_admin_access-Keeping :
      (store : Option AuthContext) (company_id : String)
      → Keeping Q (get_tenant_admin_access executor policy store company_id)
  unfolding get_tenant_admin_access check_permission throw lift pure
  get_tenant_admin_access-Keeping store company_id =
      Keeping-bind Q _ _ (λ w h. h)
        λ actor. Keeping-bind Q _ _ (source_is_blocked-Keeping actor.source_ip) λ blocked.
          Keeping-if Q blocked _ _ (λ w h. h)
            (Keeping-bind Q _ _
              (Keeping-catch Q _ _ (λ w h. h) (on_denial-Keeping actor company_id)) (λ _ w h. h))

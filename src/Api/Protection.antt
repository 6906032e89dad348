-- ===== src/Api/Protection.antt =====
-- A source under protection and the requests that come later.
use oc.Base.{◌≤◌, ℕ, String, Option, some, true, List, ◌≡◌, sym, ap, ◌∙◌, if◌then◌else◌}
use mathlib.Core.Path.{subst}
use oc.Base.Text.{truthy}
use oc.Base.Exec.{ok, err, pure, too_many_requests}
use oc.Base.Exec.Laws.{bind-ok, bind_failed, caught_ok, paired}
use oc.Contracts.{AuthContext}
use oc.Database.{SqlDriver, service_executor}
use oc.Database.Statements.{QueryResult, ProtectionRow, select_blocked}
use oc.Sql.Policy.{Dialect}
use oc.Sql.Driver.{RunsDirectly, RunsBoth}
use oc.Audit.Enumeration.{EnumerationPolicy, is_blocked}
use oc.Audit.Enumeration.Lasting.{Protected, Protected-Kept, is_blocked-Protected}
use oc.Auth.Jose.{Jose}
use oc.Auth.Keys.{KeyEnv}
use oc.Auth.App.{App, on_world}
use oc.Rbac.{assert_tenant_permission, admin}
use oc.Tenant.Context.{run}
use oc.Tenant.Middleware.{Request, in_context, resolve_source_ip, attach_context, serve}
use oc.Tenant.Middleware.Authority.{attach_context-total, attach_context-in_context}
use oc.TenantAccess.{blocked_failure, is_source_blocked, source_is_blocked, get_tenant_admin_access}
use oc.TenantAccess.Decision.{outcome, get_tenant_admin_access-decision}
use oc.Api.{Call, get_admin_access, tenant_admin_access, answer, respond, after}
use oc.Api.Keeps.{after-Keeping}

module _ {W : Type 0} {dialect : Dialect} {driver : SqlDriver W} (policy : EnumerationPolicy)
    (law : RunsDirectly dialect driver) (row : ProtectionRow) (w : W) (r : QueryResult ℕ)
    (filled : truthy row.source_ip ≡ true) (within : (law.moment w).now ≤ row.blocked_until)
    (runs : (driver.query (select_blocked row.source_ip) w).0 ≡ ok r) where
  source_found :
      Protected row (law.durable w)
      → (source_is_blocked (service_executor driver) policy (some row.source_ip) w).0 ≡ ok true
  unfolding source_is_blocked is_source_blocked
  source_found there = rw filled (
      caught_ok (is_blocked row.source_ip (service_executor driver)) _ w true
        (is_blocked-Protected law row w r there within runs))

  pub access_refused :
      (actor : AuthContext) (company_id : String)
      → Protected row (law.durable w)
      → actor.source_ip ≡ some row.source_ip
      → (get_tenant_admin_access (service_executor driver) policy (some actor) company_id w).0
        ≡ err blocked_failure
  access_refused actor company_id there from =
      let (blocked, looked_up, answered) =
        get_tenant_admin_access-decision (service_executor driver) policy actor company_id w in
      let found =
        ap (λ o. (source_is_blocked (service_executor driver) policy o w).0) from
        ∙ source_found there in
      let same : blocked ≡ true = cc in
      answered
      ∙ ap
          (λ b.
            if b
            then err blocked_failure
            else outcome company_id (assert_tenant_permission actor company_id admin))
          same

module _ {W PrivateKey PublicKey : Type 0} (sha256 : String → String)
    (jose : Jose PrivateKey PublicKey) (env : KeyEnv) (trust_proxy : Option String)
    (policy : EnumerationPolicy) {dialect : Dialect} {driver : SqlDriver W}
    (law : RunsBoth dialect driver) where
  abbrev State : Type 0
  State = App W PrivateKey PublicKey

  respond-refused :
      (row : ProtectionRow) (request : Request) (context : AuthContext) (company_id : String)
      (app : State) (r : QueryResult ℕ)
      → Protected row (law.directly.durable app.world)
      → truthy row.source_ip ≡ true
      → resolve_source_ip trust_proxy request ≡ some row.source_ip
      → (attach_context jose env trust_proxy request app).0 ≡ ok (in_context context)
      → (law.directly.moment app.world).now ≤ row.blocked_until
      → (driver.query (select_blocked row.source_ip) app.world).0 ≡ ok r
      → (respond sha256 jose env trust_proxy policy driver request
          (get_admin_access company_id)
          app).0
        ≡ err blocked_failure
  unfolding respond serve run answer tenant_admin_access pure
  respond-refused row request context company_id app r there filled from attached within runs =
      let next = (attach_context jose env trust_proxy request app).1 in
      let (_, _, kept) = attach_context-total jose env trust_proxy request app in
      let (_, _, _, _, _, _, _, same) =
        attach_context-in_context jose env trust_proxy request app next context
          (paired _ attached) in
      let of_source : context.source_ip ≡ some row.source_ip =
        ap (λ (c : AuthContext). c.source_ip) same ∙ from in
      let refused =
        ap
          (λ w.
            (get_tenant_admin_access (service_executor driver) policy (some context) company_id
              w).0)
          kept
        ∙ access_refused policy law.directly row app.world r filled within runs context company_id
            there of_source in
      ap (λ o. o.0) (bind-ok _ _ (paired _ attached))
      ∙ bind_failed
          (on_world
            (get_tenant_admin_access (service_executor driver) policy (some context) company_id))
          _ next blocked_failure refused

  -- Over a driver with the laws of RunsBoth no sequence of requests lifts a protection: with any
  -- context, for any company, a later request for access from the source is answered with the
  -- refusal 429, if its look-up runs and comes before the protection is over.
  pub after-blocked_failure :
      (calls : List (Request × Call)) (app : State) (row : ProtectionRow) (request : Request)
      (context : AuthContext) (company_id : String) (r : QueryResult ℕ)
      → Protected row (law.in_transactions.durable app.world)
      → truthy row.source_ip ≡ true
      → resolve_source_ip trust_proxy request ≡ some row.source_ip
      → (attach_context jose env trust_proxy request
          (after sha256 jose env trust_proxy policy driver calls app)).0
        ≡ ok (in_context context)
      → (law.directly.moment (after sha256 jose env trust_proxy policy driver calls app).world).now
        ≤ row.blocked_until
      → (driver.query
          (select_blocked row.source_ip)
          (after sha256 jose env trust_proxy policy driver calls app).world).0
        ≡ ok r
      → (respond sha256 jose env trust_proxy policy driver request
          (get_admin_access company_id)
          (after sha256 jose env trust_proxy policy driver calls app)).0
        ≡ err (too_many_requests "Access temporarily blocked after repeated cross-tenant probes.")
  after-blocked_failure calls app row request context company_id r there filled from attached within
        runs =
      let later = after sha256 jose env trust_proxy policy driver calls app in
      let still =
        after-Keeping sha256 jose env trust_proxy policy (Protected row)
          (Protected-Kept dialect row) law calls app there in
      respond-refused row request context company_id later r
        (subst (Protected row) (sym (law.one_database later.world)) still) filled from attached
        within runs

-- ===== src/System/Provisioning.antt =====
-- The provisioning page of apps/web against the API of apps/api, while others send requests too.
use oc.Base.{String, Option, List, [], ◌∷◌, ◌≡◌, inl, inr, Bool-cases, sym}
use mathlib.Core.Path.{subst}
use oc.Base.Exec.{Failure, ok, err}
use oc.Contracts.{CreateCompanyRequest, CreateCompanyResponse}
use oc.Database.{SqlDriver}
use oc.Sql.Schema.{Tables}
use oc.Sql.Policy.{Dialect}
use oc.Sql.Driver.{RunsBoth}
use oc.Sql.Recorded.{IsRecorded, IsRecorded-Kept}
use oc.Audit.Enumeration.{EnumerationPolicy}
use oc.Auth.Jose.{Jose}
use oc.Auth.Keys.{KeyEnv}
use oc.Auth.App.{App}
use oc.Tenant.Middleware.{Request}
use oc.Api.{Call, post_company, created, respond, after}
use oc.Api.Keeps.{after-Keeping}
use oc.Api.Provisions.{respond-created}
use oc.Web.Shell
use oc.Web.Shell.{
  AdminShell, ProvisioningViewState, idle, submitting, success, error, Provisioned, is_submitting,
  update_company_name, update_admin_email, blur_company_name, blur_admin_email, provision_tenant,
  on_response, on_failure, open_security_dialog, close_security_dialog,
}
use oc.Web.Shell.Steps.{submission, held_back}

pub record Console (W PrivateKey PublicKey : Type 0) : Type 0 where
  pub form : AdminShell
  pub app : App W PrivateKey PublicKey

-- What is shown of a provisioning is recorded.
abbrev Shown : ProvisioningViewState → Tables → Type 0
Shown idle t = Unit {0}
Shown submitting t = Unit {0}
Shown (success p) t = IsRecorded p.company_id p.company_name p.admin_user_id p.admin_email t
Shown (error message) t = Unit {0}

provision_tenant-Shown :
    (s : AdminShell) (t : Tables) → Shown s.view_state t → Shown (provision_tenant s).view_state t
provision_tenant-Shown s t h = elim (Bool-cases (is_submitting s)) [
  | inl busy ↦ subst (λ x. Shown x.view_state t) (sym (held_back s busy)) h
  | inr free ↦ elim (submission s free) [
    | inl told ↦ subst (λ x. Shown x.view_state t) (sym told) tt
    | inr (posted, _) ↦ subst (λ x. Shown x.view_state t) (sym posted) tt
  ]
]

module _ {W PrivateKey PublicKey : Type 0} (sha256 : String → String)
    (jose : Jose PrivateKey PublicKey) (env : KeyEnv) (trust_proxy : Option String)
    (policy : EnumerationPolicy) (driver : SqlDriver W) where
  -- The user works with the page; the API answers a request of the form that is in flight; or it
  -- serves a request of somebody else.
  pub data Step : Console W PrivateKey PublicKey → Console W PrivateKey PublicKey → Type 0 where
    types_company_name :
        (s : Console W PrivateKey PublicKey) (value : String)
        → Step s (record s { form = update_company_name value s.form })
    types_admin_email :
        (s : Console W PrivateKey PublicKey) (value : String)
        → Step s (record s { form = update_admin_email value s.form })
    leaves_company_name :
        (s : Console W PrivateKey PublicKey) → Step s (record s { form = blur_company_name s.form })
    leaves_admin_email :
        (s : Console W PrivateKey PublicKey) → Step s (record s { form = blur_admin_email s.form })
    submits :
        (s : Console W PrivateKey PublicKey) → Step s (record s { form = provision_tenant s.form })
    opens_dialog :
        (s : Console W PrivateKey PublicKey) (target : String)
        → Step s (record s { form = open_security_dialog target s.form })
    closes_dialog :
        (s : Console W PrivateKey PublicKey)
        → Step s (record s { form = close_security_dialog s.form })
    is_answered :
        (s : Console W PrivateKey PublicKey) (r : CreateCompanyRequest)
        (rs : List CreateCompanyRequest) (request : Request) (response : CreateCompanyResponse)
        → s.form.in_flight ≡ r ∷ rs
        → (respond sha256 jose env trust_proxy policy driver request (post_company r) s.app).0
          ≡ ok (created response)
        → Step s (record {
          form = on_response r response s.form;
          app =
              (respond sha256 jose env trust_proxy policy driver request (post_company r) s.app).1;
        })
    is_refused :
        (s : Console W PrivateKey PublicKey) (r : CreateCompanyRequest)
        (rs : List CreateCompanyRequest) (request : Request) (e : Failure)
        → s.form.in_flight ≡ r ∷ rs
        → (respond sha256 jose env trust_proxy policy driver request (post_company r) s.app).0
          ≡ err e
        → Step s (record {
          form = on_failure s.form;
          app =
              (respond sha256 jose env trust_proxy policy driver request (post_company r) s.app).1;
        })
    serves :
        (s : Console W PrivateKey PublicKey) (request : Request) (call : Call)
        → Step s (record s {
          app = (respond sha256 jose env trust_proxy policy driver request call s.app).1;
        })

  -- from the page as it is created and a state of the API
  pub data Reachable (app : App W PrivateKey PublicKey)
      : Console W PrivateKey PublicKey → Type 0 where
    start : Reachable app (record { form = Shell.created; app = app })
    next : {s s' : Console W PrivateKey PublicKey} → Reachable app s → Step s s' → Reachable app s'

  module _ {dialect : Dialect} (law : RunsBoth dialect driver) where
    abbrev Sound : ProvisioningViewState → App W PrivateKey PublicKey → Type 0
    Sound v app = Shown v (law.in_transactions.durable app.world)

    -- a request of somebody else
    served :
        (v : ProvisioningViewState) (app : App W PrivateKey PublicKey) (request : Request)
        (call : Call)
        → Sound v app
        → Sound v (respond sha256 jose env trust_proxy policy driver request call app).1
    unfolding after
    served idle app request call h = tt
    served submitting app request call h = tt
    served (error message) app request call h = tt
    served (success p) app request call h =
        after-Keeping sha256 jose env trust_proxy policy
          (IsRecorded p.company_id p.company_name p.admin_user_id p.admin_email)
          (IsRecorded-Kept p.company_id p.company_name p.admin_user_id p.admin_email dialect) law
          ((request, call) ∷ []) app h

    Step-Sound :
        {s s' : Console W PrivateKey PublicKey}
        → Step s s'
        → Sound s.form.view_state s.app
        → Sound s'.form.view_state s'.app
    unfolding update_company_name update_admin_email blur_company_name blur_admin_email on_response
        on_failure open_security_dialog close_security_dialog
    Step-Sound (types_company_name s value) h = tt
    Step-Sound (types_admin_email s value) h = tt
    Step-Sound (leaves_company_name s) h = h
    Step-Sound (leaves_admin_email s) h = h
    Step-Sound (submits s) h = provision_tenant-Shown s.form _ h
    Step-Sound (opens_dialog s target) h = h
    Step-Sound (closes_dialog s) h = h
    Step-Sound (is_answered s r rs request response e answered) h =
        respond-created sha256 jose env trust_proxy policy law.in_transactions request r s.app
          response answered
    Step-Sound (is_refused s r rs request x e answered) h = tt
    Step-Sound (serves s request call) h = served s.form.view_state s.app request call h

    Reachable-Sound :
        {app : App W PrivateKey PublicKey} {s : Console W PrivateKey PublicKey}
        → Reachable app s
        → Sound s.form.view_state s.app
    Reachable-Sound start = tt
    Reachable-Sound (next reached step) = Step-Sound step (Reachable-Sound reached)

    -- Over a driver with the laws of RunsBoth, whatever a user of the provisioning page does, and
    -- whatever others send to the API meanwhile: while the page tells of a provisioned company, the
    -- committed data holds this company under the id and the name that are shown, its administrator
    -- under the id and the address that are shown, without global authority and without a password,
    -- and a tenant_admin role that this user has for this company.
    pub Reachable-IsRecorded :
        {app : App W PrivateKey PublicKey} {s : Console W PrivateKey PublicKey} (p : Provisioned)
        → Reachable app s
        → s.form.view_state ≡ success p
        → IsRecorded p.company_id p.company_name p.admin_user_id p.admin_email
            (law.in_transactions.durable s.app.world)
    Reachable-IsRecorded {s = s} p reached shown =
        subst (λ v. Sound v s.app) shown (Reachable-Sound reached)

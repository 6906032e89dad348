-- ===== src/Api/Provisions.antt =====
-- POST /api/admin/companies: what a response to a provisioning says of the committed data.
use oc.Base.{String, Option, none, some, ◌≡◌, sym, ap, ◌∙◌}
use mathlib.Core.Path.{subst}
use oc.Base.Exec.{ok, pure, throw}
use oc.Base.Exec.Laws.{bind_returned, paired}
use oc.Contracts.{AuthContext, CreateCompanyRequest, CreateCompanyResponse}
use oc.Database.{SqlDriver}
use oc.Sql.Policy.{Dialect}
use oc.Sql.Driver.{RunsSql}
use oc.Sql.Recorded.{IsRecorded, IsRecorded-provisioned}
use oc.Audit.Enumeration.{EnumerationPolicy}
use oc.Auth.Jose.{Jose}
use oc.Auth.Keys.{KeyEnv}
use oc.Auth.App.{App}
use oc.Tenant.Context.{run}
use oc.Tenant.Middleware.{Request, Next, plain, in_context, failed, continue_with, serve}
use oc.Companies.{create_company}
use oc.Companies.Provisioning.{create_company_effect}
use oc.Companies.Authority.{on_world-eq-ok, unauthenticated}
use oc.Api.{post_company, created, companies_create, answer, respond}

module _ {W PrivateKey PublicKey : Type 0} (sha256 : String → String)
    (jose : Jose PrivateKey PublicKey) (env : KeyEnv) (trust_proxy : Option String)
    (policy : EnumerationPolicy) {dialect : Dialect} {driver : SqlDriver W}
    (law : RunsSql dialect driver) where
  -- what a response tells of, for the request that it answers
  abbrev pub Tells : CreateCompanyRequest → CreateCompanyResponse → W → Type 0
  Tells body response w =
      IsRecorded response.company_id body.company_name response.admin_user_id body.admin_email
        (law.durable w)

  create_company-Tells :
      (store : Option AuthContext) (body : CreateCompanyRequest) (w w' : W)
      (response : CreateCompanyResponse)
      → create_company driver store body w ≡ (ok response, w')
      → Tells body response w'
  create_company-Tells none body w w' response h =
      absurd (unauthenticated driver body w w' response h)
  create_company-Tells (some actor) body w w' response h =
      let (m₁, m₂, m₃, _, answered, published, assigned, _) =
        create_company_effect law actor body w w' response h in
      subst (λ r. Tells body r w') (sym answered)
        (subst (IsRecorded m₁.fresh_id body.company_name m₂.fresh_id body.admin_email)
          (sym published)
          (IsRecorded-provisioned m₁ m₂ m₃ body.company_name body.admin_email _ (law.durable w)
            assigned))

  answered_company :
      (body : CreateCompanyRequest) (store : Option AuthContext)
      (app app' : App W PrivateKey PublicKey) (response : CreateCompanyResponse)
      → answer sha256 jose env trust_proxy policy driver (post_company body) store app
        ≡ (ok (created response), app')
      → Tells body response app'.world
  unfolding answer pure companies_create
  answered_company body store app app' response h = bind_returned _ _ h λ given a₁ provisions k.
      let same : given ≡ response = cc (ap (λ o. o.0) k) in
      let there : a₁.world ≡ app'.world = ap (λ o. o.1.world) k in
      subst (λ r. Tells body r app'.world) same
        (subst (Tells body given) (ap (λ o. o.1.world) provisions ∙ there) (
          create_company-Tells store body app.world _ given
            (on_world-eq-ok (create_company driver store body) app a₁ given provisions)))

  -- a response to a provisioning, whatever credentials the request carried
  pub respond-created :
      (request : Request) (body : CreateCompanyRequest) (app : App W PrivateKey PublicKey)
      (response : CreateCompanyResponse)
      → (respond sha256 jose env trust_proxy policy driver request (post_company body) app).0
        ≡ ok (created response)
      → Tells body response
          (respond sha256 jose env trust_proxy policy driver request
            (post_company body)
            app).1.world
  unfolding respond serve run throw
  respond-created request body app response h =
      bind_returned _ _ (paired _ h) λ next app₁ _ k. go next app₁ k
    where
      go :
          (next : Next) (app₁ : App W PrivateKey PublicKey) {app' : App W PrivateKey PublicKey}
          → continue_with jose env trust_proxy
              (answer sha256 jose env trust_proxy policy driver (post_company body))
              next
              app₁
            ≡ (ok (created response), app')
          → Tells body response app'.world
      go plain app₁ k = answered_company body none app₁ _ response k
      go (in_context context) app₁ k = answered_company body (some context) app₁ _ response k
      go (failed e) app₁ k = absurd (cc)

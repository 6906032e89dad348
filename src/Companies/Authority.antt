-- ===== src/Companies/Authority.antt =====
-- POST /api/companies behind the middleware: what a request that provisioned a company carried.
use oc.Base.{String, Option, some, none, true, ◌≡◌, ap, sym, ◌∙◌}
use oc.Base.Exec.{Exec, ok, throw, ◌>>=◌}
use oc.Base.Exec.Laws.{bind_returned}
use oc.Contracts.{AuthContext, CreateCompanyRequest, CreateCompanyResponse, includes_super_admin}
use oc.Database.{SqlDriver}
use oc.Sql.Policy.{Dialect}
use oc.Sql.Driver.{RunsSql}
use oc.Auth.Jose.{Jose}
use oc.Auth.Token.{verify_session_token}
use oc.Auth.Keys.{KeyEnv, get_key, load_verification_key}
use oc.Auth.App.{App, on_world}
use oc.Auth.Hardened.{verify_session_token-accepted}
use oc.Tenant.Context.{run, get_required}
use oc.Tenant.Middleware.{
  Request, Next, plain, in_context, failed, extract_session_token, attach_context, continue_with,
  serve,
}
use oc.Tenant.Middleware.Authority.{attach_context-in_context}
use oc.Companies.{create_company}
use oc.Companies.Provisioning.{create_company-eq-ok}

pub on_world-eq-ok :
    {W PrivateKey PublicKey A : Type 0} (m : Exec W A) (app app' : App W PrivateKey PublicKey)
    (a : A)
    → on_world m app ≡ (ok a, app')
    → m app.world ≡ (ok a, (m app.world).1)
on_world-eq-ok m app app' a h = let r : (m app.world).0 ≡ ok a = ap (λ o. o.0) h in cc

pub unauthenticated :
    {W : Type 0} (driver : SqlDriver W) (body : CreateCompanyRequest) (w w' : W)
    (response : CreateCompanyResponse)
    → ¬ (create_company driver none body w ≡ (ok response, w'))
unfolding create_company get_required ◌>>=◌
unauthenticated driver body w w' response h = absurd (cc)

module _ {W PrivateKey PublicKey : Type 0} (jose : Jose PrivateKey PublicKey) (env : KeyEnv)
    (trust_proxy : Option String) {dialect : Dialect} {driver : SqlDriver W}
    (law : RunsSql dialect driver) where
  -- On a driver with the laws of RunsSql, a request to provision that succeeded carried a session
  -- token that verifies with the key that is cached or loaded, and the roles of the context that
  -- it verifies to hold super_admin.
  pub serve-create_company :
      (request : Request) (body : CreateCompanyRequest) (app app' : App W PrivateKey PublicKey)
      (response : CreateCompanyResponse)
      → serve jose env trust_proxy request
          (λ store. on_world (create_company driver store body))
          app
        ≡ (ok response, app')
      → (token : String) × (key : PublicKey) × (context : AuthContext) × (extract_session_token
            request
          ≡ ok (some token))
        × ((get_key (load_verification_key jose env) app.verification_key).0 ≡ ok key)
        × (verify_session_token jose token key ≡ ok context)
        × (includes_super_admin context.roles ≡ true)
  unfolding serve run throw
  serve-create_company request body app app' response h =
      bind_returned _ _ h λ next app₁ attached handled. go next app₁ attached handled
    where
      go :
          (next : Next) (app₁ : App W PrivateKey PublicKey)
          → attach_context jose env trust_proxy request app ≡ (ok next, app₁)
          → continue_with jose env trust_proxy
              (λ store. on_world (create_company driver store body))
              next
              app₁
            ≡ (ok response, app')
          → (token : String) × (key : PublicKey) × (context : AuthContext) × (extract_session_token
                request
              ≡ ok (some token))
            × ((get_key (load_verification_key jose env) app.verification_key).0 ≡ ok key)
            × (verify_session_token jose token key ≡ ok context)
            × (includes_super_admin context.roles ≡ true)
      go plain app₁ attached handled = absurd (
          unauthenticated driver body app₁.world (create_company driver none body app₁.world).1
            response (on_world-eq-ok (create_company driver none body) app₁ app' response handled))
      go (failed e) app₁ attached handled = absurd (cc handled)
      go (in_context context) app₁ attached handled =
          let (token, key, verified, found, filled, loaded, accepted, same) =
            attach_context-in_context jose env trust_proxy request app app₁ context attached in
          let (_, _, _, _, _, authority, _) =
            verify_session_token-accepted jose token key verified accepted in
          let (super, _) =
            create_company-eq-ok law context body app₁.world
              (create_company driver (some context) body app₁.world).1 response
              (on_world-eq-ok (create_company driver (some context) body) app₁ app' response
                handled) in
          (
            token,
            key,
            verified,
            found,
            loaded,
            accepted,
            sym authority ∙ sym (ap (λ (c : AuthContext). c.is_super_admin) same) ∙ super,
          )

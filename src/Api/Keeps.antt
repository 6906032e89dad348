-- ===== src/Api/Keeps.antt =====
-- A predicate that the statements keep is kept by every request.
use oc.Base.{ℕ, String, Option, List, [], ◌∷◌, sym}
use mathlib.Core.Path.{subst}
use oc.Base.Exec.{pure, throw, lift}
use oc.Base.Exec.Keeping.{Keeping, Keeping-bind, Keeping-catch}
use oc.Contracts.{AuthContext, CreateCompanyRequest}
use oc.Database.{SqlDriver, transaction, transaction_executor, service_executor}
use oc.Database.Statements.{Statement}
use oc.Sql.Schema.{Tables}
use oc.Sql.Policy.{Dialect}
use oc.Sql.Writes.{Kept}
use oc.Sql.Driver.{RunsBoth}
use oc.Sql.Driver.Keeps.{Seen, query-Returning, transaction-Keeping, query-Keeping}
use oc.Audit.Enumeration.{EnumerationPolicy}
use oc.Auth.Jose.{Jose}
use oc.Auth.Keys.{KeyEnv}
use oc.Auth.App.{App}
use oc.Auth.Credentials.{look_up}
use oc.Auth.Credentials.Keeps.{look_up-Returning, look_up-Confined, verify-Keeping}
use oc.Auth.Login.{Body, login}
use oc.Companies.{provision}
use oc.Companies.Provisioning.{provision-Confined}
use oc.Companies.Keeps.{provision-Returning, create_company-Keeping}
use oc.Health.{probe, ready}
use oc.Tenant.Context.{run}
use oc.Tenant.Middleware.{
  Request, Next, plain, in_context, failed, attach_context, continue_with, serve,
}
use oc.Tenant.Middleware.Authority.{attach_context-total}
use oc.TenantAccess.Keeps.{get_tenant_admin_access-Keeping}
use oc.Api.{
  Call, post_login, post_company, get_admin_access, get_live, get_ready, answer, respond, after,
}

module _ {W PrivateKey PublicKey : Type 0} (sha256 : String → String)
    (jose : Jose PrivateKey PublicKey) (env : KeyEnv) (trust_proxy : Option String)
    (policy : EnumerationPolicy) {dialect : Dialect} {driver : SqlDriver W} (P : Tables → Type 0)
    (kept : Kept dialect P) (law : RunsBoth dialect driver) where
  abbrev Holds : W → Type 0
  Holds w = P (law.in_transactions.durable w)

  abbrev pub AppHolds : App W PrivateKey PublicKey → Type 0
  AppHolds app = Holds app.world

  direct : (q : Statement) → Keeping Holds (driver.query q)
  direct q w h =
      subst P (law.one_database (driver.query q w).1)
        (query-Keeping P kept law.directly q w (subst P (sym (law.one_database w)) h))

  provisioning :
      (actor : AuthContext) (body : CreateCompanyRequest)
      → Keeping Holds (transaction driver (provision actor body))
  provisioning actor body =
      transaction-Keeping P kept law.in_transactions (provision actor body)
        (provision-Confined law.in_transactions.durable actor body)
        (λ v u t begun.
          provision-Returning (Seen P kept law.in_transactions) (transaction_executor t)
            (query-Returning P kept law.in_transactions v u t begun) actor body)

  looking_up : (username : String) → Keeping Holds (transaction driver (look_up sha256 username))
  looking_up username =
      transaction-Keeping P kept law.in_transactions (look_up sha256 username)
        (look_up-Confined sha256 law.in_transactions.durable username)
        (λ v u t begun.
          look_up-Returning sha256 (Seen P kept law.in_transactions) (transaction_executor t)
            (query-Returning P kept law.in_transactions v u t begun) username)

  login-Keeping : (body : Body) (now : ℕ) → Keeping AppHolds (login sha256 jose env driver body now)
  unfolding login lift pure
  login-Keeping body now =
      Keeping-bind AppHolds _ _ (λ app h. h)
        λ request.
          Keeping-bind AppHolds _ _
            (λ app h. verify-Keeping sha256 Holds driver looking_up request app.world h)
            λ authority. Keeping-bind AppHolds _ _ (λ app h. h) (λ _ app h. h)

  ready-Keeping : (now : ℕ) → Keeping AppHolds (ready jose env driver now)
  unfolding ready probe throw pure
  ready-Keeping now =
      Keeping-catch AppHolds _ _
        (Keeping-bind AppHolds _ _ (λ app h. direct _ app.world h)
          λ _.
            Keeping-bind AppHolds _ _ (λ app h. h)
              λ _.
                Keeping-bind AppHolds _ _ (λ app h. h)
                  λ _. Keeping-bind AppHolds _ _ (λ app h. h) (λ _ app h. h))
        (λ _ app h. h)

  answer-Keeping :
      (call : Call) (store : Option AuthContext)
      → Keeping AppHolds (answer sha256 jose env trust_proxy policy driver call store)
  unfolding answer pure
  answer-Keeping (post_login body now) store =
      Keeping-bind AppHolds _ _ (login-Keeping body now) (λ _ app h. h)
  answer-Keeping (post_company body) store =
      Keeping-bind AppHolds _ _
        (λ app h.
          create_company-Keeping Holds driver body (λ actor. provisioning actor body) store
            app.world h)
        (λ _ app h. h)
  answer-Keeping (get_admin_access company_id) store =
      Keeping-bind AppHolds _ _
        (λ app h.
          get_tenant_admin_access-Keeping Holds (service_executor driver) direct policy store
            company_id app.world h)
        (λ _ app h. h)
  answer-Keeping get_live store = λ app h. h
  answer-Keeping (get_ready now) store =
      Keeping-bind AppHolds _ _ (ready-Keeping now) (λ _ app h. h)

  attach-Keeping :
      (request : Request) → Keeping AppHolds (attach_context {W = W} jose env trust_proxy request)
  attach-Keeping request app h =
      let (_, _, same) = attach_context-total jose env trust_proxy request app in
      subst Holds (sym same) h

  respond-Keeping :
      (request : Request) (call : Call)
      → Keeping AppHolds (respond sha256 jose env trust_proxy policy driver request call)
  unfolding respond serve run throw
  respond-Keeping request call = Keeping-bind AppHolds _ _ (attach-Keeping request) go
    where
      go :
          (next : Next)
          → Keeping AppHolds (
              continue_with jose env trust_proxy
                (answer sha256 jose env trust_proxy policy driver call)
                next)
      go plain = answer-Keeping call _
      go (in_context context) = answer-Keeping call _
      go (failed e) = λ app h. h

  pub after-Keeping :
      (calls : List (Request × Call)) (app : App W PrivateKey PublicKey)
      → P (law.in_transactions.durable app.world)
      → P (
          law.in_transactions.durable
            (after sha256 jose env trust_proxy policy driver calls app).world)
  unfolding after
  after-Keeping [] app h = h
  after-Keeping ((request, call) ∷ calls) app h =
      after-Keeping calls _ (respond-Keeping request call app h)

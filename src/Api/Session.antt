-- ===== src/Api/Session.antt =====
-- From a login to a provisioning: the two requests of a session.
use oc.Base.{ℕ, String, Option, some, true, ◌≡◌, ◌≢◌, ap, ◌∙◌}
use oc.Base.Exec.{ok, pure}
use oc.Base.Exec.Laws.{bind-ok, paired}
use oc.Contracts.{AuthContext, CreateCompanyRequest, includes_super_admin}
use oc.Database.{SqlDriver, SqlTransactionDriver}
use oc.Sql.Policy.{Dialect}
use oc.Sql.Driver.{RunsSql, IsUp}
use oc.Audit.Enumeration.{EnumerationPolicy}
use oc.Auth.Credentials.Laws.{verify_sound}
use oc.Auth.Jose.{Jose, IsKeyPair}
use oc.Auth.Keys.{KeyEnv, get_key, load_signing_key, load_verification_key}
use oc.Auth.App.{App, on_world}
use oc.Auth.Login.{Body, LoginReply, login}
use oc.Auth.Login.Session.{session_context}
use oc.Companies.{create_company, provisioned}
use oc.Companies.Admissible.{Admissible}
use oc.Companies.Completes.{prepared, inserted, create_company_complete}
use oc.Tenant.Context.{run}
use oc.Tenant.Middleware.{Request, in_context, resolve_source_ip, attach_context, serve}
use oc.Tenant.Middleware.Authority.{attach_context-total}
use oc.Tenant.Middleware.Cookie.{is_cookie_text, WithCookie, attach_context-login}
use oc.Api.{post_company, created, answer, respond}
use oc.Api.Logins.{login-eq-ok}

-- the context of a session on a request
abbrev pub context_on : Option String → LoginReply → Request → AuthContext
context_on trust_proxy reply request = record (session_context reply.authority) {
  source_ip = resolve_source_ip trust_proxy request;
}

module _ {W PrivateKey PublicKey : Type 0} (sha256 : String → String)
    (jose : Jose PrivateKey PublicKey) (env : KeyEnv) (trust_proxy : Option String)
    (policy : EnumerationPolicy) {dialect : Dialect} {driver : SqlDriver W}
    (law : RunsSql dialect driver) (body : Body) (now : ℕ) (app app' : App W PrivateKey PublicKey)
    (reply : LoginReply)
    (logs_in : login sha256 jose env driver body now app ≡ (ok reply, app')) where
  -- only a super_admin's login is answered
  reply_super : includes_super_admin reply.authority.roles ≡ true
  reply_super =
      let (credentials, _, verified) =
        login-eq-ok sha256 jose env driver body now app app' reply logs_in in
      let (_, _, _, _, _, _, _, _, super, _, _, _) =
        verify_sound sha256 law credentials app.world _ reply.authority (paired _ verified) in
      super

  module _ (later : App W PrivateKey PublicKey) (request : Request) (company : CreateCompanyRequest)
      (private_key : PrivateKey) (public_key : PublicKey) where
    -- the process still has, or loads, a key that pairs with the one that signed, and the request
    -- brings back the cookie
    pub record SessionLives : Type 0 where
      pub signs : (get_key (load_signing_key jose env) app.signing_key).0 ≡ ok private_key
      pub verifies :
          (get_key (load_verification_key jose env) later.verification_key).0 ≡ ok public_key
      pub pair : IsKeyPair jose private_key public_key
      pub named : reply.authority.user_id ≢ ""
      pub filled : reply.session ≢ ""
      pub text : is_cookie_text reply.session ≡ true
      pub sent : WithCookie request reply.session

    module _ (lives : SessionLives) (up : IsUp law) (u : W) (t : SqlTransactionDriver W)
        (begun : driver.begin_transaction later.world ≡ (ok t, u)) where
      abbrev actor : AuthContext
      actor = context_on trust_proxy reply request

      attached : (attach_context jose env trust_proxy request later).0 ≡ ok (in_context actor)
      attached =
          attach_context-login sha256 jose env driver trust_proxy body now app app' later reply
            private_key public_key request logs_in lives.signs lives.verifies lives.pair lives.named
            lives.filled lives.text lives.sent

      -- On a server that is up, a provisioning succeeds, with the ids that the server gave to the
      -- company and to its administrator, if its request has no Authorization header and a Cookie
      -- header that holds the session cookie of a login and nothing else, the keys of signing and
      -- verification pair, the session's user and token are not empty and the token is a text that
      -- a cookie can hold, and if the tables let the company and the administrator in: ids, name
      -- and address are free, name and address fit their columns, a role tenant_admin is there, and
      -- the caller is a user.
      pub respond_complete :
          Admissible dialect actor company
            (law.moment (prepared up later.world u t begun actor company))
            (law.moment (inserted up later.world u t begun actor company))
            (law.durable later.world)
          → (respond sha256 jose env trust_proxy policy driver request
              (post_company company)
              later).0
            ≡ ok (
                created (
                  provisioned
                    (law.moment (prepared up later.world u t begun actor company)).fresh_id
                    (law.moment (inserted up later.world u t begun actor company)).fresh_id))
      unfolding respond serve run answer pure
      respond_complete ready =
          let (_, _, kept) = attach_context-total jose env trust_proxy request later in
          let next = (attach_context jose env trust_proxy request later).1 in
          let provisions =
            ap (λ w. (create_company driver (some actor) company w).0) kept
            ∙ create_company_complete up later.world u t begun actor company reply_super ready in
          ap (λ o. o.0)
            (bind-ok _ _ (paired _ attached)
              ∙ bind-ok _ _
                  (paired (on_world (create_company driver (some actor) company) next) provisions))

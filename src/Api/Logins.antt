-- ===== src/Api/Logins.antt =====
-- Who can log in after any sequence of requests.
use oc.Base.{
  ℕ, String, Option, none, some, Bool, true, false, List, [], ◌∷◌, map, ◌≡◌, sym, ap, ◌∙◌, inl, inr,
  ◌==◌, if◌then◌else◌,
}
use mathlib.Core.Path.{subst}
use oc.Base.Exec.{ok, pure, throw, lift}
use oc.Base.Exec.Laws.{bind_returned, paired}
use oc.Contracts.{AuthContext, LoginRequest}
use oc.Database.{SqlDriver}
use oc.Sql.Schema.{User}
use oc.Sql.Policy.{Dialect}
use oc.Sql.Run.{select}
use oc.Sql.Driver.{RunsBoth}
use oc.Sql.Identity.{Identity, identity}
use oc.Sql.Authority.{global_admins}
use oc.Audit.Enumeration.{EnumerationPolicy}
use oc.Auth.Credentials.{create_sha256_password_hash, verify}
use oc.Auth.Credentials.Rows.{In}
use oc.Auth.Credentials.Laws.{verify_sound}
use oc.Auth.Jose.{Jose}
use oc.Auth.Keys.{KeyEnv}
use oc.Auth.App.{App}
use oc.Auth.Login.{Body, LoginReply, login, parse_login_request}
use oc.Tenant.Context.{run}
use oc.Tenant.Middleware.{Request, Next, plain, in_context, failed, continue_with, serve}
use oc.Tenant.Middleware.Authority.{attach_context-total}
use oc.Api.{Call, post_login, logged_in, answer, respond, after}
use oc.Api.Invariants.{after-SameAuthority}

In-global_admins :
    (us : List User) (u : User)
    → In u us
    → u.is_global_admin ≡ true
    → In (identity u) (map identity (select (λ (x : User). x.is_global_admin) us))
unfolding select
In-global_admins [] u h global = absurd h
In-global_admins (v ∷ us) u (inl e) global =
    go v.is_global_admin (ap (λ (x : User). x.is_global_admin) (sym e) ∙ global)
  where
    go :
        (b : Bool)
        → b ≡ true
        → In (identity u) (
            map identity (
              if b
              then v ∷ select (λ (x : User). x.is_global_admin) us
              else select (λ (x : User). x.is_global_admin) us))
    go true k = inl (ap identity e)
    go false k = absurd (cc)
In-global_admins (v ∷ us) u (inr h) global = go v.is_global_admin (In-global_admins us u h global)
  where
    go :
        (b : Bool)
        → In (identity u) (map identity (select (λ (x : User). x.is_global_admin) us))
        → In (identity u) (
            map identity (
              if b
              then v ∷ select (λ (x : User). x.is_global_admin) us
              else select (λ (x : User). x.is_global_admin) us))
    go true k = inr k
    go false k = k

module _ {W PrivateKey PublicKey : Type 0} (sha256 : String → String)
    (jose : Jose PrivateKey PublicKey) (env : KeyEnv) (driver : SqlDriver W) where
  pub login-eq-ok :
      (body : Body) (now : ℕ) (app app' : App W PrivateKey PublicKey) (reply : LoginReply)
      → login sha256 jose env driver body now app ≡ (ok reply, app')
      → (request : LoginRequest) × (parse_login_request body ≡ ok request)
        × ((verify sha256 driver request app.world).0 ≡ ok reply.authority)
  unfolding login lift pure
  login-eq-ok body now app app' reply h = bind_returned _ _ h λ request a₁ parsed k₁.
      bind_returned _ _ k₁ λ authority a₂ verified k₂. bind_returned _ _ k₂ λ token a₃ signed k₃.
        let who : authority ≡ reply.authority = cc (ap (λ o. o.0) k₃) in
        let there : a₁.world ≡ app.world = ap (λ o. o.1.world) (sym parsed) in
        (
          request,
          ap (λ o. o.0) parsed,
          ap (λ w. (verify sha256 driver request w).0) (sym there)
              ∙ ap (λ o. o.0) verified
              ∙ ap ok who,
        )

  module _ (trust_proxy : Option String) (policy : EnumerationPolicy) where
    answered_login :
        (body : Body) (now : ℕ) (store : Option AuthContext) (app app' : App W PrivateKey PublicKey)
        (reply : LoginReply)
        → answer sha256 jose env trust_proxy policy driver (post_login body now) store app
          ≡ (ok (logged_in reply), app')
        → (request : LoginRequest) × (parse_login_request body ≡ ok request)
          × ((verify sha256 driver request app.world).0 ≡ ok reply.authority)
    unfolding answer pure
    answered_login body now store app app' reply h = bind_returned _ _ h λ given a₁ logged k.
        let same : given ≡ reply = cc (ap (λ o. o.0) k) in
        login-eq-ok body now app a₁ reply (logged ∙ ap (λ r. (ok r, a₁)) same)

    -- a response to a login, whatever credentials the request carried
    respond-login :
        (request : Request) (body : Body) (now : ℕ) (app : App W PrivateKey PublicKey)
        (reply : LoginReply)
        → (respond sha256 jose env trust_proxy policy driver request (post_login body now) app).0
          ≡ ok (logged_in reply)
        → (credentials : LoginRequest) × (parse_login_request body ≡ ok credentials)
          × ((verify sha256 driver credentials app.world).0 ≡ ok reply.authority)
    unfolding respond serve run throw
    respond-login request body now app reply h =
        bind_returned _ _ (paired _ h) λ next app₁ attached k.
          let (_, _, kept) = attach_context-total jose env trust_proxy request app in
          let here : app₁.world ≡ app.world = ap (λ o. o.1.world) (sym attached) ∙ kept in
          let (credentials, parsed, verified) = go next app₁ k in
          (
            credentials,
            parsed,
            ap (λ w. (verify sha256 driver credentials w).0) (sym here) ∙ verified,
          )
      where
        go :
            (next : Next) (app₁ : App W PrivateKey PublicKey) {app' : App W PrivateKey PublicKey}
            → continue_with jose env trust_proxy
                (answer sha256 jose env trust_proxy policy driver (post_login body now))
                next
                app₁
              ≡ (ok (logged_in reply), app')
            → (credentials : LoginRequest) × (parse_login_request body ≡ ok credentials)
              × ((verify sha256 driver credentials app₁.world).0 ≡ ok reply.authority)
        go plain app₁ k = answered_login body now none app₁ _ reply k
        go (in_context context) app₁ k = answered_login body now (some context) app₁ _ reply k
        go (failed e) app₁ k = absurd (cc)

    -- Over a driver with the laws of RunsBoth, whoever logs in after any sequence of requests is a
    -- global administrator of the data before them, of no company, named by address, and gives the password whose hash
    -- was stored for that user: no request lets anyone new in.
    pub respond-login-global_admins :
        {dialect : Dialect} (law : RunsBoth dialect driver) (calls : List (Request × Call))
        (request : Request) (body : Body) (now : ℕ) (app : App W PrivateKey PublicKey)
        (reply : LoginReply)
        → (respond sha256 jose env trust_proxy policy driver request
            (post_login body now)
            (after sha256 jose env trust_proxy policy driver calls app)).0
          ≡ ok (logged_in reply)
        → (credentials : LoginRequest) × (i : Identity) × (parse_login_request body
            ≡ ok credentials)
          × In i (global_admins (law.in_transactions.durable app.world))
          × ((dialect.lower i.email == dialect.lower credentials.username) ≡ true)
          × (reply.authority.user_id ≡ i.id)
          × (i.company_id ≡ none)
          × (i.password_hash ≡ some (create_sha256_password_hash sha256 credentials.password))
    respond-login-global_admins {dialect} law calls request body now app reply h =
        let later = after sha256 jose env trust_proxy policy driver calls app in
        let (credentials, parsed, verified) = respond-login request body now later reply h in
        let (u, member, address, global, _, company, password, id, _, _, _, _) =
          verify_sound sha256 law.in_transactions credentials later.world _ reply.authority
            (paired _ verified) in
        let same = (after-SameAuthority sha256 jose env trust_proxy policy law calls app).admins in
        (
          credentials,
          identity u,
          parsed,
          subst (In (identity u)) same (In-global_admins _ u member global),
          address,
          id,
          company,
          password,
        )

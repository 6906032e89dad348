-- ===== src/Tenant/Middleware/Authority.antt =====
-- tenant-context.middleware.ts: where the context of a request comes from, and that what it may do
-- rests on a verified token.
use oc.Base.{
  ◌∙◌, sym, if◌then◌else◌, ◌↔◌, Bool-cases, inl, inr, String, Option, some, none, ◌≡◌, refl, ap,
  ◌≢◌,
}
use oc.Base.Text.{truthy}
use oc.Base.Text.Truthy.{truthy-ne, ne-truthy}
use oc.Base.Exec.{Result, ok, err, pure, lift, try_catch, recover, ◌>>=◌}
use oc.Base.Exec.Laws.{bind_returned, bind-ok, paired, bind_keeps, catch_keeps, if_keeps}
use oc.Base.Exec.Quiet.{Quiet-catch, Quiet-pure}
use oc.Contracts.{AuthContext}
use oc.Auth.Jose.{Jose}
use oc.Auth.Token.{verify_session_token}
use oc.Auth.Keys.{KeyEnv, get_key, load_verification_key}
use oc.Auth.App.{on_verification_key, App}
use oc.Tenant.Middleware.{
  plain, Request, Next, in_context, failed, extract_session_token, resolve_source_ip,
  attach_verified, attach_token, attach_context,
}

module _ {W PrivateKey PublicKey : Type 0} (jose : Jose PrivateKey PublicKey) (env : KeyEnv)
    (trust_proxy : Option String) where
  -- what a context shows
  abbrev pub Verified : Request → App W PrivateKey PublicKey → AuthContext → Type 0
  Verified request app context =
      (token : String) × (key : PublicKey) × (verified : AuthContext) × (extract_session_token
          request
        ≡ ok (some token))
      × (token ≢ "")
      × ((get_key (load_verification_key jose env) app.verification_key).0 ≡ ok key)
      × (verify_session_token jose token key ≡ ok verified)
      × (context ≡ record verified { source_ip = resolve_source_ip trust_proxy request })

  attach_verified-eq-ok :
      (request : Request) (token : String) (app app' : App W PrivateKey PublicKey)
      (context : AuthContext)
      → extract_session_token request ≡ ok (some token)
      → token ≢ ""
      → attach_verified jose env trust_proxy request token app ≡ (ok (in_context context), app')
      → Verified request app context
  unfolding attach_verified lift pure
  attach_verified-eq-ok request token app app' context found filled h =
      bind_returned _ _ h λ key v one rest. bind_returned _ _ rest λ verified u two last.
        let accepted : verify_session_token jose token key ≡ ok verified = ap (λ o. o.0) two in
        let answer = ap (λ o. o.0) last in
        let loaded = ap (λ o. o.0) one in
        (token, key, verified, found, filled, loaded, accepted, cc)

  attach_token_keeps :
      (request : Request) (token : Option String) (app : App W PrivateKey PublicKey)
      → (attach_token jose env trust_proxy request token app).1.world ≡ app.world
  unfolding attach_token attach_verified lift pure
  attach_token_keeps request none app = refl
  attach_token_keeps request (some token) app =
      if_keeps (λ (a : App W PrivateKey PublicKey). a.world) (truthy token) _ _
        (bind_keeps (λ (a : App W PrivateKey PublicKey). a.world) _ _ (λ w. refl)
          (λ key.
            bind_keeps (λ (a : App W PrivateKey PublicKey). a.world) _ _ (λ w. refl) (λ c w. refl)))
        (λ w. refl) app

  -- The middleware never throws: whatever becomes of the token, the next handler is called, and the
  -- world behind the driver is as it was.
  pub attach_context-total :
      (request : Request) (app : App W PrivateKey PublicKey)
      → (next : Next) × ((attach_context jose env trust_proxy request app).0 ≡ ok next)
        × ((attach_context jose env trust_proxy request app).1.world ≡ app.world)
  unfolding attach_context lift pure
  attach_context-total request app =
      let (next, called) =
        (Quiet-catch
            (lift (extract_session_token request) >>= attach_token jose env trust_proxy request)
            (λ e. pure (failed e)) (λ e. Quiet-pure (failed e))).returns
          app in
      (
        next,
        called,
        catch_keeps (λ (a : App W PrivateKey PublicKey). a.world) _ _
            (bind_keeps (λ (a : App W PrivateKey PublicKey). a.world) _ _ (λ w. refl)
              (attach_token_keeps request))
            (λ e w. refl) app,
      )

  -- A context that was attached is verified.
  pub attach_context-in_context :
      (request : Request) (app app' : App W PrivateKey PublicKey) (context : AuthContext)
      → attach_context jose env trust_proxy request app ≡ (ok (in_context context), app')
      → Verified request app context
  unfolding attach_context attach_token try_catch ◌>>=◌ lift pure
  attach_context-in_context request app app' context h = go (extract_session_token request) refl h
    where
      caught :
          (o : Result Next × App W PrivateKey PublicKey)
          → recover o.0 (λ e. pure (failed e)) o.1 ≡ (ok (in_context context), app')
          → o ≡ (ok (in_context context), app')
      caught (ok n, v) k = k
      caught (err e, v) k = absurd (cc)

      go :
          (r : Result (Option String))
          → extract_session_token request ≡ r
          → try_catch
              (lift r >>= attach_token jose env trust_proxy request)
              (λ e. pure (failed e))
              app
            ≡ (ok (in_context context), app')
          → Verified request app context
      go (err e) found k = absurd (cc)
      go (ok none) found k = absurd (cc)
      go (ok (some token)) found k = elim (Bool-cases (truthy token)) [
        | inl filled ↦
            attach_verified-eq-ok request token app app' context found (truthy-ne token filled)
              (caught _ (rw filled at k))
        | inr empty ↦ absurd (cc (rw empty at k))
      ]

  pub Verified-attached :
      (request : Request) (app : App W PrivateKey PublicKey) (context : AuthContext)
      → Verified request app context
      → (attach_context jose env trust_proxy request app).0 ≡ ok (in_context context)
  unfolding attach_context attach_token attach_verified try_catch lift pure
  Verified-attached request app context
        (token, key, verified, found, filled, loaded, accepted, same) =
      let cache = (get_key (load_verification_key jose env) app.verification_key).1 in
      let held = record app { verification_key = cache } in
      let got : on_verification_key (get_key (load_verification_key jose env)) app
          ≡ (ok key, held) =
        ap (λ o. (o.0, record app { verification_key = o.1 }))
          (paired (get_key (load_verification_key jose env) app.verification_key) loaded) in
      let attached : attach_token jose env trust_proxy request (some token) app
          ≡ (ok (in_context context), held) =
        ap (λ b. (if b then attach_verified jose env trust_proxy request token else pure plain) app)
          (ne-truthy token filled)
        ∙ bind-ok _ _ got
        ∙ bind-ok _ _ (ap (λ r. (r, held)) accepted)
        ∙ ap (λ c. (ok (in_context c), held)) (sym same) in
      ap (λ o. (recover o.0 (λ e. pure (failed e)) o.1).0)
        (bind-ok _ _ (ap (λ r. (r, app)) found) ∙ attached)

  -- A request is served in a context exactly if it carries a token that is not empty and that the
  -- verification key, cached or loaded, accepts, and the context is the token's with the source
  -- address of the request.
  pub attach_context-Verified :
      (request : Request) (app : App W PrivateKey PublicKey) (context : AuthContext)
      → ((attach_context jose env trust_proxy request app).0 ≡ ok (in_context context))
        ↔ Verified request app context
  attach_context-Verified request app context = (
    λ h.
        attach_context-in_context request app (attach_context jose env trust_proxy request app).1
          context (paired (attach_context jose env trust_proxy request app) h),
    Verified-attached request app context,
  )

-- ===== src/Auth/Login/Session.antt =====
-- auth.controller.ts: the session that a login hands out.
use oc.Base.{ℕ, String, none, ◌≡◌, ap, sym, ◌∙◌, ◌≢◌}
use oc.Base.Exec.{ok, pure, lift}
use oc.Base.Exec.Laws.{bind_returned, paired}
use oc.Contracts.{AuthContext, LoginResponse, includes_super_admin}
use oc.Database.{SqlDriver}
use oc.Auth.Jose.{Jose, IsKeyPair}
use oc.Auth.Token.{session_payload, verify_session_token}
use oc.Auth.Keys.{KeyEnv, KeyCache, get_key, load_signing_key, issue}
use oc.Auth.App.{App}
use oc.Auth.Hardened.{verify_session_token-issue}
use oc.Auth.Login.{Body, LoginReply, login}

-- the context of an authority's own session
abbrev pub session_context : LoginResponse → AuthContext
session_context authority = record {
  user_id = authority.user_id;
  company_id = none;
  roles = authority.roles;
  is_super_admin = includes_super_admin authority.roles;
  source_ip = none;
}

module _ {W PrivateKey PublicKey : Type 0} (sha256 : String → String)
    (jose : Jose PrivateKey PublicKey) (env : KeyEnv) (driver : SqlDriver W) where
  issued :
      (authority : LoginResponse) (now : ℕ) (cache : KeyCache PrivateKey) (token : String)
      (private_key : PrivateKey)
      → (get_key (load_signing_key jose env) cache).0 ≡ ok private_key
      → (issue jose env authority now cache).0 ≡ ok token
      → jose.sign (session_payload authority) now private_key ≡ ok token
  unfolding issue lift
  issued authority now cache token private_key loaded h =
      bind_returned _ _ (paired (issue jose env authority now cache) h) λ key v got rest.
        let same : key ≡ private_key = cc (ap (λ o. o.0) got) in
        ap (jose.sign (session_payload authority) now) (sym same) ∙ ap (λ o. o.0) rest

  -- The session token of a login that succeeded is accepted with the key that pairs with the signing
  -- key, cached or loaded, and gives the user and the roles of the login's answer, if the user's id
  -- is not empty.
  pub login-verify_session_token :
      (body : Body) (now : ℕ) (app app' : App W PrivateKey PublicKey) (reply : LoginReply)
      (private_key : PrivateKey) (public_key : PublicKey)
      → login sha256 jose env driver body now app ≡ (ok reply, app')
      → (get_key (load_signing_key jose env) app.signing_key).0 ≡ ok private_key
      → IsKeyPair jose private_key public_key
      → reply.authority.user_id ≢ ""
      → verify_session_token jose reply.session public_key ≡ ok (session_context reply.authority)
  unfolding login lift pure
  login-verify_session_token body now app app' reply private_key public_key h loaded pair named =
      bind_returned _ _ h λ request a₁ parsed k₁. bind_returned _ _ k₁ λ authority a₂ verified k₂.
        bind_returned _ _ k₂ λ token a₃ signed k₃.
          let s₁ : app.signing_key ≡ a₁.signing_key = ap (λ o. o.1.signing_key) parsed in
          let s₂ : a₁.signing_key ≡ a₂.signing_key = ap (λ o. o.1.signing_key) verified in
          let key = ap (λ c. (get_key (load_signing_key jose env) c).0) (sym (s₁ ∙ s₂)) ∙ loaded in
          let who : authority ≡ reply.authority = cc (ap (λ o. o.0) k₃) in
          let what : token ≡ reply.session = cc (ap (λ o. o.0) k₃) in
          let given =
            issued authority now a₂.signing_key token private_key key (ap (λ o. o.0) signed) in
          verify_session_token-issue jose pair reply.authority now reply.session named
            (ap (λ a. jose.sign (session_payload a) now private_key) (sym who) ∙ given ∙ ap ok what)

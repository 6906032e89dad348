-- ===== src/Tenant/Middleware/Cookie.antt =====
-- The session cookie from the login back through the middleware.
use oc.Base.{ℕ, String, Option, none, some, Bool, true, false, not, ◌&&◌, [], ◌∷◌}
use oc.Base.{◌≡◌, refl, ap, ◌∙◌, ◌≢◌, arith, eqb}
use Prim.Native.Char.{Char, code}
use Prim.Native.String.{[], ◌∷◌, ◌++◌}
use text.Mathlib.TextLemmas.{nil-append, cons-append}
use oc.Base.Text.{truthy, is_space, trim, trim_start, trim_end, split}
use oc.Base.Text.Prefix.{strip_prefix-append}
use oc.Base.Exec.{ok}
use oc.Database.{SqlDriver}
use oc.Auth.Jose.{Jose, IsKeyPair}
use oc.Auth.Keys.{KeyEnv, get_key, load_signing_key, load_verification_key}
use oc.Auth.App.{App}
use oc.Auth.Login.{Body, LoginReply, login}
use oc.Auth.Login.Session.{session_context, login-verify_session_token}
use oc.Tenant.Middleware.{
  Request, in_context, find_session, cookie_token, extract_session_token, resolve_source_ip,
  attach_context,
}
use oc.Tenant.Middleware.Authority.{Verified-attached}

-- a text without white space and semicolons, as a token is
abbrev pub is_cookie_text : String → Bool
is_cookie_text [] = true
is_cookie_text (c ∷ s) = not (is_space (code c)) && not (eqb (code c) b';') && is_cookie_text s

module _ (c : Char) (s : String) (h : is_cookie_text (c ∷ s) ≡ true) where
  no_space : is_space (code c) ≡ false
  no_space = ground arith

  no_semicolon : eqb (code c) b';' ≡ false
  no_semicolon = ground arith

  cookie_rest : is_cookie_text s ≡ true
  cookie_rest = ground arith

is_cookie_text-append :
    (s t : String)
    → is_cookie_text s ≡ true
    → is_cookie_text t ≡ true
    → is_cookie_text (s ++ t) ≡ true
is_cookie_text-append [] t h k = rw (nil-append t) k
is_cookie_text-append (c ∷ s) t h k =
    rw (cons-append c s t, no_space c s h, no_semicolon c s h)
      (is_cookie_text-append s t (cookie_rest c s h) k)

split_whole : (s : String) → is_cookie_text s ≡ true → split b';' s ≡ s ∷ []
unfolding split
split_whole [] h = refl
split_whole (c ∷ s) h = rw (no_semicolon c s h, split_whole s (cookie_rest c s h)) refl

trim_start_whole : (s : String) → is_cookie_text s ≡ true → trim_start s ≡ s
unfolding trim_start
trim_start_whole [] h = refl
trim_start_whole (c ∷ s) h = rw (no_space c s h) refl

trim_end_whole : (s : String) → is_cookie_text s ≡ true → trim_end s ≡ s
unfolding trim_end
trim_end_whole [] h = refl
trim_end_whole (c ∷ []) h = rw (no_space c [] h) refl
trim_end_whole (c ∷ d ∷ s) h = rw (trim_end_whole (d ∷ s) (cookie_rest c (d ∷ s) h)) refl

trim_whole : (s : String) → is_cookie_text s ≡ true → trim s ≡ s
unfolding trim
trim_whole s h = ap trim_end (trim_start_whole s h) ∙ trim_end_whole s h

-- the header that a browser sends for the cookie
abbrev pub cookie_header : String → String
cookie_header token = "session=" ++ token

header_text :
    (token : String) → is_cookie_text token ≡ true → is_cookie_text (cookie_header token) ≡ true
unfolding is_space
header_text token h = is_cookie_text-append "session=" token refl h

header_filled : (token : String) → truthy (cookie_header token) ≡ true
header_filled token = ap truthy (cons-append "s" "ession=" token)

cookie_token-cookie_header :
    (token : String)
    → is_cookie_text token ≡ true
    → cookie_token (some (cookie_header token)) ≡ some token
unfolding cookie_token find_session
cookie_token-cookie_header token h =
    rw
      (
        header_filled token,
        split_whole (cookie_header token) (header_text token h),
        trim_whole (cookie_header token) (header_text token h),
      )
      (ap (λ o. elim o [ some v ↦ some v | none ↦ none ]) (strip_prefix-append "session=" token))

-- a request with the cookie and no other credentials
abbrev pub WithCookie : Request → String → Type 0
WithCookie request token =
    (request.authorization ≡ none) × (request.cookie ≡ some (cookie_header token))

WithCookie-extract :
    (request : Request) (token : String)
    → WithCookie request token
    → is_cookie_text token ≡ true
    → extract_session_token request ≡ ok (some token)
unfolding extract_session_token
WithCookie-extract request token (bare, sent) h =
    rw (bare, sent) (ap ok (cookie_token-cookie_header token h))

module _ {W PrivateKey PublicKey : Type 0} (sha256 : String → String)
    (jose : Jose PrivateKey PublicKey) (env : KeyEnv) (driver : SqlDriver W)
    (trust_proxy : Option String) where
  -- After a login that succeeded, a request without an Authorization header, whose Cookie header
  -- holds the session cookie and nothing else, is served in a context with the user and the roles
  -- of the login's answer and with the source address of the request, if the verification key,
  -- cached or loaded, pairs with the signing key, the user's id and the token are not empty, and
  -- the token is a text that a cookie can hold.
  pub attach_context-login :
      (body : Body) (now : ℕ) (app app' later : App W PrivateKey PublicKey) (reply : LoginReply)
      (private_key : PrivateKey) (public_key : PublicKey) (request : Request)
      → login sha256 jose env driver body now app ≡ (ok reply, app')
      → (get_key (load_signing_key jose env) app.signing_key).0 ≡ ok private_key
      → (get_key (load_verification_key jose env) later.verification_key).0 ≡ ok public_key
      → IsKeyPair jose private_key public_key
      → reply.authority.user_id ≢ ""
      → reply.session ≢ ""
      → is_cookie_text reply.session ≡ true
      → WithCookie request reply.session
      → (attach_context jose env trust_proxy request later).0
        ≡ ok (
            in_context (record (session_context reply.authority) {
              source_ip = resolve_source_ip trust_proxy request;
            }))
  attach_context-login body now app app' later reply private_key public_key request h signs verifies
        pair named filled text sent =
      Verified-attached jose env trust_proxy request later _ (
        reply.session,
        public_key,
        session_context reply.authority,
        WithCookie-extract request reply.session sent text,
        filled,
        verifies,
        login-verify_session_token sha256 jose env driver body now app app' reply private_key
            public_key h signs pair named,
        refl,
      )

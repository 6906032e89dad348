-- ===== src/Tenant/Middleware.antt =====
-- apps/api/src/tenant/tenant-context.middleware.ts, and how app.module.ts puts it before every route
pub mod Authority
pub mod Cookie
use oc.Base.{String, Option, some, none, Bool, false, List, [], ◌∷◌, map, ◌==◌}
use oc.Base.{if◌then◌else◌}
use oc.Base.Text.{trim, split, strip_prefix, truthy}
use oc.Base.Exec.{Exec, Result, Failure, ok, err, unauthorized, pure, throw, lift, try_catch, ◌>>=◌}
use oc.Contracts.{AuthContext}
use oc.Auth.Jose.{Jose}
use oc.Auth.Token.{verify_session_token}
use oc.Auth.Keys.{KeyEnv, get_key, load_verification_key}
use oc.Auth.App.{App, on_verification_key}
use oc.Tenant.Context.{run}

-- The headers that are read, and the peer's address
pub record Request : Type 0 where
  pub authorization : Option String
  pub cookie : Option String
  pub x_forwarded_for : Option String
  pub ip : Option String

-- How `next` is called: with nothing, under a context, or with an error.
pub data Next : Type 0 where
  plain : Next
  in_context : AuthContext → Next
  failed : Failure → Next

-- `.find((cookie) => cookie.startsWith("session="))?.slice("session=".length)`
unfoldable pub find_session : List String → Option String
find_session [] = none
find_session (c ∷ cs) =
    let rest = find_session cs in elim (strip_prefix "session=" c) [ some v ↦ some v | none ↦ rest ]

-- what `cookies` holds, if it is not missing or empty
unfoldable pub cookie_token : Option String → Option String
cookie_token none = none
cookie_token (some cookies) =
    if truthy cookies then find_session (map trim (split b';' cookies)) else none

abbrev bearer_token : String → Result (Option String)
bearer_token token =
    if truthy token then ok (some token) else err (unauthorized "Bearer token is empty.")

abbrev token_from : Option String → Option String → Result (Option String)
token_from none cookie = ok (cookie_token cookie)
token_from (some rest) cookie = bearer_token (trim rest)

abbrev bearer_prefix : Option String → Option String
bearer_prefix none = none
bearer_prefix (some authorization) = strip_prefix "Bearer " authorization

unfoldable pub extract_session_token : Request → Result (Option String)
unfolding cookie_token find_session
extract_session_token request = token_from (bearer_prefix request.authorization) request.cookie

-- `.find(Boolean)`
unfoldable pub find_filled : List String → Option String
find_filled [] = none
find_filled (s ∷ ss) = let rest = find_filled ss in if truthy s then some s else rest

-- `header(request, name)`, for the value that the request has under the name
unfoldable pub header : Option String → Option String
header none = none
header (some value) = if truthy value then some value else none

-- `?.split(",").map((value) => value.trim()).find(Boolean)`
unfoldable pub forwarded : Option String → Option String
unfolding find_filled
forwarded none = none
forwarded (some value) = find_filled (map trim (split b',' value))

abbrev or_peer : Option String → Option String → Option String
or_peer (some forwarded_for) ip = some forwarded_for
or_peer none ip = ip

abbrev trusts : Option String → Bool
trusts none = false
trusts (some v) = v == "true"

-- The variable TRUST_PROXY_X_FORWARDED_FOR comes first.
unfoldable pub resolve_source_ip : Option String → Request → Option String
unfolding forwarded header
resolve_source_ip trust_proxy request =
    if trusts trust_proxy
    then or_peer (forwarded (header request.x_forwarded_for)) request.ip
    else request.ip

module _ {W PrivateKey PublicKey : Type 0} (jose : Jose PrivateKey PublicKey) (env : KeyEnv)
    (trust_proxy : Option String) where
  unfoldable pub attach_verified : Request → String → Exec (App W PrivateKey PublicKey) Next
  attach_verified request token = do
    key ← on_verification_key (get_key (load_verification_key jose env))
    verified_context ← lift (verify_session_token jose token key)
    pure
        (in_context (record verified_context { source_ip = resolve_source_ip trust_proxy request }))

  -- what follows the extraction: `!token` holds of a missing and of an empty token
  unfoldable pub attach_token : Request → Option String → Exec (App W PrivateKey PublicKey) Next
  unfolding attach_verified
  attach_token request none = pure plain
  attach_token request (some token) =
      if truthy token then attach_verified request token else pure plain

  unfoldable pub attach_context : Request → Exec (App W PrivateKey PublicKey) Next
  unfolding attach_token
  attach_context request =
      try_catch (lift (extract_session_token request) >>= attach_token request)
        (λ e. pure (failed e))

  -- A route's handler behind the middleware: an error of `next` is the response.
  abbrev pub continue_with :
      {A : Type 0}
      → (Option AuthContext → Exec (App W PrivateKey PublicKey) A)
      → Next
      → Exec (App W PrivateKey PublicKey) A
  continue_with handler plain = handler none
  continue_with handler (in_context context) = run context handler
  continue_with handler (failed e) = throw e

  unfoldable pub serve :
      {A : Type 0}
      → Request
      → (Option AuthContext → Exec (App W PrivateKey PublicKey) A)
      → Exec (App W PrivateKey PublicKey) A
  unfolding run
  serve request handler = attach_context request >>= continue_with handler

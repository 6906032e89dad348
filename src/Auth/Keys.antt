-- ===== src/Auth/Keys.antt =====
-- apps/api/src/auth/session-token-issuer.service.ts and session-verification-key.service.ts: the keys
-- that are loaded at their first use, and what is done with them.
pub mod Sticky
use oc.Base.{ℕ, String, Option, some, none, ◌&&◌, eqb, if◌then◌else◌}
use Prim.Native.Char.{code}
use Prim.Native.String
use Prim.Native.String.{[], ◌∷◌}
use oc.Base.Text.{truthy}
use oc.Base.Exec.{Exec, Result, err, unauthorized, pure, lift, ◌>>=◌, ◌>>◌}
use oc.Contracts.{LoginResponse}
use oc.Auth.Jose.{Jose}
use oc.Auth.Token.{session_payload, probe_payload}

-- The two variables of `process.env` that hold keys
pub record KeyEnv : Type 0 where
  pub auth_session_private_key : Option String
  pub auth_session_public_key : Option String

-- `text.replace(/\\n/g, "\n")`: a backslash before an n is a line break.
unfoldable pub unescape_newlines : String → String
unescape_newlines [] = []
unescape_newlines (c ∷ []) = c ∷ []
unescape_newlines (c ∷ d ∷ s) =
    let joined = String.◌++◌ "\n" (unescape_newlines s) in
    let kept = c ∷ unescape_newlines (d ∷ s) in
    if eqb (code c) 0x5c && eqb (code d) b'n' then joined else kept

-- `cachedKey`, a promise: what the first call loaded, or how it failed, is what every call gets.
abbrev pub KeyCache : Type 0 → Type 0
KeyCache Key = Option (Result Key)

abbrev cached : {Key : Type 0} → KeyCache Key → Result Key → Result Key × KeyCache Key
cached (some r) load = (r, some r)
cached none load = (load, some load)

unfoldable pub get_key : {Key : Type 0} → Result Key → Exec (KeyCache Key) Key
get_key load cache = cached cache load

-- `loadKey`, of both services
abbrev load_key : {Key : Type 0} → (String → Result Key) → String → Option String → Result Key
load_key import_key message none = err (unauthorized message)
load_key import_key message (some configured) =
    if truthy configured
    then import_key (unescape_newlines configured)
    else err (unauthorized message)

module _ {PrivateKey PublicKey : Type 0} (jose : Jose PrivateKey PublicKey) (env : KeyEnv) where
  unfoldable pub load_signing_key : Result PrivateKey
  unfolding unescape_newlines
  load_signing_key =
      load_key jose.import_pkcs8 "Session signing key is not configured."
        env.auth_session_private_key

  unfoldable pub load_verification_key : Result PublicKey
  unfolding unescape_newlines
  load_verification_key =
      load_key jose.import_spki "Session verification key is not configured."
        env.auth_session_public_key

  -- `issue(authority)`, at a time
  unfoldable pub issue : LoginResponse → ℕ → Exec (KeyCache PrivateKey) String
  issue authority now = do
    key ← get_key load_signing_key
    lift (jose.sign (session_payload authority) now key)

  unfoldable pub assert_ready : Exec (KeyCache PrivateKey) (Unit {0})
  assert_ready = do get_key load_signing_key; pure tt

  unfoldable pub assert_compatible_with : PublicKey → ℕ → Exec (KeyCache PrivateKey) (Unit {0})
  assert_compatible_with verification_key now = do
    key ← get_key load_signing_key
    probe_token ← lift (jose.sign probe_payload now key)
    lift (jose.jwt_verify probe_token verification_key)
    pure tt

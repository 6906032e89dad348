-- ===== src/Auth/Token.antt =====
-- apps/api/src/auth/token-validator.service.ts, and what session-token-issuer.service.ts signs
use oc.Base.{ℕ, String, Option, some, none, Bool, true, false, List, [], ◌∷◌, ◌==◌, not, ltb, eqb}
use oc.Base.{length, if◌then◌else◌}
use oc.Base.Text.{split, truthy}
use oc.Base.Exec.{Result, ok, err, unauthorized}
use oc.Contracts.{AuthContext, LoginResponse, RoleCode, includes_super_admin}
use oc.Auth.Jose.{Payload, ProtectedHeader, Jose}

-- `Result` as the monad of code that touches no state
infixl 10 ◌>>=◌ ◌>>◌
abbrev pub ◌>>=◌ : {A B : Type 0} → Result A → (A → Result B) → Result B
ok a >>= f = f a
err e >>= f = err e

abbrev pub ◌>>◌ : {A B : Type 0} → Result A → Result B → Result B
m >> n = m >>= λ _. n

-- ACCEPTED_ALGORITHMS has one entry.
abbrev pub accepted_algorithm : String
accepted_algorithm = "RS256"

abbrev pub max_accepted_p2c : ℕ
max_accepted_p2c = 999

abbrev pub is_alg : String → Option String → Bool
is_alg a none = false
is_alg a (some b) = b == a

abbrev exceeds_p2c : Option ℕ → Bool
exceeds_p2c none = false
exceeds_p2c (some n) = ltb max_accepted_p2c n

unfoldable pub check_header : ProtectedHeader → Result (Unit {0})
check_header header =
    if is_alg "none" header.alg
    then err (unauthorized "Unsecured tokens are rejected.")
    else if not (is_alg accepted_algorithm header.alg)
    then err (unauthorized "Token algorithm is not allowlisted.")
    else if header.has_zip
    then err (unauthorized "Compressed tokens are rejected.")
    else if exceeds_p2c header.p2c
    then err (unauthorized "Token p2c exceeds accepted bound.")
    else ok tt

-- `payload.role ? [payload.role] : []`
abbrev single_role : Option RoleCode → List RoleCode
single_role none = []
single_role (some r) = r ∷ []

abbrev payload_roles : Option (List RoleCode) → Option RoleCode → List RoleCode
payload_roles (some rs) role = rs
payload_roles none role = single_role role

abbrev pub context_of : String → Payload → AuthContext
context_of user_id payload =
    let roles = payload_roles payload.roles payload.role in
    record {
      user_id = user_id;
      company_id = payload.company_id;
      roles = roles;
      is_super_admin = includes_super_admin roles;
      source_ip = none;
    }

abbrev pub with_subject : Option String → Payload → Result AuthContext
with_subject none payload = err (unauthorized "Session token is missing subject.")
with_subject (some user_id) payload =
    if truthy user_id
    then ok (context_of user_id payload)
    else err (unauthorized "Session token is missing subject.")

-- what `issue` signs
abbrev pub session_payload : LoginResponse → Payload
session_payload authority = record {
  sub = some authority.user_id;
  company_id = none;
  roles = some authority.roles;
  role = none;
  readiness = false;
}

-- what `assertCompatibleWith` signs
abbrev pub probe_payload : Payload
probe_payload = record {
  sub = some "session-readiness-probe";
  company_id = none;
  roles = none;
  role = none;
  readiness = true;
}

module _ {PrivateKey PublicKey : Type 0} (jose : Jose PrivateKey PublicKey) where
  unfoldable pub assert_protected_header : String → Result (Unit {0})
  assert_protected_header token =
      if not (eqb (length (split b'.' token)) 3)
      then err (unauthorized "Only compact JWS tokens are accepted.")
      else jose.decode_protected_header token >>= check_header

  unfoldable pub verify_session_token : String → PublicKey → Result AuthContext
  verify_session_token token key =
      assert_protected_header token
      >> (jose.jwt_verify token key >>= λ payload. with_subject payload.sub payload)

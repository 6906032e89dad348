-- ===== src/Sample/Signing.antt =====
-- A stand-in for jose that signs two payloads: the session of the root user, and the probe.
use oc.Base.{
  String, none, some, false, true, Bool, [], ◌∷◌, ◌≡◌, refl, length, List, Option, ◌==◌,
  if◌then◌else◌, Bool-cases, inl, inr, eq_iff,
}
use oc.Base.Text.{split}
use oc.Base.Exec.{Result, ok, err, other}
use oc.Contracts.{LoginResponse, RoleCode, super_admin}
use oc.Auth.Jose.{Jose, Payload, ProtectedHeader, IsKeyPair, rs256}
use oc.Auth.Token.{session_payload, probe_payload}
use oc.Auth.Keys.{KeyEnv}

abbrev pub session_token : String
session_token = "h.session.s"

abbrev pub probe_token : String
probe_token = "h.probe.s"

abbrev pub root_authority : LoginResponse
root_authority = record { user_id = "root"; roles = super_admin ∷ []; is_super_admin = true }

-- the token of a payload, by its claims
abbrev pub token_of :
    (sub company_id : Option String)
    → Option (List RoleCode)
    → Option RoleCode
    → Bool
    → Option String
token_of (some u) none (some (super_admin ∷ [])) none false =
    if u == "root" then some session_token else none
token_of (some u) none none none true =
    if u == "session-readiness-probe" then some probe_token else none
token_of _ _ _ _ _ = none

abbrev pub payload_of : String → Result Payload
payload_of token =
    if token == session_token
    then ok (session_payload root_authority)
    else if token == probe_token
    then ok probe_payload
    else err (other "signature verification failed")

abbrev pub signed : Option String → Result String
signed none = err (other "the sample does not sign this")
signed (some token) = ok token

abbrev pub header_of : String → Result ProtectedHeader
header_of token = ok rs256

-- keys are any texts
abbrev pub jose : Jose (Unit {0}) (Unit {0})
jose = record {
  import_pkcs8 = λ text. ok tt;
  import_spki = λ text. ok tt;
  decode_protected_header = header_of;
  jwt_verify = λ token key. payload_of token;
  sign = λ p now key. signed (token_of p.sub p.company_id p.roles p.role p.readiness);
}

abbrev pub key_env : KeyEnv
key_env = record {
  auth_session_private_key = some "private";
  auth_session_public_key = some "public";
}

-- a token that was signed is one of the two, and its payload is known
abbrev pub Known : Payload → String → Type 0
Known p token = (length (split b'.' token) ≡ 3) × (payload_of token ≡ ok p)

pub signed-Known :
    (sub company_id : Option String) (roles : Option (List RoleCode)) (role : Option RoleCode)
    (readiness : Bool) (token : String)
    → signed (token_of sub company_id roles role readiness) ≡ ok token
    → Known
        (record {
          sub = sub;
          company_id = company_id;
          roles = roles;
          role = role;
          readiness = readiness;
        })
        token
unfolding split
signed-Known (some u) none (some (super_admin ∷ [])) none false token h =
    elim (Bool-cases (u == "root")) [
      | inl same ↦
          let e : session_token ≡ token = cc (rw same at h) in
          let n = (eq_iff u "root").0 same in rw (← e, n) (refl, refl)
      | inr differs ↦ absurd (cc (rw differs at h))
    ]
signed-Known (some u) none none none true token h =
    elim (Bool-cases (u == "session-readiness-probe")) [
      | inl same ↦
          let e : probe_token ≡ token = cc (rw same at h) in
          let n = (eq_iff u "session-readiness-probe").0 same in rw (← e, n) (refl, refl)
      | inr differs ↦ absurd (cc (rw differs at h))
    ]
signed-Known _ _ _ _ _ token h = cc

pub pair : IsKeyPair jose tt tt
pair = record {
  is_compact =
      λ p now token h. (signed-Known p.sub p.company_id p.roles p.role p.readiness token h).0;
  decodes = λ p now token h. refl;
  verifies =
      λ p now token h. (signed-Known p.sub p.company_id p.roles p.role p.readiness token h).1;
}

-- ===== src/Auth/Jose.antt =====
-- What apps/api/src/auth calls of the package jose, as an interface: tokens are texts, and keys are
-- of two types that nothing looks into.
use oc.Base.{ℕ, String, Option, some, none, Bool, false, List, ◌≡◌, length}
use oc.Base.Text.{split}
use oc.Base.Exec.{Result, ok}
use oc.Contracts.{RoleCode}

-- The claims of a payload that the code sets or reads; `SessionClaims` of token-validator.service.ts
-- are the first four.
pub record Payload : Type 0 where
  pub sub : Option String
  pub company_id : Option String
  pub roles : Option (List RoleCode)
  pub role : Option RoleCode
  pub readiness : Bool

-- A decoded protected header: `alg` where it is a text, whether `zip` is a key, and `p2c` where it is
-- a number, as the least natural number that is not below it.
pub record ProtectedHeader : Type 0 where
  pub alg : Option String
  pub has_zip : Bool
  pub p2c : Option ℕ

pub record Jose (PrivateKey PublicKey : Type 0) : Type 0 where
  -- `importPKCS8(text, "RS256")` and `importSPKI(text, "RS256")`
  pub import_pkcs8 : String → Result PrivateKey
  pub import_spki : String → Result PublicKey
  pub decode_protected_header : String → Result ProtectedHeader
  -- `jwtVerify(token, key, { algorithms: ["RS256"] })`
  pub jwt_verify : String → PublicKey → Result Payload
  -- `new SignJWT(payload).setProtectedHeader({ alg: "RS256" }).setIssuedAt().sign(key)`, at a time
  pub sign : Payload → ℕ → PrivateKey → Result String

abbrev pub rs256 : ProtectedHeader
rs256 = record { alg = some "RS256"; has_zip = false; p2c = none }

-- The documented behaviour on a pair of keys: what one signs, in the compact serialisation, the other
-- verifies and hands back.
pub record IsKeyPair {PrivateKey PublicKey : Type 0} (jose : Jose PrivateKey PublicKey)
    (private_key : PrivateKey) (public_key : PublicKey) : Type 0 where
  pub is_compact :
      (p : Payload) (now : ℕ) (token : String)
      → jose.sign p now private_key ≡ ok token
      → length (split b'.' token) ≡ 3
  pub decodes :
      (p : Payload) (now : ℕ) (token : String)
      → jose.sign p now private_key ≡ ok token
      → jose.decode_protected_header token ≡ ok rs256
  pub verifies :
      (p : Payload) (now : ℕ) (token : String)
      → jose.sign p now private_key ≡ ok token
      → jose.jwt_verify token public_key ≡ ok p

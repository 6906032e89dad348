-- ===== src/Auth/Hardened.antt =====
-- token-validator.service.ts: which tokens are accepted, and that the issuer's are.
use oc.Base.{
  Option-cases, inl, inr, ℕ, String, Option, some, none, Bool, false, ◌≡◌, refl, ap, ◌↔◌, ◌≢◌, ◌≤◌,
  arith, eq_iff, length,
}
use oc.Base.{Bool-cases, sym, ◌∙◌}
use oc.Base.Text.{split, truthy}
use oc.Base.Text.Truthy.{truthy-ne, ne-truthy}
use oc.Base.Exec.{Result, ok, err}
use oc.Contracts.{AuthContext, LoginResponse, includes_super_admin}
use oc.Auth.Jose.{Payload, ProtectedHeader, Jose, IsKeyPair, rs256}
use oc.Auth.Token.{
  with_subject, ◌>>=◌, check_header, context_of, session_payload, assert_protected_header,
  verify_session_token,
}

-- The contract of a session token's header: RS256, not compressed, and a bounded `p2c`.
pub record IsHardened (header : ProtectedHeader) : Type 0 where
  pub algorithm : header.alg ≡ some "RS256"
  pub not_compressed : header.has_zip ≡ false
  pub bounded : (n : ℕ) → header.p2c ≡ some n → n ≤ 999

IsHardened-from :
    (alg : Option String) (has_zip : Bool) (p2c : Option ℕ)
    → check_header (record { alg = alg; has_zip = has_zip; p2c = p2c }) ≡ ok tt
    → IsHardened (record { alg = alg; has_zip = has_zip; p2c = p2c })
unfolding check_header
IsHardened-from none has_zip p2c h = absurd (ground arith)
IsHardened-from (some a) has_zip p2c h = record {
  algorithm = ground (arith, eq_iff a "RS256");
  not_compressed = ground arith;
  bounded = λ n e. ground arith;
}

check_header_complete : (header : ProtectedHeader) → IsHardened header → check_header header ≡ ok tt
unfolding check_header
check_header_complete header h = elim (Option-cases header.p2c) [
  | inl missing ↦ rw (h.algorithm, h.not_compressed, missing)
  | inr (n, given) ↦ rw (h.algorithm, h.not_compressed, given) (ground (arith, h.bounded n given))
]

bind-eq-ok :
    {A B : Type 0} (r : Result A) (f : A → Result B) {b : B}
    → (r >>= f) ≡ ok b
    → (a : A) × (r ≡ ok a) × (f a ≡ ok b)
bind-eq-ok (ok a) f h = (a, refl, h)
bind-eq-ok (err e) f h = absurd (cc)

with_subject-eq-ok :
    (sub : Option String) (payload : Payload) (context : AuthContext)
    → with_subject sub payload ≡ ok context
    → (user_id : String) × (sub ≡ some user_id)
      × (user_id ≢ "")
      × (context ≡ context_of user_id payload)
with_subject-eq-ok none payload context h = absurd (cc)
with_subject-eq-ok (some u) payload context h = elim (Bool-cases (truthy u)) [
  | inl filled ↦ (u, refl, truthy-ne u filled, ground arith)
  | inr empty ↦ absurd (ground arith)
]

module _ {PrivateKey PublicKey : Type 0} (jose : Jose PrivateKey PublicKey) where
  -- A protected header is let through exactly if the token has three parts and its header decodes to
  -- one that is signed with RS256, not compressed and bounded in `p2c`.
  pub assert_protected_header-IsHardened :
      (token : String)
      → (assert_protected_header jose token ≡ ok tt) ↔ (
          (length (split b'.' token) ≡ 3)
          × ((header : ProtectedHeader) × (jose.decode_protected_header token ≡ ok header)
              × IsHardened header))
  unfolding assert_protected_header
  assert_protected_header-IsHardened token = (to, from)
    where
      to :
          assert_protected_header jose token ≡ ok tt
          → (length (split b'.' token) ≡ 3)
            × ((header : ProtectedHeader) × (jose.decode_protected_header token ≡ ok header)
                × IsHardened header)
      to h =
          let three : length (split b'.' token) ≡ 3 = ground arith in
          let rest : (jose.decode_protected_header token >>= check_header) ≡ ok tt = ground arith in
          let (header, decoded, passed) = bind-eq-ok _ _ rest in
          (three, (header, decoded, IsHardened-from header.alg header.has_zip header.p2c passed))

      from :
          (length (split b'.' token) ≡ 3)
            × ((header : ProtectedHeader) × (jose.decode_protected_header token ≡ ok header)
                × IsHardened header)
          → assert_protected_header jose token ≡ ok tt
      from (three, (header, decoded, hardened)) =
          rw (three, decoded) (check_header_complete header hardened)

  -- A session token is accepted only if its header is hardened and the key verifies it; the
  -- context's user, who is not empty, and company are the payload's, and it has global authority
  -- exactly where its roles hold super_admin.
  pub verify_session_token-accepted :
      (token : String) (key : PublicKey) (context : AuthContext)
      → verify_session_token jose token key ≡ ok context
      → (payload : Payload) × (jose.jwt_verify token key ≡ ok payload)
        × (payload.sub ≡ some context.user_id)
        × (context.user_id ≢ "")
        × (context.company_id ≡ payload.company_id)
        × (context.is_super_admin ≡ includes_super_admin context.roles)
        × ((header : ProtectedHeader) × (jose.decode_protected_header token ≡ ok header)
            × IsHardened header)
  unfolding verify_session_token
  verify_session_token-accepted token key context h =
      let (_, passed, rest) = bind-eq-ok _ _ h in
      let (payload, verified, named) = bind-eq-ok _ _ rest in
      let (user_id, subject, filled, same) = with_subject-eq-ok _ _ _ named in
      let user : context.user_id ≡ user_id = ap (λ (c : AuthContext). c.user_id) same in
      (
        payload,
        verified,
        subject ∙ ap some (sym user),
        λ e. filled (sym user ∙ e),
        ap (λ (c : AuthContext). c.company_id) same,
        ap (λ (c : AuthContext). c.is_super_admin) same
            ∙ sym (ap (λ (c : AuthContext). includes_super_admin c.roles) same),
        ((assert_protected_header-IsHardened token).0 passed).1,
      )

  module _ {private_key : PrivateKey} {public_key : PublicKey}
      (pair : IsKeyPair jose private_key public_key) where
    -- A token that was signed for an authority whose user id is not empty is accepted with the
    -- matching key of the pair, and gives back that user and those roles, of no company, and
    -- global authority by the same roles.
    pub verify_session_token-issue :
        (authority : LoginResponse) (now : ℕ) (token : String)
        → authority.user_id ≢ ""
        → jose.sign (session_payload authority) now private_key ≡ ok token
        → verify_session_token jose token public_key
          ≡ ok (record {
            user_id = authority.user_id;
            company_id = none;
            roles = authority.roles;
            is_super_admin = includes_super_admin authority.roles;
            source_ip = none;
          })
    unfolding verify_session_token
    verify_session_token-issue authority now token named signed =
        let p = session_payload authority in
        let checked : assert_protected_header jose token ≡ ok tt =
          (assert_protected_header-IsHardened token).1 (
            pair.is_compact p now token signed,
            (
              rs256,
              pair.decodes p now token signed,
              record { algorithm = refl; not_compressed = refl; bounded = λ n e. absurd (cc) },
            ),
          ) in
        rw (checked, pair.verifies p now token signed, ne-truthy authority.user_id named)

-- ===== src/Smoke/Names/Safe.antt =====
-- Which names the check lets through.
use oc.Base.{ℕ, zero, suc, ◌+◌, ◌≤◌, String, Bool, true, false, not, ◌&&◌}
use oc.Base.{◌≡◌, refl, ◌↔◌, ◌⊎◌, inl, inr, arith, eqb, leb, Bool-cases}
use Prim.Native.Char.{Char, code}
use Prim.Native.String.{[], ◌∷◌}
use oc.Base.Exec.{ok}
use oc.Smoke.Names.{
  is_letter, is_name_char, matches_name_rest, matches_name, lower_code, lowers_to, is_system_name,
  assert_safe_database_name,
}

abbrev IsLetter : ℕ → Type 0
IsLetter c = ((0x41 ≤ c) × (c ≤ 0x5a)) ⊎ ((0x61 ≤ c) × (c ≤ 0x7a))

abbrev IsNameChar : ℕ → Type 0
IsNameChar c = IsLetter c ⊎ ((0x30 ≤ c) × (c ≤ 0x39)) ⊎ (c ≡ 0x5f)

abbrev IsNameText : String → Type 0
IsNameText [] = Unit {0}
IsNameText (c ∷ s) = IsNameChar (code c) × IsNameText s

abbrev size : String → ℕ
size [] = 0
size (c ∷ s) = suc (size s)

-- the same text, except that letters may be upper case in the first
abbrev IsCaseOf : String → String → Type 0
IsCaseOf [] [] = Unit {0}
IsCaseOf [] (d ∷ t) = ⊥
IsCaseOf (c ∷ s) [] = ⊥
IsCaseOf (c ∷ s) (d ∷ t) =
    ((code c ≡ code d) ⊎ ((0x41 ≤ code c) × (code c ≤ 0x5a) × (code c + 32 ≡ code d)))
    × IsCaseOf s t

pub data IsSystemName (name : String) : Type 0 where
  is_master : IsCaseOf name "master" → IsSystemName name
  is_model : IsCaseOf name "model" → IsSystemName name
  is_msdb : IsCaseOf name "msdb" → IsSystemName name
  is_tempdb : IsCaseOf name "tempdb" → IsSystemName name

abbrev BeginsWithLetter : String → Type 0
BeginsWithLetter [] = ⊥
BeginsWithLetter (c ∷ s) = IsLetter (code c)

pub record IsSafeName (name : String) : Type 0 where
  pub letter : BeginsWithLetter name
  pub characters : IsNameText name
  pub short : size name ≤ 128
  pub ordinary : ¬ IsSystemName name

is_letter-IsLetter : (c : ℕ) → (is_letter c ≡ true) ↔ IsLetter c
unfolding is_letter
is_letter-IsLetter c = (λ h. ground arith, λ h. ground arith)

is_name_char-IsNameChar : (c : ℕ) → (is_name_char c ≡ true) ↔ IsNameChar c
unfolding is_name_char is_letter
is_name_char-IsNameChar c = (λ h. ground arith, λ h. ground arith)

rest_front :
    (n : ℕ) (c : Char) (s : String)
    → matches_name_rest (suc n) (c ∷ s) ≡ true
    → (is_name_char (code c) ≡ true) × (matches_name_rest n s ≡ true)
unfolding matches_name_rest
rest_front n c s h = ground arith

matches_name_rest-IsNameText :
    (n : ℕ) (s : String) → (matches_name_rest n s ≡ true) ↔ (IsNameText s × (size s ≤ n))
unfolding matches_name_rest
matches_name_rest-IsNameText n [] = (λ h. (tt, omega arith), λ h. refl)
matches_name_rest-IsNameText zero (c ∷ s) = (λ h. absurd (cc), λ h. absurd (omega (arith, h.1)))
matches_name_rest-IsNameText (suc n) (c ∷ s) = (
  λ h.
      let (a, b) = rest_front n c s h in
      let (texts, small) = (matches_name_rest-IsNameText n s).0 b in
      (((is_name_char-IsNameChar (code c)).0 a, texts), omega (arith, small)),
  λ h.
      let (texts, small) = h in
      rw
        (
          (is_name_char-IsNameChar (code c)).1 texts.0,
          (matches_name_rest-IsNameText n s).1 (texts.1, omega (arith, small)),
        )
        refl,
)

-- no upper case letter
abbrev is_lower : String → Bool
is_lower [] = true
is_lower (c ∷ s) = not (leb 0x41 (code c) && leb (code c) 0x5a) && is_lower s

lower_front :
    (c : Char) (s : String)
    → is_lower (c ∷ s) ≡ true
    → (not (leb 0x41 (code c) && leb (code c) 0x5a) ≡ true) × (is_lower s ≡ true)
lower_front c s h = ground arith

case_front :
    (c d : Char) (s t : String)
    → lowers_to (c ∷ s) (d ∷ t) ≡ true
    → (eqb (lower_code (code c)) (code d) ≡ true) × (lowers_to s t ≡ true)
unfolding lowers_to
case_front c d s t h = ground arith

lowers_to-IsCaseOf : (s t : String) → is_lower t ≡ true → (lowers_to s t ≡ true) ↔ IsCaseOf s t
unfolding lowers_to
lowers_to-IsCaseOf [] [] h = (λ _. tt, λ _. refl)
lowers_to-IsCaseOf [] (d ∷ t) h = (λ k. absurd (cc), λ k. absurd k)
lowers_to-IsCaseOf (c ∷ s) [] h = (λ k. absurd (cc), λ k. absurd k)
lowers_to-IsCaseOf (c ∷ s) (d ∷ t) h =
    let (plain, rest) = lower_front d t h in
    (
      λ k. let (a, b) = case_front c d s t k in (ground arith, (lowers_to-IsCaseOf s t rest).0 b),
      λ k.
          let (one, others) = k in
          let e : eqb (lower_code (code c)) (code d) ≡ true = ground arith in
          rw (e, (lowers_to-IsCaseOf s t rest).1 others) refl,
    )

last_case :
    (name : String)
    → lowers_to name "master" ≡ false
    → lowers_to name "model" ≡ false
    → lowers_to name "msdb" ≡ false
    → is_system_name name ≡ true
    → lowers_to name "tempdb" ≡ true
unfolding is_system_name
last_case name a b c h = ground arith

IsSystemName-refused : (name : String) → IsSystemName name → is_system_name name ≡ true
unfolding is_system_name
IsSystemName-refused name (is_master k) =
    let a = (lowers_to-IsCaseOf name "master" refl).1 k in ground arith
IsSystemName-refused name (is_model k) =
    let a = (lowers_to-IsCaseOf name "model" refl).1 k in ground arith
IsSystemName-refused name (is_msdb k) =
    let a = (lowers_to-IsCaseOf name "msdb" refl).1 k in ground arith
IsSystemName-refused name (is_tempdb k) =
    let a = (lowers_to-IsCaseOf name "tempdb" refl).1 k in ground arith

is_system_name-IsSystemName : (name : String) → (is_system_name name ≡ true) ↔ IsSystemName name
unfolding is_system_name
is_system_name-IsSystemName name = (
  λ h. elim (Bool-cases (lowers_to name "master")) [
    | inl a ↦ is_master ((lowers_to-IsCaseOf name "master" refl).0 a)
    | inr a ↦ elim (Bool-cases (lowers_to name "model")) [
      | inl b ↦ is_model ((lowers_to-IsCaseOf name "model" refl).0 b)
      | inr b ↦ elim (Bool-cases (lowers_to name "msdb")) [
        | inl c ↦ is_msdb ((lowers_to-IsCaseOf name "msdb" refl).0 c)
        | inr c ↦ is_tempdb ((lowers_to-IsCaseOf name "tempdb" refl).0 (last_case name a b c h))
      ]
    ]
  ],
  λ k. IsSystemName-refused name k,
)

name_front :
    (c : Char) (s : String)
    → matches_name (c ∷ s) ≡ true
    → (is_letter (code c) ≡ true) × (matches_name_rest 127 s ≡ true)
unfolding matches_name
name_front c s h = ground arith

matches_name-BeginsWithLetter :
    (name : String)
    → (matches_name name ≡ true) ↔ (BeginsWithLetter name × IsNameText name × (size name ≤ 128))
unfolding matches_name
matches_name-BeginsWithLetter [] = (λ h. absurd (cc), λ h. absurd h.0)
matches_name-BeginsWithLetter (c ∷ s) = (
  λ h.
      let (first, others) = name_front c s h in
      let (texts, small) = (matches_name_rest-IsNameText 127 s).0 others in
      let letter = (is_letter-IsLetter (code c)).0 first in
      (letter, (inl letter, texts), omega (arith, small)),
  λ h.
      let (letter, (_, texts), small) = h in
      rw
        (
          (is_letter-IsLetter (code c)).1 letter,
          (matches_name_rest-IsNameText 127 s).1 (texts, omega (arith, small)),
        )
        refl,
)

check_passes :
    (name : String)
    → assert_safe_database_name name ≡ ok tt
    → (matches_name name ≡ true) × (is_system_name name ≡ false)
unfolding assert_safe_database_name
check_passes name h = ground arith

is_system_name-false : (name : String) → ¬ IsSystemName name → is_system_name name ≡ false
is_system_name-false name h = elim (Bool-cases (is_system_name name)) [
  | inl k ↦ absurd (h ((is_system_name-IsSystemName name).0 k))
  | inr k ↦ k
]

-- A name is let through exactly if it consists of at most 128 letters, digits and underscores, begins
-- with a letter, and is no name of a system database, in upper or lower case.
pub assert_safe_database_name-IsSafeName :
    (name : String) → (assert_safe_database_name name ≡ ok tt) ↔ IsSafeName name
unfolding assert_safe_database_name
assert_safe_database_name-IsSafeName name = (
  λ h.
      let (matched, plain) = check_passes name h in
      let (first, texts, small) = (matches_name-BeginsWithLetter name).0 matched in
      record {
        letter = first;
        characters = texts;
        short = small;
        ordinary = λ k. let e = IsSystemName-refused name k in cc;
      },
  λ safe.
      let matched =
        (matches_name-BeginsWithLetter name).1 (safe.letter, safe.characters, safe.short) in
      let plain = is_system_name-false name safe.ordinary in rw (matched, plain) refl,
)

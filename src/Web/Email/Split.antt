-- ===== src/Web/Email/Split.antt =====
-- What the expression accepts: a local part, a host and a top level, none of them empty, with no
-- white space and no second at-sign.
use oc.Base.{ℕ, String, true, ◌≡◌, refl, sym, ap, ◌∙◌, ◌↔◌, ◌⊎◌, inl, inr, arith}
use Prim.Native.Char.{Char, code}
use Prim.Native.String.{[], ◌∷◌, ◌++◌}
use text.Mathlib.TextLemmas.{nil-append, cons-append}
use oc.Base.Text.{truthy}
use oc.Web.Email.{is_word, all_word, matches_dot, matches_domain, matches_at, is_valid_email}

abbrev pub IsWord : String → Type 0
IsWord s = (truthy s ≡ true) × (all_word s ≡ true)

-- `first`, a character of code `mark`, and `rest`
pub record SplitsAt (mark : ℕ) (s : String) (Rest : String → Type 0) : Type 0 where
  pub first : String
  pub at : Char
  pub rest : String
  pub joined : s ≡ first ++ (at ∷ rest)
  pub marked : code at ≡ mark
  pub words : all_word first ≡ true
  pub rest_holds : Rest rest

-- `host.top`
abbrev pub IsDomain : String → Type 0
IsDomain s = (d : SplitsAt 0x2e s IsWord) × (truthy d.first ≡ true)

-- `local@host.top`
abbrev pub IsEmail : String → Type 0
IsEmail s = (a : SplitsAt 0x40 s IsDomain) × (truthy a.first ≡ true)

module _ {mark : ℕ} {Rest : String → Type 0} where
  here : (c : Char) (s : String) → code c ≡ mark → Rest s → SplitsAt mark (c ∷ s) Rest
  unfolding all_word
  here c s m r = record {
    first = [];
    at = c;
    rest = s;
    joined = sym (nil-append (c ∷ s));
    marked = m;
    words = refl;
    rest_holds = r;
  }

  later :
      (c : Char) (s : String) → is_word c ≡ true → SplitsAt mark s Rest → SplitsAt mark (c ∷ s) Rest
  unfolding all_word
  later c s w r = record {
    first = c ∷ r.first;
    at = r.at;
    rest = r.rest;
    joined = ap (λ x. c ∷ x) r.joined ∙ sym (cons-append c r.first (r.at ∷ r.rest));
    marked = r.marked;
    words = rw (w, r.words) refl;
    rest_holds = r.rest_holds;
  }

  -- the front of a split that does not begin at the mark
  first_word :
      (c : Char) (s : String)
      → is_word c ≡ true
      → SplitsAt mark s Rest
      → (r : SplitsAt mark (c ∷ s) Rest) × (truthy r.first ≡ true)
  unfolding later
  first_word c s w r = (later c s w r, refl)

module _ (c : Char) (s : String) where
  dot_cases :
      matches_dot (c ∷ s) ≡ true
      → ((code c ≡ 0x2e) × IsWord s) ⊎ ((is_word c ≡ true) × (matches_dot s ≡ true))
  unfolding matches_dot
  dot_cases h = ground arith

  dot_here : code c ≡ 0x2e → IsWord s → matches_dot (c ∷ s) ≡ true
  unfolding matches_dot
  dot_here e (a, b) = ground arith

  dot_later : is_word c ≡ true → matches_dot s ≡ true → matches_dot (c ∷ s) ≡ true
  unfolding matches_dot
  dot_later e h = ground arith

  at_cases :
      matches_at (c ∷ s) ≡ true
      → ((code c ≡ 0x40) × (matches_domain s ≡ true)) ⊎ ((is_word c ≡ true) × (matches_at s ≡ true))
  unfolding matches_at
  at_cases h = ground arith

  at_here : code c ≡ 0x40 → matches_domain s ≡ true → matches_at (c ∷ s) ≡ true
  unfolding matches_at
  at_here e h = ground arith

  at_later : is_word c ≡ true → matches_at s ≡ true → matches_at (c ∷ s) ≡ true
  unfolding matches_at
  at_later e h = ground arith

  domain_cases : matches_domain (c ∷ s) ≡ true → (is_word c ≡ true) × (matches_dot s ≡ true)
  unfolding matches_domain
  domain_cases h = ground arith

  domain_front : is_word c ≡ true → matches_dot s ≡ true → matches_domain (c ∷ s) ≡ true
  unfolding matches_domain
  domain_front w h = rw (w, h) refl

  email_cases : is_valid_email (c ∷ s) ≡ true → (is_word c ≡ true) × (matches_at s ≡ true)
  unfolding is_valid_email
  email_cases h = ground arith

  email_front : is_word c ≡ true → matches_at s ≡ true → is_valid_email (c ∷ s) ≡ true
  unfolding is_valid_email
  email_front w h = rw (w, h) refl

  word_front : all_word (c ∷ s) ≡ true → (is_word c ≡ true) × (all_word s ≡ true)
  unfolding all_word
  word_front h = ground arith

dot_split : (s : String) → matches_dot s ≡ true → SplitsAt 0x2e s IsWord
unfolding matches_dot
dot_split [] h = absurd (cc)
dot_split (c ∷ s) h = elim (dot_cases c s h) [
  | inl (stop, t) ↦ here c s stop t
  | inr (w, k) ↦ later c s w (dot_split s k)
]

dot_join :
    (host : String) (d : Char) (top : String)
    → code d ≡ 0x2e
    → all_word host ≡ true
    → IsWord top
    → matches_dot (host ++ (d ∷ top)) ≡ true
dot_join [] d top stop w t = rw (nil-append (d ∷ top)) (dot_here d top stop t)
dot_join (c ∷ host) d top stop w t =
    let (word, words) = word_front c host w in
    rw (cons-append c host (d ∷ top)) (dot_later c _ word (dot_join host d top stop words t))

IsDomain-split : (s : String) → matches_domain s ≡ true → IsDomain s
unfolding matches_domain
IsDomain-split [] h = absurd (cc)
IsDomain-split (c ∷ s) h = let (w, k) = domain_cases c s h in first_word c s w (dot_split s k)

domain_join :
    (host : String) (d : Char) (top : String)
    → code d ≡ 0x2e
    → IsWord host
    → IsWord top
    → matches_domain (host ++ (d ∷ top)) ≡ true
domain_join [] d top stop (filled, w) t = absurd (cc)
domain_join (c ∷ host) d top stop (filled, w) t =
    let (word, words) = word_front c host w in
    rw (cons-append c host (d ∷ top)) (domain_front c _ word (dot_join host d top stop words t))

domain_of : (s : String) → IsDomain s → matches_domain s ≡ true
domain_of s (r, filled) =
    ap matches_domain r.joined
    ∙ domain_join r.first r.at r.rest r.marked (filled, r.words) r.rest_holds

at_split : (s : String) → matches_at s ≡ true → SplitsAt 0x40 s IsDomain
unfolding matches_at
at_split [] h = absurd (cc)
at_split (c ∷ s) h = elim (at_cases c s h) [
  | inl (sign, d) ↦ here c s sign (IsDomain-split s d)
  | inr (w, k) ↦ later c s w (at_split s k)
]

at_join :
    (local : String) (a : Char) (domain : String)
    → code a ≡ 0x40
    → all_word local ≡ true
    → IsDomain domain
    → matches_at (local ++ (a ∷ domain)) ≡ true
at_join [] a domain sign w t =
    rw (nil-append (a ∷ domain)) (at_here a domain sign (domain_of domain t))
at_join (c ∷ local) a domain sign w t =
    let (word, words) = word_front c local w in
    rw (cons-append c local (a ∷ domain)) (at_later c _ word (at_join local a domain sign words t))

IsEmail-split : (s : String) → is_valid_email s ≡ true → IsEmail s
unfolding is_valid_email
IsEmail-split [] h = absurd (cc)
IsEmail-split (c ∷ s) h = let (w, k) = email_cases c s h in first_word c s w (at_split s k)

email_join :
    (local : String) (a : Char) (domain : String)
    → code a ≡ 0x40
    → IsWord local
    → IsDomain domain
    → is_valid_email (local ++ (a ∷ domain)) ≡ true
email_join [] a domain sign (filled, w) t = absurd (cc)
email_join (c ∷ local) a domain sign (filled, w) t =
    let (word, words) = word_front c local w in
    rw (cons-append c local (a ∷ domain))
      (email_front c _ word (at_join local a domain sign words t))

-- An address is accepted exactly if it is a local part, an at-sign, a host, a full stop and a top
-- level, where none of the three parts is empty, or holds white space or an at-sign.
pub is_valid_email-IsEmail : (s : String) → (is_valid_email s ≡ true) ↔ IsEmail s
is_valid_email-IsEmail s = (
  IsEmail-split s,
  λ k.
      let (r, filled) = k in
      ap is_valid_email r.joined
      ∙ email_join r.first r.at r.rest r.marked (filled, r.words) r.rest_holds,
)

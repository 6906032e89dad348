-- ===== src/Sql/Each.antt =====
-- Rows of a table: what holds of each, and of each two of them.
use oc.Base.{Bool, true, false, List, [], ◌∷◌, ◌++◌, ◌≡◌, refl, map, Bool-cases, inl, inr, ◌||◌}
use oc.Base.{String, ◌==◌, str_eq_refl}
use oc.Sql.Run.{select, exists}

abbrev pub Each : {A : Type 0} → (A → Type 0) → List A → Type 0
Each P [] = Unit {0}
Each P (x ∷ xs) = P x × Each P xs

-- no two rows clash
abbrev pub Distinct : {A : Type 0} → (A → A → Bool) → List A → Type 0
Distinct clash [] = Unit {0}
Distinct clash (x ∷ xs) = Each (λ y. clash x y ≡ false) xs × Distinct clash xs

module _ {A : Type 0} where
  pub Each-imp : (P Q : A → Type 0) → ((x : A) → P x → Q x) → (xs : List A) → Each P xs → Each Q xs
  Each-imp P Q k [] h = tt
  Each-imp P Q k (x ∷ xs) h = (k x h.0, Each-imp P Q k xs h.1)

  pub Each-all : (P : A → Type 0) → ((x : A) → P x) → (xs : List A) → Each P xs
  Each-all P k [] = tt
  Each-all P k (x ∷ xs) = (k x, Each-all P k xs)

  pub Each-append : (P : A → Type 0) (xs ys : List A) → Each P xs → Each P ys → Each P (xs ++ ys)
  Each-append P [] ys h k = k
  Each-append P (x ∷ xs) ys h k = (h.0, Each-append P xs ys h.1 k)

  pub Each-select :
      {P : A → Type 0} (p : A → Bool)
      → ((x : A) → p x ≡ true → P x)
      → (xs : List A) → Each P (select p xs)
  unfolding select
  Each-select p k [] = tt
  Each-select p k (x ∷ xs) = elim (Bool-cases (p x)) [
    | inl h ↦ rw h (k x h, Each-select p k xs)
    | inr h ↦ rw h (Each-select p k xs)
  ]

  -- what holds of each row holds of each that is selected
  pub Each-selected :
      (P : A → Type 0) (p : A → Bool) (xs : List A) → Each P xs → Each P (select p xs)
  unfolding select
  Each-selected P p [] h = tt
  Each-selected P p (x ∷ xs) h = elim (Bool-cases (p x)) [
    | inl h₁ ↦ rw h₁ (h.0, Each-selected P p xs h.1)
    | inr h₁ ↦ rw h₁ (Each-selected P p xs h.1)
  ]

  pub none_such : (p : A → Bool) (xs : List A) → exists p xs ≡ false → Each (λ x. p x ≡ false) xs
  unfolding exists
  none_such p [] h = tt
  none_such p (x ∷ xs) h =
      (first_false (p x) (exists p xs) h, none_such p xs (last_false (p x) (exists p xs) h))
    where
      first_false : (a b : Bool) → (a || b) ≡ false → a ≡ false
      first_false true b h = h
      first_false false b h = refl

      last_false : (a b : Bool) → (a || b) ≡ false → b ≡ false
      last_false true b h = absurd (cc)
      last_false false b h = h

  pub Distinct-select :
      (clash : A → A → Bool) (p : A → Bool) (xs : List A)
      → Distinct clash xs
      → Distinct clash (select p xs)
  unfolding select
  Distinct-select clash p [] h = tt
  Distinct-select clash p (x ∷ xs) h = elim (Bool-cases (p x)) [
    | inl h₁ ↦ rw h₁ (Each-selected _ p xs h.0, Distinct-select clash p xs h.1)
    | inr h₁ ↦ rw h₁ (Distinct-select clash p xs h.1)
  ]

  -- rows that clash neither among themselves nor with those that are there
  pub Distinct-append :
      (clash : A → A → Bool) (xs ys : List A)
      → Distinct clash xs
      → Distinct clash ys
      → exists (λ x. exists (clash x) ys) xs ≡ false
      → Distinct clash (xs ++ ys)
  Distinct-append clash xs ys h k free = go xs h (none_such _ xs free)
    where
      go :
          (xs : List A)
          → Distinct clash xs
          → Each (λ x. exists (clash x) ys ≡ false) xs
          → Distinct clash (xs ++ ys)
      go [] h f = k
      go (x ∷ xs) h f = (Each-append _ xs ys h.0 (none_such (clash x) ys f.0), go xs h.1 f.1)

module _ {A B : Type 0} (f : A → B) where
  pub Each-map :
      (P : A → Type 0) (Q : B → Type 0)
      → ((x : A) → P x → Q (f x))
      → (xs : List A) → Each P xs
      → Each Q (map f xs)
  Each-map P Q k [] h = tt
  Each-map P Q k (x ∷ xs) h = (k x h.0, Each-map P Q k xs h.1)

  pub Distinct-map :
      (clash : A → A → Bool) (clash' : B → B → Bool)
      → ((x y : A) → clash x y ≡ false → clash' (f x) (f y) ≡ false)
      → (xs : List A) → Distinct clash xs
      → Distinct clash' (map f xs)
  Distinct-map clash clash' k [] h = tt
  Distinct-map clash clash' k (x ∷ xs) h =
      (Each-map _ _ (k x) xs h.0, Distinct-map clash clash' k xs h.1)

pub or_true : (a b : Bool) → b ≡ true → (a || b) ≡ true
or_true true b h = refl
or_true false b h = h

pub head_exists :
    {A : Type 0} (id : A → String) (x : A) (xs : List A)
    → exists (λ y. id y == id x) (x ∷ xs) ≡ true
unfolding exists
head_exists id x xs = rw (str_eq_refl (id x)) refl

pub tail_exists :
    {A : Type 0} (p : A → Bool) (x : A) (xs : List A)
    → exists p xs ≡ true
    → exists p (x ∷ xs) ≡ true
unfolding exists
tail_exists p x xs h = or_true (p x) (exists p xs) h

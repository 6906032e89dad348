-- ===== src/Audit/Enumeration/History.antt =====
-- enumeration-protection.service.ts: what the history of a source holds.
use oc.Base.{
  ℕ, suc, zero, ◌≤◌, String, List, [], ◌∷◌, ◌++◌, ◌≡◌, refl, ap, sym, ◌⊎◌, inl, inr, arith,
  Bool-cases, map, length, leb, ◌==◌,
}
use mathlib.Core.Path.{subst}
use mathlib.Core.List.{Perm}
use mathlib.Core.List.Perm
use oc.Base.Exec.{ok, pure, ◌>>=◌}
use oc.Database.Statements.{ProtectionRow}
use oc.Sql.Schema.{Server}
use oc.Sql.Policy.{Dialect}
use oc.Sql.Run.{Moment, select, take, insert_latest, latest_first}
use oc.Sql.Execute.{execute, run_select_history}
use oc.Audit.Enumeration.{history_entry, list_protection_history}
use oc.Audit.Enumeration.Blocking.{on_server}

-- No protection of the list lasts longer than to the time given.
pub data EndsBy (last : ℕ) : List ProtectionRow → Type 0 where
  none_left : EndsBy last []
  ends :
      {e : ProtectionRow} {es : List ProtectionRow}
      → e.blocked_until ≤ last
      → EndsBy last es
      → EndsBy last (e ∷ es)

pub data IsLatestFirst : List ProtectionRow → Type 0 where
  no_rows : IsLatestFirst []
  latest :
      {e : ProtectionRow} {es : List ProtectionRow}
      → EndsBy e.blocked_until es
      → IsLatestFirst es
      → IsLatestFirst (e ∷ es)

insert_latest-perm :
    (e : ProtectionRow) (es : List ProtectionRow) → Perm (insert_latest e es) (e ∷ es)
unfolding insert_latest
insert_latest-perm e [] = Perm.refl _
insert_latest-perm e (f ∷ fs) = elim (Bool-cases (leb f.blocked_until e.blocked_until)) [
  | inl first ↦ rw first (Perm.refl _)
  | inr later ↦ rw later (Perm.trans (Perm.cons f (insert_latest-perm e fs)) (Perm.swap e f fs))
]

latest_first-perm : (es : List ProtectionRow) → Perm (latest_first es) es
unfolding latest_first
latest_first-perm [] = Perm.refl _
latest_first-perm (e ∷ es) =
    Perm.trans (insert_latest-perm e (latest_first es)) (Perm.cons e (latest_first-perm es))

EndsBy-later : {a b : ℕ} {es : List ProtectionRow} → a ≤ b → EndsBy a es → EndsBy b es
EndsBy-later h none_left = none_left
EndsBy-later h (ends k rest) = ends (omega arith) (EndsBy-later h rest)

insert_latest-EndsBy :
    (last : ℕ) (e : ProtectionRow) (es : List ProtectionRow)
    → e.blocked_until ≤ last
    → EndsBy last es
    → EndsBy last (insert_latest e es)
unfolding insert_latest
insert_latest-EndsBy last e [] h none_left = ends h none_left
insert_latest-EndsBy last e (f ∷ fs) h (ends k rest) =
    elim (Bool-cases (leb f.blocked_until e.blocked_until)) [
      | inl first ↦ rw first (ends h (ends k rest))
      | inr later ↦ rw later (ends k (insert_latest-EndsBy last e fs h rest))
    ]

insert_latest-IsLatestFirst :
    (e : ProtectionRow) (es : List ProtectionRow)
    → IsLatestFirst es
    → IsLatestFirst (insert_latest e es)
unfolding insert_latest
insert_latest-IsLatestFirst e [] no_rows = latest none_left no_rows
insert_latest-IsLatestFirst e (f ∷ fs) (latest by rest) =
    elim (Bool-cases (leb f.blocked_until e.blocked_until)) [
      | inl first ↦
          let below : f.blocked_until ≤ e.blocked_until = ground arith in
          rw first (latest (ends below (EndsBy-later below by)) (latest by rest))
      | inr later ↦
          let below : e.blocked_until ≤ f.blocked_until = ground arith in
          rw later (
            latest (insert_latest-EndsBy f.blocked_until e fs below by)
              (insert_latest-IsLatestFirst e fs rest))
    ]

latest_first-IsLatestFirst : (es : List ProtectionRow) → IsLatestFirst (latest_first es)
unfolding latest_first
latest_first-IsLatestFirst [] = no_rows
latest_first-IsLatestFirst (e ∷ es) =
    insert_latest-IsLatestFirst e (latest_first es) (latest_first-IsLatestFirst es)

-- what `take` leaves
take_rest :
    {A : Type 0} (n : ℕ) (xs : List A)
    → (rest : List A) × (take n xs ++ rest ≡ xs)
      × (length (take n xs) ≤ n)
      × ((rest ≡ []) ⊎ (length (take n xs) ≡ n))
unfolding take
take_rest n [] = ([], refl, omega arith, inl refl)
take_rest zero (x ∷ xs) = (x ∷ xs, refl, omega arith, inr refl)
take_rest (suc n) (x ∷ xs) =
    let (rest, e, h, full) = take_rest n xs in
    (rest, ap (λ ys. x ∷ ys) e, omega arith, elim full [ inl k ↦ inl k | inr k ↦ inr (ap suc k) ])

-- The history of a source lists the last fifty of its protections, latest first: the rows of the
-- source are those listed and others, none of which lasts longer than one that is listed, and there
-- are others only if fifty are listed.
pub list_protection_history-IsLatestFirst :
    (dialect : Dialect) (m : Moment) (ip : String) (s : Server)
    → (rows : List ProtectionRow) × (rest : List ProtectionRow) × (list_protection_history ip
          (on_server dialect m)
          s
        ≡ (ok (map history_entry rows), s))
      × Perm (rows ++ rest) (select (λ e. e.source_ip == ip) s.tables.ip_protection_events)
      × IsLatestFirst (rows ++ rest)
      × (length rows ≤ 50)
      × ((rest ≡ []) ⊎ (length rows ≡ 50))
unfolding list_protection_history execute run_select_history pure ◌>>=◌
list_protection_history-IsLatestFirst dialect m ip s =
    let found : List ProtectionRow =
      select (λ e. e.source_ip == ip) s.tables.ip_protection_events in
    let (rest, e, few, full) = take_rest 50 (latest_first found) in
    (
      take 50 (latest_first found),
      rest,
      refl,
      subst (λ xs. Perm xs found) (sym e) (latest_first-perm found),
      subst IsLatestFirst (sym e) (latest_first-IsLatestFirst found),
      few,
      full,
    )

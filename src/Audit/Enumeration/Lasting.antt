-- ===== src/Audit/Enumeration/Lasting.antt =====
-- enumeration-protection.service.ts over pooled connections: a protection lasts, whatever statements
-- run, and a look-up finds it until it is over.
use oc.Base.{
  ◌≤◌, ℕ, Bool, true, List, [], ◌∷◌, ◌≡◌, refl, sym, ap, ◌∙◌, inl, inr, arith, Bool-cases, map,
}
use oc.Base.{leb, ◌==◌, ◌&&◌, str_eq_refl}
use mathlib.Core.Path.{subst}
use oc.Base.Exec.{ok, pure}
use oc.Base.Exec.Laws.{bind-ok, paired}
use oc.Database.{SqlDriver, service_executor}
use oc.Database.Statements.{QueryResult, ProtectionRow, select_blocked}
use oc.Sql.Schema.{Tables, Server}
use oc.Sql.Policy.{Dialect}
use oc.Sql.Run.{Moment, select, take, latest_first}
use oc.Sql.Execute.{execute, run_select_blocked}
use oc.Sql.Driver.{RunsDirectly}
use oc.Sql.Writes.{Kept, nothing, company, admin, roles, audit_event, protection, bootstrap}
use oc.Audit.Enumeration.{is_nonempty, is_blocked}
use oc.Audit.Enumeration.Blocking.{latest_first_nonempty, first_taken}
use oc.Auth.Credentials.Rows.{In}

-- The protection is in the tables.
abbrev pub Protected : ProtectionRow → Tables → Type 0
Protected row t = In row t.ip_protection_events

pub Protected-Kept : (dialect : Dialect) (row : ProtectionRow) → Kept dialect (Protected row)
Protected-Kept dialect row m t t' (nothing e) h = subst (Protected row) (sym e) h
Protected-Kept dialect row m t t' (company name free e) h = subst (Protected row) (sym e) h
Protected-Kept dialect row m t t' (admin c email known free e) h = subst (Protected row) (sym e) h
Protected-Kept dialect row m t t' (roles u c user known free e) h = subst (Protected row) (sym e) h
Protected-Kept dialect row m t t' (audit_event a fits e) h = subst (Protected row) (sym e) h
Protected-Kept dialect row m t t' (protection p fits e) h = subst (Protected row) (sym e) (inr h)
Protected-Kept dialect row m t t' (bootstrap session u e) h = subst (Protected row) (sym e) h

select_nonempty :
    {A : Type 0} (p : A → Bool) (xs : List A) (x : A)
    → In x xs
    → p x ≡ true
    → is_nonempty (select p xs) ≡ true
unfolding select
select_nonempty p [] x h k = absurd h
select_nonempty p (y ∷ ys) x h k = elim (Bool-cases (p y)) [
  | inl kept ↦ rw kept refl
  | inr dropped ↦ elim h [
    | inl same ↦ absurd (cc)
    | inr later ↦ rw dropped (select_nonempty p ys x later k)
  ]
]

sorted_nonempty :
    (es : List ProtectionRow) → is_nonempty es ≡ true → is_nonempty (latest_first es) ≡ true
sorted_nonempty [] h = absurd (cc)
sorted_nonempty (e ∷ es) h = latest_first_nonempty e es

module _ (dialect : Dialect) (m : Moment) (row : ProtectionRow)
    (within : m.now ≤ row.blocked_until) where
  is_open : (row.source_ip == row.source_ip && leb m.now row.blocked_until) ≡ true
  is_open =
      let open_still : leb m.now row.blocked_until ≡ true = ground arith in
      rw (str_eq_refl row.source_ip, open_still) refl

  look_up_finds :
      (s s' : Server) (r : QueryResult ℕ)
      → Protected row s.tables
      → execute dialect m (select_blocked row.source_ip) s ≡ (ok r, s')
      → is_nonempty r.rows ≡ true
  unfolding execute run_select_blocked
  look_up_finds s s' r there h =
      let p : ProtectionRow → Bool =
        λ e. e.source_ip == row.source_ip && leb m.now e.blocked_until in
      let rows : take 1 (
            map (λ (e : ProtectionRow). e.blocked_until)
              (latest_first (select p s.tables.ip_protection_events)))
          ≡ r.rows =
        cc in
      subst (λ found. is_nonempty found ≡ true) rows
        (first_taken (λ (e : ProtectionRow). e.blocked_until) _
          (sorted_nonempty _ (select_nonempty p s.tables.ip_protection_events row there is_open)))

module _ {W : Type 0} {dialect : Dialect} {driver : SqlDriver W}
    (law : RunsDirectly dialect driver) where
  pub is_blocked-Protected :
      (row : ProtectionRow) (w : W) (r : QueryResult ℕ)
      → Protected row (law.durable w)
      → (law.moment w).now ≤ row.blocked_until
      → (driver.query (select_blocked row.source_ip) w).0 ≡ ok r
      → (is_blocked row.source_ip (service_executor driver) w).0 ≡ ok true
  unfolding is_blocked pure
  is_blocked-Protected row w r there within runs =
      let q = select_blocked row.source_ip in
      let (s, ran, _) = law.query_runs q w _ r (paired _ runs) in
      let found =
        look_up_finds dialect (law.moment w) row within
          (record { session = _; tables = law.durable w }) s r there ran in
      ap (λ o. o.0) (bind-ok _ _ (paired (driver.query q w) runs)) ∙ ap ok found

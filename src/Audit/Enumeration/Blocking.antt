-- ===== src/Audit/Enumeration/Blocking.antt =====
-- enumeration-protection.service.ts on a connection: when a source is blocked, and for how long.
use oc.Base.{
  ℕ, ◌+◌, ◌≤◌, String, true, List, [], ◌∷◌, ◌≡◌, refl, ap, sym, inl, inr, arith, Bool-cases, map,
}
use oc.Base.{lt→ltb, ltb, leb, length, str_eq_refl}
use oc.Base.Exec.{ok, pure, throw, ◌>>=◌}
use oc.Database.{QueryExecutor}
use oc.Database.Statements.{ProtectionRow}
use oc.Sql.Schema.{Server}
use oc.Sql.Policy.{Dialect}
use oc.Sql.Run.{Moment, select, take, insert_latest, latest_first}
use oc.Base.Text.{utf16_length}
use oc.Sql.Rows.{fits, is_recent_denial}
use oc.Sql.Execute.{
  execute, visible_audit_events, run_count_denied, run_insert_protection, run_select_blocked,
}
use oc.Audit.Enumeration.{EnumerationPolicy, is_nonempty, protect, record_denied_lookup, is_blocked}

-- An executor whose statements run on a connection, all at one moment.
abbrev pub on_server : Dialect → Moment → QueryExecutor Server
on_server dialect m = record { query = λ q. execute dialect m q }

-- The denials that a count sees at a moment.
abbrev pub denials : Dialect → Moment → String → ℕ → Server → ℕ
denials dialect m ip window s =
    length
      (select (is_recent_denial m.now ip window) (visible_audit_events dialect s.session s.tables))

insert_latest_nonempty :
    (e : ProtectionRow) (es : List ProtectionRow) → is_nonempty (insert_latest e es) ≡ true
unfolding insert_latest
insert_latest_nonempty e [] = refl
insert_latest_nonempty e (f ∷ fs) = ground arith

pub latest_first_nonempty :
    (e : ProtectionRow) (es : List ProtectionRow) → is_nonempty (latest_first (e ∷ es)) ≡ true
unfolding latest_first
latest_first_nonempty e es = insert_latest_nonempty e (latest_first es)

pub first_taken :
    {A B : Type 0} (f : A → B) (xs : List A)
    → is_nonempty xs ≡ true
    → is_nonempty (take 1 (map f xs)) ≡ true
unfolding take
first_taken f [] h = absurd (cc)
first_taken f (x ∷ xs) h = refl

reason_fits : fits 255 "identifier_enumeration_threshold" ≡ true
unfolding fits utf16_length
reason_fits = refl

module _ (dialect : Dialect) (policy : EnumerationPolicy) (ip : String) where
  protected_row : Moment → ℕ → ProtectionRow
  protected_row m n = record {
    source_ip = ip;
    reason = "identifier_enumeration_threshold";
    denied_attempt_count = n + 1;
    window_seconds = policy.window_seconds;
    blocked_until = m.now + policy.block_seconds;
  }

  blocked_row :
      (m m' : Moment) (n : ℕ) (s : Server)
      → m'.now ≤ m.now + policy.block_seconds
      → (es : List ProtectionRow) → s.tables.ip_protection_events ≡ protected_row m n ∷ es
      → (is_blocked ip (on_server dialect m') s).0 ≡ ok true
  unfolding is_blocked execute run_select_blocked protected_row pure ◌>>=◌ select
  blocked_row m m' n s within es e =
      let open_still : leb m'.now (m.now + policy.block_seconds) ≡ true = ground arith in
      rw (e, str_eq_refl ip, open_still)
        (ap ok (first_taken (λ (x : ProtectionRow). x.blocked_until) _ (latest_first_nonempty _ _)))

  inserted :
      (m : Moment) (s s' : Server)
      → record_denied_lookup policy ip (on_server dialect m) s ≡ (ok true, s')
      → s'.tables.ip_protection_events
        ≡ protected_row m (denials dialect m ip policy.window_seconds s)
          ∷ s.tables.ip_protection_events
  unfolding record_denied_lookup protect execute run_count_denied run_insert_protection
      protected_row throw pure ◌>>=◌
  inserted m s s' h =
      let n = denials dialect m ip policy.window_seconds s in
      let some_denials = lt→ltb 0 (n + 1) (omega arith) in
      elim (Bool-cases (ltb (n + 1) policy.threshold)) [
        | inl few ↦ absurd (cc (rw few at h))
        | inr many ↦ elim (Bool-cases (ltb 0 policy.window_seconds)) [
          | inl window ↦ elim (Bool-cases (fits 45 ip)) [
            | inl short ↦
                ap (λ o. o.1.tables.ip_protection_events)
                  (sym (rw (many, some_denials, window, short, reason_fits) at h))
            | inr long ↦ absurd (cc (rw (many, some_denials, window, long) at h))
          ]
          | inr empty ↦ absurd (cc (rw (many, some_denials, empty) at h))
        ]
      ]

  -- A source that a check has put under protection is blocked until the block duration is over, on a
  -- connection that sees the tables as the check left them.
  pub record_denied_lookup-is_blocked :
      (m m' : Moment) (s s' : Server)
      → record_denied_lookup policy ip (on_server dialect m) s ≡ (ok true, s')
      → m'.now ≤ m.now + policy.block_seconds
      → (is_blocked ip (on_server dialect m') s').0 ≡ ok true
  unfolding record_denied_lookup protect execute run_count_denied run_insert_protection
      protected_row throw pure ◌>>=◌
  record_denied_lookup-is_blocked m m' s s' h within =
      blocked_row m m' (denials dialect m ip policy.window_seconds s) s' within
        s.tables.ip_protection_events (inserted m s s' h)

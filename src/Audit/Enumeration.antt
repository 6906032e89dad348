-- ===== src/Audit/Enumeration.antt =====
-- apps/api/src/audit/enumeration-protection.service.ts
pub mod Policy
pub mod Blocking
pub mod History
pub mod Lasting
use oc.Base.{ℕ, ◌+◌, String, Option, none, some, Bool, true, false, List, [], ◌∷◌, map}
use oc.Base.{not, ◌&&◌, ltb, first, coalesce, if◌then◌else◌}
use oc.Base.Text.{truthy}
use oc.Base.Exec.{Exec, pure, ◌>>=◌, ◌>>◌}
use oc.Database.{QueryExecutor}
use oc.Database.Statements.{
  ProtectionInsert, ProtectionRow, count_denied, insert_protection, select_blocked, select_history,
}

pub record EnumerationPolicy : Type 0 where
  pub threshold : ℕ
  pub window_seconds : ℕ
  pub block_seconds : ℕ

-- DEFAULT_POLICY
abbrev pub default_policy : EnumerationPolicy
default_policy = record { threshold = 5; window_seconds = 600; block_seconds = 900 }

-- What `Number(value)` is, as far as the code asks: an integer by its sign and its magnitude, or a
-- number that is none, by whether it is greater than 0. NaN is none, and not greater.
pub data JsNumber : Type 0 where
  integer : (negative : Bool) → (magnitude : ℕ) → JsNumber
  no_integer : (positive : Bool) → JsNumber

-- `Number.isInteger(parsed)`
unfoldable pub is_integer : JsNumber → Bool
is_integer (integer negative magnitude) = true
is_integer (no_integer positive) = false

-- `parsed > 0`
unfoldable pub is_greater_than_zero : JsNumber → Bool
is_greater_than_zero (integer negative magnitude) = not negative && ltb 0 magnitude
is_greater_than_zero (no_integer positive) = positive

-- the value that is returned of an integer that is not negative
abbrev pub value_of : JsNumber → ℕ
value_of (integer negative magnitude) = magnitude
value_of (no_integer positive) = 0

-- The three variables of `process.env` that the policy reads
pub record PolicyEnv : Type 0 where
  pub id_enumeration_threshold : Option String
  pub id_enumeration_window_seconds : Option String
  pub id_enumeration_block_seconds : Option String

-- `Number` is an argument, since floating-point numerals have no model here.
module _ (to_number : String → JsNumber) where
  -- `Number.isInteger(parsed) && parsed > 0 ? parsed : fallback`
  unfoldable pub accept_number : JsNumber → ℕ → ℕ
  unfolding is_integer is_greater_than_zero
  accept_number parsed fallback =
      if is_integer parsed && is_greater_than_zero parsed then value_of parsed else fallback

  unfoldable pub positive_integer_from_env : Option String → ℕ → ℕ
  unfolding accept_number
  positive_integer_from_env none fallback = fallback
  positive_integer_from_env (some value) fallback =
      if truthy value then accept_number (to_number value) fallback else fallback

  unfoldable pub policy_from_env : PolicyEnv → EnumerationPolicy
  policy_from_env env = record {
    threshold = positive_integer_from_env env.id_enumeration_threshold default_policy.threshold;
    window_seconds =
        positive_integer_from_env env.id_enumeration_window_seconds default_policy.window_seconds;
    block_seconds =
        positive_integer_from_env env.id_enumeration_block_seconds default_policy.block_seconds;
  }

-- `ProtectionHistoryEntry`
pub record ProtectionHistoryEntry : Type 0 where
  pub source_ip : String
  pub reason : String
  pub denied_attempt_count : ℕ
  pub window_seconds : ℕ
  pub blocked_until : ℕ

abbrev pub history_entry : ProtectionRow → ProtectionHistoryEntry
history_entry row = record {
  source_ip = row.source_ip;
  reason = row.reason;
  denied_attempt_count = row.denied_attempt_count;
  window_seconds = row.window_seconds;
  blocked_until = row.blocked_until;
}

abbrev pub is_nonempty : {A : Type 0} → List A → Bool
is_nonempty [] = false
is_nonempty (x ∷ xs) = true

-- the INSERT's values when the threshold is met
abbrev pub protection_insert : EnumerationPolicy → String → ℕ → ProtectionInsert
protection_insert policy source_ip denied_count = record {
  source_ip = source_ip;
  reason = "identifier_enumeration_threshold";
  denied_attempt_count = denied_count + 1;
  window_seconds = policy.window_seconds;
  block_seconds = policy.block_seconds;
}

module _ {W : Type 0} where
  -- what follows the count
  unfoldable pub protect : EnumerationPolicy → String → ℕ → QueryExecutor W → Exec W Bool
  protect policy source_ip denied_count executor =
      if ltb (denied_count + 1) policy.threshold then pure false else do
        executor.query (insert_protection (protection_insert policy source_ip denied_count))
        pure true

  unfoldable pub record_denied_lookup : EnumerationPolicy → String → QueryExecutor W → Exec W Bool
  unfolding protect
  record_denied_lookup policy source_ip executor = do
    result ← executor.query (count_denied source_ip policy.window_seconds)
    protect policy source_ip (coalesce (first result.rows) 0) executor

  unfoldable pub is_blocked : String → QueryExecutor W → Exec W Bool
  is_blocked source_ip executor = do
    result ← executor.query (select_blocked source_ip)
    pure (is_nonempty result.rows)

  unfoldable pub list_protection_history :
      String → QueryExecutor W → Exec W (List ProtectionHistoryEntry)
  list_protection_history source_ip executor = do
    result ← executor.query (select_history source_ip)
    pure (map history_entry result.rows)

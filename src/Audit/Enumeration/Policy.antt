-- ===== src/Audit/Enumeration/Policy.antt =====
-- enumeration-protection.service.ts: the policy that the environment sets.
use oc.Base.{ℕ, true, false, ◌<◌, String, Option, some, none, arith, Bool-cases, inl, inr}
use oc.Base.Text.{truthy}
use oc.Audit.Enumeration.{
  EnumerationPolicy, PolicyEnv, JsNumber, integer, no_integer, is_integer, is_greater_than_zero,
  positive_integer_from_env, policy_from_env, accept_number,
}

-- Every part of a policy is at least 1.
pub record IsPositive (policy : EnumerationPolicy) : Type 0 where
  pub threshold : 0 < policy.threshold
  pub window : 0 < policy.window_seconds
  pub block : 0 < policy.block_seconds

-- what passes the two tests is the magnitude of an integer that is not 0
accept_number-positive :
    (to_number : String → JsNumber) (x : JsNumber) (fallback : ℕ)
    → 0 < fallback
    → 0 < accept_number to_number x fallback
unfolding accept_number is_integer is_greater_than_zero
accept_number-positive to_number (integer true magnitude) fallback h = h
accept_number-positive to_number (integer false magnitude) fallback h = ground arith
accept_number-positive to_number (no_integer positive) fallback h = h

module _ (to_number : String → JsNumber) where
  positive_integer_from_env-positive :
      (o : Option String) (fallback : ℕ)
      → 0 < fallback
      → 0 < positive_integer_from_env to_number o fallback
  unfolding positive_integer_from_env
  positive_integer_from_env-positive none fallback h = h
  positive_integer_from_env-positive (some value) fallback h = elim (Bool-cases (truthy value)) [
    | inl given ↦ rw given (accept_number-positive to_number (to_number value) fallback h)
    | inr empty ↦ rw empty h
  ]

  -- Whatever the environment holds, and whatever number each of its texts reads as, threshold,
  -- window and block duration of the policy are at least 1.
  pub policy_from_env-IsPositive : (env : PolicyEnv) → IsPositive (policy_from_env to_number env)
  unfolding policy_from_env
  policy_from_env-IsPositive env = record {
    threshold = positive_integer_from_env-positive env.id_enumeration_threshold 5 (omega arith);
    window = positive_integer_from_env-positive env.id_enumeration_window_seconds 600 (omega arith);
    block = positive_integer_from_env-positive env.id_enumeration_block_seconds 900 (omega arith);
  }

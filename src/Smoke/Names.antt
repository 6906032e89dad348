-- ===== src/Smoke/Names.antt =====
-- scripts/run-local-rls-smoke.mjs: the name of the smoke database and its check.
pub mod Safe
use oc.Base.{ℕ, zero, suc, ◌+◌, String, Option, none, some, Bool, true, false, not, ◌&&◌, ◌||◌}
use oc.Base.{leb, eqb, if◌then◌else◌}
use Prim.Native.Char.{code}
use Prim.Native.String
use Prim.Native.String.{[], ◌∷◌}
use oc.Base.Text.{truthy, trim}
use oc.Base.Exec.{Result, ok, err, other}

-- `[A-Za-z]`
unfoldable pub is_letter : ℕ → Bool
is_letter c = (leb 0x41 c && leb c 0x5a) || (leb 0x61 c && leb c 0x7a)

-- `[A-Za-z0-9_]`
unfoldable pub is_name_char : ℕ → Bool
is_name_char c = is_letter c || (leb 0x30 c && leb c 0x39) || eqb c 0x5f

-- `[A-Za-z0-9_]{0,n}$`
unfoldable pub matches_name_rest : ℕ → String → Bool
matches_name_rest n [] = true
matches_name_rest zero (c ∷ s) = false
matches_name_rest (suc n) (c ∷ s) = is_name_char (code c) && matches_name_rest n s

-- `/^[A-Za-z][A-Za-z0-9_]{0,127}$/`
unfoldable pub matches_name : String → Bool
matches_name [] = false
matches_name (c ∷ s) = is_letter (code c) && matches_name_rest 127 s

-- `toLowerCase` of a letter, a digit or `_`
abbrev pub lower_code : ℕ → ℕ
lower_code c = if leb 0x41 c && leb c 0x5a then c + 32 else c

-- `name.toLowerCase() === word`, where `name` has passed the expression
unfoldable pub lowers_to : String → String → Bool
lowers_to [] [] = true
lowers_to [] (d ∷ t) = false
lowers_to (c ∷ s) [] = false
lowers_to (c ∷ s) (d ∷ t) = eqb (lower_code (code c)) (code d) && lowers_to s t

unfoldable pub is_system_name : String → Bool
is_system_name name =
    lowers_to name "master"
    || lowers_to name "model"
    || lowers_to name "msdb"
    || lowers_to name "tempdb"

unfoldable pub assert_safe_database_name : String → Result (Unit {0})
assert_safe_database_name name =
    if not (matches_name name)
    then err (
        other
          "SQL_SMOKE_DATABASE must contain only letters, numbers, and underscores, start with a letter, and be at most 128 characters.")
    else if is_system_name name
    then err (other "SQL_SMOKE_DATABASE cannot be a SQL Server system database.")
    else ok tt

-- `value?.trim() || fallback`
abbrev trimmed_or : Option String → String → String
trimmed_or none fallback = fallback
trimmed_or (some value) fallback = let t = trim value in if truthy t then t else fallback

abbrev named : String → Result (Unit {0}) → Result String
named name (ok _) = ok name
named name (err e) = err e

-- `now` is the text of the clock's number.
unfoldable pub smoke_database_name : Option String → String → Result String
unfolding assert_safe_database_name
smoke_database_name value now =
    let name = trimmed_or value (String.◌++◌ "oc01_rls_smoke_" now) in
    named name (assert_safe_database_name name)

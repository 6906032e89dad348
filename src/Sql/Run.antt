-- ===== src/Sql/Run.antt =====
-- The relational operations of the SQL texts: WHERE, TOP and ORDER BY.
use oc.Base.{ℕ, suc, zero, String, some, Bool, false, List, [], ◌∷◌, ◌||◌, leb}
use oc.Base.{if◌then◌else◌}
use oc.Database.Statements.{QueryResult, ProtectionRow}

-- What the server supplies at one execution: SYSUTCDATETIME() and the values of NEWID().
pub record Moment : Type 0 where
  pub now : ℕ
  pub fresh_id : String
  pub fresh_token : String

module _ {A : Type 0} where
  -- WHERE
  unfoldable pub select : (A → Bool) → List A → List A
  select p [] = []
  select p (x ∷ xs) = let rest = select p xs in if p x then x ∷ rest else rest

  unfoldable pub exists : (A → Bool) → List A → Bool
  exists p [] = false
  exists p (x ∷ xs) = p x || exists p xs

  unfoldable pub take : ℕ → List A → List A
  take n [] = []
  take zero (x ∷ xs) = []
  take (suc n) (x ∷ xs) = x ∷ take n xs

  abbrev pub done : List A → ℕ → QueryResult A
  done rows n = record { rows = rows; rows_affected = some n }

-- ORDER BY blocked_until DESC
unfoldable pub insert_latest : ProtectionRow → List ProtectionRow → List ProtectionRow
insert_latest e [] = e ∷ []
insert_latest e (f ∷ fs) =
    let rest = insert_latest e fs in
    if leb f.blocked_until e.blocked_until then e ∷ f ∷ fs else f ∷ rest

unfoldable pub latest_first : List ProtectionRow → List ProtectionRow
unfolding insert_latest
latest_first [] = []
latest_first (e ∷ es) = insert_latest e (latest_first es)

-- ===== src/Auth/Credentials.antt =====
-- apps/api/src/auth/auth-credential.service.ts
pub mod Rows
pub mod Laws
pub mod Admits
pub mod Keeps
use oc.Base.{String, Option, none, some, Bool, true, false, List, [], ◌∷◌, ◌||◌, ◌==◌, eqb}
use oc.Base.{map, first, if◌then◌else◌}
use Prim.Native.String
use oc.Base.Text.{truthy, strip_prefix, utf16_length, utf8_length}
use oc.Base.Exec.{
  Exec, Result, ok, err, unauthorized, other, pure, throw, lift, try_finally, ◌>>=◌, ◌>>◌,
}
use oc.Contracts.{LoginRequest, LoginResponse, RoleCode, role_eq, includes_super_admin}
use oc.Database.{SqlDriver, QueryExecutor, transaction}
use oc.Database.Statements.{GlobalUserCredentialRow, set_global_principal_login, select_global_user}

-- `createHash("sha256").update(password, "utf8").digest("hex")` of node:crypto is the argument
-- `sha256` of what follows.
abbrev pub sha256_prefix : String
sha256_prefix = "sha256:"

abbrev pub invalid_credentials : String
invalid_credentials = "Invalid username or password."

-- `timingSafeEqual` of the class. That of node:crypto throws a RangeError at buffers of different
-- lengths, and else compares the bytes.
unfoldable pub timing_safe_equal : String → String → Result Bool
timing_safe_equal actual_hex expected_hex =
    if eqb (utf16_length actual_hex) (utf16_length expected_hex)
    then (if eqb (utf8_length actual_hex) (utf8_length expected_hex)
        then ok (actual_hex == expected_hex)
        else err (other "Input buffers must have the same byte length"))
    else ok false

-- `[...new Set(roles)]`
unfoldable pub has_role : RoleCode → List RoleCode → Bool
has_role r [] = false
has_role r (s ∷ ss) = role_eq r s || has_role r ss

unfoldable pub unique_from : List RoleCode → List RoleCode → List RoleCode
unique_from seen [] = []
unique_from seen (r ∷ rs) =
    let old = unique_from seen rs in
    let new = r ∷ unique_from (r ∷ seen) rs in if has_role r seen then old else new

unfoldable pub unique_roles : List RoleCode → List RoleCode
unfolding unique_from has_role
unique_roles rs = unique_from [] rs

module _ (sha256 : String → String) where
  unfoldable pub create_sha256_password_hash : String → String
  create_sha256_password_hash password = String.◌++◌ sha256_prefix (sha256 password)

  abbrev pub compare_hash : String → Option String → Result Bool
  compare_hash password none = ok false
  compare_hash password (some expected) = timing_safe_equal (sha256 password) expected

  unfoldable pub verify_password : String → String → Result Bool
  verify_password password stored_hash =
      compare_hash password (strip_prefix sha256_prefix stored_hash)

  abbrev pub row_role : GlobalUserCredentialRow → RoleCode
  row_role row = row.role_code

  module _ {W : Type 0} where
    -- the callback that `findGlobalUserRows` hands to `transaction`
    unfoldable pub look_up : String → QueryExecutor W → Exec W (List GlobalUserCredentialRow)
    look_up username tx = do
      tx.query (set_global_principal_login true)
      try_finally (do result ← tx.query (select_global_user username); pure result.rows)
          (do tx.query (set_global_principal_login false); pure tt)

    unfoldable pub find_global_user_rows :
        SqlDriver W → String → Exec W (List GlobalUserCredentialRow)
    unfolding look_up
    find_global_user_rows driver username = transaction driver (look_up username)

    abbrev pub reject : Exec W LoginResponse
    reject = throw (unauthorized invalid_credentials)

    abbrev pub grant : String → List RoleCode → Bool → Exec W LoginResponse
    grant user_id roles true =
        pure (record { user_id = user_id; roles = roles; is_super_admin = true })
    grant user_id roles false = reject

    -- the verdict on a first row whose password hash is not missing or empty
    unfoldable pub judge_hash :
        LoginRequest → List RoleCode → String → String → Exec W LoginResponse
    judge_hash request roles user_id hash =
        if includes_super_admin roles
        then lift (verify_password request.password hash) >>= grant user_id roles
        else reject

    unfoldable pub judge_row :
        LoginRequest → List RoleCode → Option GlobalUserCredentialRow → Exec W LoginResponse
    unfolding judge_hash
    judge_row request roles none = reject
    judge_row request roles (some row) = elim (row.password_hash) [
      | none ↦ reject
      | some hash ↦ if truthy hash then judge_hash request roles row.user_id hash else reject
    ]

    unfoldable pub verify : SqlDriver W → LoginRequest → Exec W LoginResponse
    unfolding judge_row
    verify driver request = do
      rows ← find_global_user_rows driver request.username
      judge_row request (unique_roles (map row_role rows)) (first rows)

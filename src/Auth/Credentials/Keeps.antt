-- ===== src/Auth/Credentials/Keeps.antt =====
-- auth-credential.service.ts: a login keeps what the transaction of its look-up keeps.
use oc.Base.{String, Option, none, some, List, Bool, true, false, refl, first, map, if◌then◌else◌}
use oc.Base.Text.{truthy}
use oc.Base.Exec.{pure, throw, lift}
use oc.Base.Exec.Laws.{bind_keeps, finally_keeps}
use oc.Base.Exec.Keeping.{
  Keeping, Returning, Keeping-bind, Keeping-if, Returning-bind, Returning-pure, Returning-finally,
}
use oc.Contracts.{LoginRequest, RoleCode, includes_super_admin}
use oc.Database.{SqlDriver, QueryExecutor, transaction}
use oc.Database.Statements.{
  Statement, GlobalUserCredentialRow, set_global_principal_login, select_global_user,
}
use oc.Database.Transaction.{Confined}
use oc.Auth.Credentials.{
  find_global_user_rows, look_up, judge_hash, judge_row, verify, grant, reject, row_role,
  unique_roles,
}

module _ (sha256 : String → String) {W : Type 0} (Q : W → Type 0) where
  pub look_up-Returning :
      (tx : QueryExecutor W)
      → ((q : Statement) → Returning Q (tx.query q))
      → (username : String) → Returning Q (look_up sha256 username tx)
  unfolding look_up
  look_up-Returning tx q username = Returning-bind Q _ _ (q (set_global_principal_login true)) λ _.
      Returning-finally Q _ _
        (Returning-bind Q _ _ (q (select_global_user username))
          λ result. Returning-pure Q result.rows)
        (Returning-bind Q _ _ (q (set_global_principal_login false)) λ _. Returning-pure Q tt)

  grant-Keeping :
      (user_id : String) (roles : List RoleCode) (b : Bool)
      → Keeping Q (grant sha256 user_id roles b)
  unfolding pure throw
  grant-Keeping user_id roles true w h = h
  grant-Keeping user_id roles false w h = h

  judge_hash-Keeping :
      (request : LoginRequest) (roles : List RoleCode) (user_id hash : String)
      → Keeping Q (judge_hash sha256 request roles user_id hash)
  unfolding judge_hash throw lift
  judge_hash-Keeping request roles user_id hash =
      Keeping-if Q (includes_super_admin roles) _ _
        (Keeping-bind Q _ _ (λ w h. h) (grant-Keeping user_id roles)) (λ w h. h)

  judge_row-Keeping :
      (request : LoginRequest) (roles : List RoleCode) (o : Option GlobalUserCredentialRow)
      → Keeping Q (judge_row sha256 request roles o)
  unfolding judge_row throw
  judge_row-Keeping request roles none = λ w h. h
  judge_row-Keeping request roles (some row) = go row.password_hash
    where
      go :
          (o : Option String)
          → Keeping Q (elim o [
            | none ↦ reject sha256
            | some hash ↦
                if truthy hash
                then judge_hash sha256 request roles row.user_id hash
                else reject sha256
          ])
      go none = λ w h. h
      go (some hash) =
          Keeping-if Q (truthy hash) _ _ (judge_hash-Keeping request roles row.user_id hash)
            (λ w h. h)

  pub verify-Keeping :
      (driver : SqlDriver W)
      → ((username : String) → Keeping Q (transaction driver (look_up sha256 username)))
      → (request : LoginRequest) → Keeping Q (verify sha256 driver request)
  unfolding verify find_global_user_rows
  verify-Keeping driver k request =
      Keeping-bind Q _ _ (k request.username)
        (λ rows. judge_row-Keeping request (unique_roles (map (row_role sha256) rows)) (first rows))

pub look_up-Confined :
    (sha256 : String → String) {W X : Type 0} (view : W → X) (username : String)
    → Confined view (look_up sha256 username)
unfolding look_up pure
look_up-Confined sha256 view username tx q =
    bind_keeps view _ _ (q (set_global_principal_login true)) λ _.
      finally_keeps view _ _ (bind_keeps view _ _ (q (select_global_user username)) λ _ w. refl)
        (bind_keeps view _ _ (q (set_global_principal_login false)) λ _ w. refl)

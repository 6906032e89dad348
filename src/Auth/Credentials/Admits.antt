-- ===== src/Auth/Credentials/Admits.antt =====
-- auth-credential.service.ts: a login with the right password is let in, on a server that is up.
use Prim.Native.String
use oc.Base.{length, [], String, some, true, false, List, ◌≡◌, refl, ap, sym, ◌∙◌, first, map}
use oc.Base.Text.{truthy, strip_prefix}
use oc.Base.Text.Prefix.{strip_prefix-append}
use oc.Base.Text.Truthy.{ne-truthy}
use oc.Base.Exec.{ok, pure, lift, ◌>>=◌}
use oc.Base.Exec.Laws.{bind-ok, finally-ok, paired}
use oc.Contracts.{LoginRequest, includes_super_admin}
use oc.Database.{SqlDriver, SqlTransactionDriver}
use oc.Database.Statements.{
  QueryResult, GlobalUserCredentialRow, set_global_principal_login, select_global_user,
}
use oc.Database.Transaction.{transaction-ok}
use oc.Sql.Schema.{Tables, Server, cleared}
use oc.Sql.Policy.{Dialect}
use oc.Sql.Run.{Moment, done}
use oc.Sql.Execute.{execute, run_select_global_user}
use oc.Sql.Driver.{RunsSql, IsUp, answered, cleared_up}
use oc.Auth.Credentials.{
  sha256_prefix, unique_roles, create_sha256_password_hash, row_role, find_global_user_rows,
  judge_hash, judge_row, verify,
}
use oc.Auth.Credentials.Laws.{verify_password-hash, login_session, login_rows}

hash_filled : (digest hash : String) → hash ≡ String.◌++◌ sha256_prefix digest → truthy hash ≡ true
unfolding strip_prefix
hash_filled digest hash same = ne-truthy hash λ e.
    absurd (
      cc
        (ap (strip_prefix sha256_prefix) (sym e ∙ same) ∙ strip_prefix-append sha256_prefix digest))

-- The connection of a transaction on whose session the login's key has been set
raised_view :
    (dialect : Dialect) (m : Moment) (t : Tables) (s s₁ : Server) (o : QueryResult (Unit {0}))
    → s ≡ record { session = cleared; tables = t }
    → execute dialect m (set_global_principal_login true) s ≡ (ok o, s₁)
    → s₁ ≡ record { session = login_session; tables = t }
unfolding execute
raised_view dialect m t s s₁ o e a =
    sym (ap (λ x. x.1) a)
    ∙ ap
        (λ (x : Server). record {
          session = record x.session { global_principal_login = true };
          tables = x.tables;
        })
        e

module _ (sha256 : String → String) {W : Type 0} where
  judge_row-ok :
      (request : LoginRequest) (rows : List GlobalUserCredentialRow) (row : GlobalUserCredentialRow)
      (hash : String) (w : W)
      → first rows ≡ some row
      → row.password_hash ≡ some hash
      → hash ≡ create_sha256_password_hash sha256 request.password
      → includes_super_admin (unique_roles (map (row_role sha256) rows)) ≡ true
      → judge_row sha256 request (unique_roles (map (row_role sha256) rows)) (first rows) w ≡ (
        ok (record {
          user_id = row.user_id;
          roles = unique_roles (map (row_role sha256) rows);
          is_super_admin = true;
        }),
        w,
      )
  unfolding judge_row judge_hash lift pure ◌>>=◌ create_sha256_password_hash
  judge_row-ok request rows row hash w found stored same super =
      let filled = hash_filled (sha256 request.password) hash same in
      let verified = (verify_password-hash sha256 request.password hash).1 same in
      rw (found, stored, filled, super, verified) refl

module _ (sha256 : String → String) {W : Type 0} {dialect : Dialect} {driver : SqlDriver W}
    {law : RunsSql dialect driver} (up : IsUp law) where
  find_ok :
      (username : String) (w : W)
      → (w' : W) × (find_global_user_rows sha256 driver username w
          ≡ (ok (login_rows dialect username (law.durable w)), w'))
  unfolding find_global_user_rows pure execute run_select_global_user
  find_ok username w = go (up.begins w)
    where
      go :
          (t : SqlTransactionDriver W) × (u : W) × (driver.begin_transaction w ≡ (ok t, u))
          → (w' : W) × (find_global_user_rows sha256 driver username w
              ≡ (ok (login_rows dialect username (law.durable w)), w'))
      go (t, u, begun) =
          let w₁ = (t.query (set_global_principal_login true) u).1 in
          let w₂ = (t.query (select_global_user username) w₁).1 in
          let w₃ = (t.query (set_global_principal_login false) w₂).1 in
          let raised = answered up begun (set_global_principal_login true) u refl in
          let seen =
            raised_view dialect (law.moment u) (law.durable w) (law.view u) (law.view w₁)
              (done [] 0) (law.begin_reads w u t begun)
              (law.query_runs w u t begun (set_global_principal_login true) u w₁ (done [] 0)
                raised) in
          let rows = login_rows dialect username (law.durable w) in
          let selected =
            answered up begun (select_global_user username) w₁ {r = done rows (length rows)} (
              ap (λ s. (execute dialect (law.moment w₁) (select_global_user username) s).0) seen) in
          let dropped = answered up begun (set_global_principal_login false) w₂ refl in
          let (x, clears) = cleared_up up begun w₃ in
          (
            (t.commit x).1,
            transaction-ok driver _ begun
                (bind-ok _ _ raised ∙ finally-ok _ _ (bind-ok _ _ selected) (bind-ok _ _ dropped))
                clears (paired (t.commit x) (up.commits w u t begun x)),
          )

  -- On a server that is up, which returns the result of each statement that succeeds and commits, a
  -- login succeeds if the first row of the look-up holds the hash of the password given and the
  -- rows hold super_admin; it answers with that row's user and the rows' roles.
  pub verify_complete :
      (request : LoginRequest) (row : GlobalUserCredentialRow) (w : W)
      → first (login_rows dialect request.username (law.durable w)) ≡ some row
      → row.password_hash ≡ some (create_sha256_password_hash sha256 request.password)
      → includes_super_admin (
          unique_roles
            (map (row_role sha256) (login_rows dialect request.username (law.durable w))))
        ≡ true
      → (verify sha256 driver request w).0
        ≡ ok (record {
          user_id = row.user_id;
          roles =
              unique_roles
                (map (row_role sha256) (login_rows dialect request.username (law.durable w)));
          is_super_admin = true;
        })
  unfolding verify
  verify_complete request row w found stored super =
      let (v, looked) = find_ok request.username w in
      ap (λ o. o.0)
        (bind-ok _ _ looked
          ∙ judge_row-ok sha256 request (login_rows dialect request.username (law.durable w)) row
              (create_sha256_password_hash sha256 request.password) v found stored refl super)

-- ===== src/Auth/Bootstrap.antt =====
-- apps/api/src/auth/bootstrap-access.service.ts
pub mod Laws
use oc.Base.{String, Option, none, some, Bool, true, first}
use oc.Base.Exec.{Exec, unauthorized, pure, throw, ◌>>=◌, ◌>>◌}
use oc.Database.{QueryExecutor, SqlDriver, transaction}
use oc.Database.Statements.{select_bootstrap, update_bootstrap}

-- The source's field `requiresCredentialReplacement` has the type `true`.
pub record BootstrapFirstUseResult : Type 0 where
  pub user_id : String
  pub requires_credential_replacement : Bool

abbrev pub first_use : String → BootstrapFirstUseResult
first_use user_id = record { user_id = user_id; requires_credential_replacement = true }

module _ {W : Type 0} where
  unfoldable pub find_unused_bootstrap_access : String → QueryExecutor W → Exec W (Option String)
  find_unused_bootstrap_access hash executor = do
    result ← executor.query (select_bootstrap hash)
    pure (first result.rows)

  abbrev pub complete_bootstrap : Option String → QueryExecutor W → Exec W BootstrapFirstUseResult
  complete_bootstrap none tx = throw (unauthorized "Invalid bootstrap access.")
  complete_bootstrap (some user_id) tx = do
    tx.query (update_bootstrap user_id)
    pure (first_use user_id)

  -- the callback that `completeFirstUse` hands to `transaction`
  unfoldable pub first_use_work : String → QueryExecutor W → Exec W BootstrapFirstUseResult
  first_use_work hash tx = do
    bootstrap ← find_unused_bootstrap_access hash tx
    complete_bootstrap bootstrap tx

  unfoldable pub complete_first_use : SqlDriver W → String → Exec W BootstrapFirstUseResult
  complete_first_use driver hash = transaction driver (first_use_work hash)

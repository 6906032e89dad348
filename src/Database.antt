-- ===== src/Database.antt =====
-- apps/api/src/database/database.service.ts: the executor that the services query through, and the
-- transaction with its clean-up. The driver behind it (mssql and the server) is a parameter.
pub mod Statements
pub mod Transaction
pub mod Texts
pub mod Parameters
pub mod Pool
use oc.Base.{String, Option, none, some, false}
use oc.Base.{first, if◌then◌else◌}
use oc.Base.Exec.{Exec, Failure, pure, throw, try_catch, best_effort, ◌>>=◌, ◌>>◌}
use oc.Contracts.{AuthContext, role_name}
use Statements.{Statement, Row, QueryResult, set_company_id, set_user_role}
use Statements.{set_global_principal_login}

-- `query` of the interface QueryExecutor. Its other method, `transaction`, is `transaction` below on
-- the service, and `nested_transaction` on the executor of a transaction.
abbrev pub Query : Type 0 → Type 0
Query W = (q : Statement) → Exec W (QueryResult (Row q))

pub record QueryExecutor (W : Type 0) : Type 0 where
  pub query : Query W

-- `SqlTransactionDriver`
pub record SqlTransactionDriver (W : Type 0) : Type 0 where
  pub query : Query W
  pub commit : Exec W (Unit {0})
  pub rollback : Exec W (Unit {0})

-- `SqlDriver`
pub record SqlDriver (W : Type 0) : Type 0 where
  pub query : Query W
  pub begin_transaction : Exec W (SqlTransactionDriver W)

-- the first role of a context without global authority, `context.roles[0] ?? null`
abbrev pub session_role : AuthContext → Option String
session_role context =
    if context.is_super_admin
    then some "super_admin"
    else elim (first context.roles) [ none ↦ none | some r ↦ some (role_name r) ]

module _ {W : Type 0} where
  unfoldable pub apply_session_context : AuthContext → QueryExecutor W → Exec W (Unit {0})
  apply_session_context context executor = do
    executor.query (set_company_id context.company_id)
    executor.query (set_user_role (session_role context))
    pure tt

  unfoldable pub clear_session_context : QueryExecutor W → Exec W (Unit {0})
  clear_session_context executor = do
    executor.query (set_company_id none)
    executor.query (set_user_role none)
    executor.query (set_global_principal_login false)
    pure tt

  -- the object literal `executor` of `transaction`
  abbrev pub transaction_executor : SqlTransactionDriver W → QueryExecutor W
  transaction_executor t = record { query = t.query }

  -- `executor.transaction`: a nested transaction is the outer one.
  unfoldable pub nested_transaction :
      {T : Type 0} → QueryExecutor W → (QueryExecutor W → Exec W T) → Exec W T
  nested_transaction executor nested_work = nested_work executor

  -- the catch block: clear, roll back, and throw the original error
  unfoldable pub abandon : {T : Type 0} → SqlTransactionDriver W → Failure → Exec W T
  abandon t error = do
    best_effort (clear_session_context (transaction_executor t))
    best_effort t.rollback
    throw error

  -- the try block
  unfoldable pub attempt :
      {T : Type 0} → SqlTransactionDriver W → (QueryExecutor W → Exec W T) → Exec W T
  attempt t work = do
    result ← work (transaction_executor t)
    clear_session_context (transaction_executor t)
    t.commit
    pure result

  unfoldable pub transaction : {T : Type 0} → SqlDriver W → (QueryExecutor W → Exec W T) → Exec W T
  unfolding attempt abandon
  transaction driver work = do t ← driver.begin_transaction; try_catch (attempt t work) (abandon t)

  -- `query` of the service
  abbrev pub service_executor : SqlDriver W → QueryExecutor W
  service_executor driver = record { query = driver.query }

-- The service's field `driver`, which `getDriver` fills at its first call.
pub record DatabaseService (D : Type 0) : Type 0 where
  pub driver : Option D
  pub injected_driver : Option D

module _ {D : Type 0} (mssql_driver : D) where
  abbrev chosen_driver : Option D → D
  chosen_driver none = mssql_driver
  chosen_driver (some d) = d

  abbrev get_driver_from : Option D → DatabaseService D → D × DatabaseService D
  get_driver_from (some d) s = (d, s)
  get_driver_from none s =
      let d = chosen_driver s.injected_driver in (d, record s { driver = some d })

  unfoldable pub get_driver : DatabaseService D → D × DatabaseService D
  get_driver s = get_driver_from s.driver s

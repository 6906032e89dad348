-- ===== src/Database/Pool.antt =====
-- MssqlDriver of apps/api/src/database/database.service.ts: the driver over the package mssql, whose
-- calls are an interface. The bound values are those of the statement.
pub mod Cache
pub mod Reports
pub mod Refines
use oc.Base.{ℕ, ◌+◌, String, Option, some, none, List, [], ◌∷◌, if◌then◌else◌}
use oc.Base.{coalesce}
use oc.Base.Text.{truthy}
use oc.Base.Exec.{Exec, Result, Failure, ok, err, other, pure, throw, ◌>>=◌, ◌>>◌}
use oc.Database.{SqlDriver, SqlTransactionDriver}
use oc.Database.Statements.{Statement, Row, QueryResult}

-- `sql.IResult<T>`
pub record IResult (T : Type 0) : Type 0 where
  pub recordset : Option (List T)
  pub rows_affected : List ℕ

-- What the driver calls of mssql: the pool's connection, a request on the pool, and a transaction
pub record Mssql (W Pool Transaction : Type 0) : Type 0 where
  pub connect : String → Exec W Pool
  pub request : Pool → (q : Statement) → Exec W (IResult (Row q))
  pub begin : Pool → Exec W Transaction
  pub transaction_request : Transaction → (q : Statement) → Exec W (IResult (Row q))
  pub commit : Transaction → Exec W (Unit {0})
  pub rollback : Transaction → Exec W (Unit {0})

-- The field `poolPromise` beside the world of mssql. A promise that rejects is taken back, so what is
-- there is a pool.
pub record Pooled (W Pool : Type 0) : Type 0 where
  pub world : W
  pub pool : Option Pool

unfoldable pub sum_from : ℕ → List ℕ → ℕ
sum_from n [] = n
sum_from n (m ∷ ms) = sum_from (n + m) ms

unfoldable pub normalize_result : {T : Type 0} → IResult T → QueryResult T
unfolding sum_from
normalize_result result = record {
  rows = coalesce result.recordset [];
  rows_affected = some (sum_from 0 result.rows_affected);
}

-- a call of mssql
abbrev pub on_mssql : {W Pool A : Type 0} → Exec W A → Exec (Pooled W Pool) A
on_mssql m s = let (r, w) = m s.world in (r, record s { world = w })

module _ {W Pool Transaction : Type 0} where
  module _ (mssql : Mssql W Pool Transaction) (database_url : Option String) where
    abbrev missing_url : Failure
    missing_url = other "DATABASE_URL is required for SQL Server access."

    abbrev pub connect_to : Option String → Exec W Pool
    connect_to none = throw missing_url
    connect_to (some url) = if truthy url then mssql.connect url else throw missing_url

    unfoldable pub connect : Exec W Pool
    connect = connect_to database_url

    -- what becomes of `poolPromise` once the connection is made, or fails
    abbrev pub settle : Result Pool → W → Result Pool × Pooled W Pool
    settle (ok pool) w = (ok pool, record { world = w; pool = some pool })
    settle (err e) w = (err e, record { world = w; pool = none })

    abbrev pub pool_from : Option Pool → Exec (Pooled W Pool) Pool
    pool_from (some pool) s = (ok pool, s)
    pool_from none s = let (r, w) = connect s.world in settle r w

    unfoldable pub get_pool : Exec (Pooled W Pool) Pool
    unfolding connect
    get_pool s = pool_from s.pool s

    unfoldable pub mssql_query : (q : Statement) → Exec (Pooled W Pool) (QueryResult (Row q))
    unfolding normalize_result
    mssql_query q = do
      pool ← get_pool
      result ← on_mssql (mssql.request pool q)
      pure (normalize_result result)

    -- the object that `beginTransaction` returns
    abbrev pub transaction_driver : Transaction → SqlTransactionDriver (Pooled W Pool)
    transaction_driver transaction = record {
      query = λ q.
          on_mssql (mssql.transaction_request transaction q) >>= λ r. pure (normalize_result r);
      commit = on_mssql (mssql.commit transaction) >> pure tt;
      rollback = on_mssql (mssql.rollback transaction) >> pure tt;
    }

    unfoldable pub begin_transaction : Exec (Pooled W Pool) (SqlTransactionDriver (Pooled W Pool))
    begin_transaction = do
      pool ← get_pool
      transaction ← on_mssql (mssql.begin pool)
      pure (transaction_driver transaction)

    abbrev pub mssql_driver : SqlDriver (Pooled W Pool)
    mssql_driver = record { query = mssql_query; begin_transaction = begin_transaction }

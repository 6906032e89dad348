-- ===== src/Database/Pool/Reports.antt =====
-- What is relied on of the package mssql: how it reports an outcome, and that it runs SQL.
use oc.Base.{
  ℕ, ◌+◌, String, Option, none, some, List, [], ◌∷◌, ◌≡◌, sym, ap, ◌∙◌, ◌⊎◌, inl, inr, arith,
}
use oc.Base.{coalesce}
use oc.Base.Exec.{Failure, ok, err}
use oc.Database.Statements.{Statement, Row, QueryResult}
use oc.Database.Pool.{IResult, Mssql, sum_from, normalize_result}
use oc.Sql.Schema.{Tables, Server, cleared}
use oc.Sql.Policy.{Dialect}
use oc.Sql.Run.{Moment}
use oc.Sql.Execute.{execute}

abbrev pub total : List ℕ → ℕ
total [] = 0
total (m ∷ ms) = m + total ms

-- How mssql reports the outcome of a statement: the rows, if it has a result set, and a count of rows
-- for each statement of its text
pub record Reports {T : Type 0} (result : IResult T) (outcome : QueryResult T) : Type 0 where
  pub rows :
      (result.recordset ≡ some outcome.rows) ⊎ ((result.recordset ≡ none) × (outcome.rows ≡ []))
  pub counts : outcome.rows_affected ≡ some (total result.rows_affected)

sum_from-total : (n : ℕ) (ms : List ℕ) → sum_from n ms ≡ n + total ms
unfolding sum_from
sum_from-total n [] = omega arith
sum_from-total n (m ∷ ms) = omega (arith, sum_from-total (n + m) ms)

pub normalize_result-Reports :
    {T : Type 0} (result : IResult T) (outcome : QueryResult T)
    → Reports result outcome
    → normalize_result result ≡ outcome
unfolding normalize_result
normalize_result-Reports {T} result outcome r = rows_of r.rows
  where
    build : List T → Option ℕ → QueryResult T
    build rows n = record { rows = rows; rows_affected = n }

    counted : some (sum_from 0 result.rows_affected) ≡ outcome.rows_affected
    counted = ap some (sum_from-total 0 result.rows_affected ∙ omega arith) ∙ sym r.counts

    rows_of :
        (result.recordset ≡ some outcome.rows) ⊎ ((result.recordset ≡ none) × (outcome.rows ≡ []))
        → normalize_result result ≡ outcome
    rows_of (inl e) =
        ap (λ o. build (coalesce o []) (some (sum_from 0 result.rows_affected))) e
        ∙ ap (build outcome.rows) counted
    rows_of (inr (e, k)) =
        ap (λ o. build (coalesce o []) (some (sum_from 0 result.rows_affected))) e
        ∙ ap (λ rows. build rows (some (sum_from 0 result.rows_affected))) (sym k)
        ∙ ap (build outcome.rows) counted

-- What is relied on of mssql and the server. `view` is what the connection of a transaction sees, and
-- `durable` what is committed.
pub record MssqlRuns {W Pool Transaction : Type 0} (dialect : Dialect)
    (mssql : Mssql W Pool Transaction) : Type 0 where
  pub moment : W → Moment
  pub view : W → Server
  pub durable : W → Tables
  pub connect_keeps : (url : String) (w : W) → durable (mssql.connect url w).1 ≡ durable w
  pub begin_keeps : (pool : Pool) (w : W) → durable (mssql.begin pool w).1 ≡ durable w
  pub begin_reads :
      (pool : Pool) (w u : W) (t : Transaction)
      → mssql.begin pool w ≡ (ok t, u)
      → view u ≡ record { session = cleared; tables = durable w }
  pub request_keeps :
      (t : Transaction) (q : Statement) (w : W)
      → durable (mssql.transaction_request t q w).1 ≡ durable w
  pub request_runs :
      (t : Transaction) (q : Statement) (w w' : W) (r : IResult (Row q))
      → mssql.transaction_request t q w ≡ (ok r, w')
      → (outcome : QueryResult (Row q)) × Reports r outcome
        × (execute dialect (moment w) q (view w) ≡ (ok outcome, view w'))
  pub rollback_keeps : (t : Transaction) (w : W) → durable (mssql.rollback t w).1 ≡ durable w
  pub commit_keeps :
      (t : Transaction) (w : W) (e : Failure)
      → (mssql.commit t w).0 ≡ err e
      → durable (mssql.commit t w).1 ≡ durable w
  pub commit_publishes :
      (t : Transaction) (w w' : W)
      → mssql.commit t w ≡ (ok tt, w')
      → (durable w' ≡ (view w).tables) × (view w' ≡ view w)

-- ===== src/Sql/Driver.antt =====
-- What the program relies on from mssql and SQL Server: a driver that runs the statements of the
-- module Sql.Execute on the connection of a transaction. One request is served at a time.
pub mod Keeps
use oc.Base.{◌∙◌, refl, ◌≡◌, ap, false, none}
use oc.Base.Exec.{Failure, ok, err, pure}
use oc.Base.Exec.Laws.{bind-eq-ok, bind-ok, paired}
use oc.Database.{SqlTransactionDriver, SqlDriver, transaction_executor, clear_session_context}
use oc.Database.Statements.{
  Statement, Row, QueryResult, set_company_id, set_user_role, set_global_principal_login,
}
use oc.Database.Transaction.{Isolates}
use oc.Sql.Schema.{Tables, Server, cleared}
use oc.Sql.Policy.{Dialect}
use oc.Sql.Run.{Moment}
use oc.Sql.Execute.{execute}

-- `view` is what the transaction's connection sees, `durable` what is committed, and `moment` what
-- the server supplies at the next statement.
pub record RunsSql {W : Type 0} (dialect : Dialect) (driver : SqlDriver W) : Type 0 where
  pub moment : W → Moment
  pub view : W → Server
  pub durable : W → Tables
  pub isolates : Isolates driver durable
  -- a transaction begins on the committed data, on a connection whose session context is empty
  pub begin_reads :
      (w u : W) (t : SqlTransactionDriver W)
      → driver.begin_transaction w ≡ (ok t, u)
      → view u ≡ record { session = cleared; tables = durable w }
  -- a statement that returns has run
  pub query_runs :
      (v u : W) (t : SqlTransactionDriver W)
      → driver.begin_transaction v ≡ (ok t, u)
      → (q : Statement) (w w' : W) (r : QueryResult (Row q)) → t.query q w ≡ (ok r, w')
      → execute dialect (moment w) q (view w) ≡ (ok r, view w')
  -- a commit that returns publishes what its connection sees, and leaves the session alone
  pub commit_publishes :
      (v u : W) (t : SqlTransactionDriver W)
      → driver.begin_transaction v ≡ (ok t, u)
      → (w w' : W) → t.commit w ≡ (ok tt, w')
      → (durable w' ≡ (view w).tables) × (view w' ≡ view w)

module _ {W : Type 0} {dialect : Dialect} {driver : SqlDriver W} (law : RunsSql dialect driver)
    {v u : W} {t : SqlTransactionDriver W} (begun : driver.begin_transaction v ≡ (ok t, u)) where
  -- After the clean-up that returned, no key of the session context is set.
  pub clear_session_context-cleared :
      (w w' : W)
      → clear_session_context (transaction_executor t) w ≡ (ok tt, w')
      → law.view w' ≡ record { session = cleared; tables = (law.view w).tables }
  unfolding clear_session_context execute pure
  clear_session_context-cleared w w' h =
      let (_, w₁, one, rest) = bind-eq-ok _ _ h in
      let (_, w₂, two, rest₁) = bind-eq-ok _ _ rest in
      let (_, w₃, three, rest₂) = bind-eq-ok _ _ rest₁ in
      let a = ap (λ o. o.1) (law.query_runs v u t begun (set_company_id none) w w₁ _ one) in
      let b = ap (λ o. o.1) (law.query_runs v u t begun (set_user_role none) w₁ w₂ _ two) in
      let c =
        ap (λ o. o.1)
          (law.query_runs v u t begun (set_global_principal_login false) w₂ w₃ _ three) in
      let d = ap (λ o. law.view (o.1)) rest₂ in cc

-- A server that is up: a transaction begins, a statement that succeeds on the connection's view
-- returns its result, and a commit returns. Of a statement that fails nothing is said.
pub record IsUp {W : Type 0} {dialect : Dialect} {driver : SqlDriver W}
    (law : RunsSql dialect driver) : Type 0 where
  pub begins :
      (w : W) → (t : SqlTransactionDriver W) × (u : W) × (driver.begin_transaction w ≡ (ok t, u))
  pub answers :
      (v u : W) (t : SqlTransactionDriver W)
      → driver.begin_transaction v ≡ (ok t, u)
      → (q : Statement) (w : W) (r : QueryResult (Row q))
      → (execute dialect (law.moment w) q (law.view w)).0 ≡ ok r
      → (t.query q w).0 ≡ ok r
  pub commits :
      (v u : W) (t : SqlTransactionDriver W)
      → driver.begin_transaction v ≡ (ok t, u)
      → (w : W) → (t.commit w).0 ≡ ok tt

module _ {W : Type 0} {dialect : Dialect} {driver : SqlDriver W} {law : RunsSql dialect driver}
    (up : IsUp law) {v u : W} {t : SqlTransactionDriver W}
    (begun : driver.begin_transaction v ≡ (ok t, u)) where
  -- A statement that gives a result on the connection returns it.
  pub answered :
      (q : Statement) (w : W) {r : QueryResult (Row q)}
      → (execute dialect (law.moment w) q (law.view w)).0 ≡ ok r
      → t.query q w ≡ (ok r, (t.query q w).1)
  answered q w {r} h = paired (t.query q w) (up.answers v u t begun q w r h)

  pub cleared_up :
      (w : W) → (x : W) × (clear_session_context (transaction_executor t) w ≡ (ok tt, x))
  unfolding clear_session_context pure execute
  cleared_up w =
      let w₁ = (t.query (set_company_id none) w).1 in
      let w₂ = (t.query (set_user_role none) w₁).1 in
      let w₃ = (t.query (set_global_principal_login false) w₂).1 in
      (
        w₃,
        bind-ok _ _ (answered (set_company_id none) w refl)
            ∙ bind-ok _ _ (answered (set_user_role none) w₁ refl)
            ∙ bind-ok _ _ (answered (set_global_principal_login false) w₂ refl),
      )

-- The same of the driver's own `query`, which takes a connection from the pool: a statement runs on
-- the committed data, under an empty session context, and is committed by itself if it returns.
pub record RunsDirectly {W : Type 0} (dialect : Dialect) (driver : SqlDriver W) : Type 0 where
  pub moment : W → Moment
  pub durable : W → Tables
  pub query_runs :
      (q : Statement) (w w' : W) (r : QueryResult (Row q))
      → driver.query q w ≡ (ok r, w')
      → (s : Server) × (execute dialect
            (moment w)
            q
            (record { session = cleared; tables = durable w })
          ≡ (ok r, s))
        × (durable w' ≡ s.tables)
  pub query_fails :
      (q : Statement) (w : W) (e : Failure)
      → (driver.query q w).0 ≡ err e
      → durable (driver.query q w).1 ≡ durable w

-- Both, of one database
pub record RunsBoth {W : Type 0} (dialect : Dialect) (driver : SqlDriver W) : Type 0 where
  pub in_transactions : RunsSql dialect driver
  pub directly : RunsDirectly dialect driver
  pub one_database : (w : W) → directly.durable w ≡ in_transactions.durable w

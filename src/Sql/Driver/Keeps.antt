-- ===== src/Sql/Driver/Keeps.antt =====
-- A predicate that the statements keep is kept by what a driver does to the committed data.
use oc.Base.{◌≡◌, refl, sym, ap, ◌∙◌}
use mathlib.Core.Path.{subst}
use oc.Base.Exec.{Exec, Result, ok, err}
use oc.Base.Exec.Keeping.{Keeping, Returning}
use oc.Database.{SqlDriver, SqlTransactionDriver, QueryExecutor, transaction, transaction_executor}
use oc.Database.Statements.{Statement, Row, QueryResult}
use oc.Database.Transaction.{Confined, transaction_atomic, transaction_returned}
use oc.Sql.Schema.{Tables, Server}
use oc.Sql.Policy.{Dialect}
use oc.Sql.Writes.{Kept, execute-Writes}
use oc.Sql.Driver.{RunsSql, RunsDirectly, clear_session_context-cleared}

module _ {W : Type 0} {dialect : Dialect} {driver : SqlDriver W} (P : Tables → Type 0)
    (kept : Kept dialect P) where
  module _ (law : RunsSql dialect driver) where
    abbrev pub Seen : W → Type 0
    Seen w = P (law.view w).tables

    pub query-Returning :
        (v u : W) (t : SqlTransactionDriver W)
        → driver.begin_transaction v ≡ (ok t, u)
        → (q : Statement) → Returning Seen (t.query q)
    query-Returning v u t begun q = record {
      keeps = λ w w' r ran seen.
          kept (law.moment w) _ _
            (execute-Writes dialect (law.moment w) (law.view w) (law.view w') q r
              (law.query_runs v u t begun q w w' r ran))
            seen;
    }

    -- A transaction keeps it whether it returns or throws.
    pub transaction-Keeping :
        {T : Type 0} (work : QueryExecutor W → Exec W T)
        → Confined law.durable work
        → ((v u : W) (t : SqlTransactionDriver W)
            → driver.begin_transaction v ≡ (ok t, u)
            → Returning Seen (work (transaction_executor t)))
        → Keeping (λ w. P (law.durable w)) (transaction driver work)
    transaction-Keeping {T} work confined steps w holds = go (transaction driver work w) refl
      where
        go : (o : Result T × W) → transaction driver work w ≡ o → P (law.durable o.1)
        go (err e, w') h =
            subst (λ x. P (law.durable x.1)) h
              (subst P (sym (transaction_atomic law.isolates work confined w e (ap (λ x. x.0) h)))
                holds)
        go (ok r, w') h =
            let c = transaction_returned driver work w h in
            let begins = ap (λ (s : Server). s.tables) (law.begin_reads w c.begun_at c.t c.begun) in
            let worked =
              (steps w c.begun_at c.t c.begun).keeps c.begun_at c.worked_at r c.worked
                (subst P (sym begins) holds) in
            let clears =
              clear_session_context-cleared law c.begun c.worked_at c.cleared_at c.clears in
            let published =
              (law.commit_publishes w c.begun_at c.t c.begun c.cleared_at w' c.committed).0 in
            subst P (sym (published ∙ ap (λ (s : Server). s.tables) clears)) worked

  pub query-Keeping :
      (law : RunsDirectly dialect driver) (q : Statement)
      → Keeping (λ w. P (law.durable w)) (driver.query q)
  query-Keeping law q w holds = go (driver.query q w) refl
    where
      go : (o : Result (QueryResult (Row q)) × W) → driver.query q w ≡ o → P (law.durable o.1)
      go (ok r, w') h =
          let (s, ran, committed) = law.query_runs q w w' r h in
          subst P (sym committed)
            (kept (law.moment w) _ _ (execute-Writes dialect (law.moment w) _ s q r ran) holds)
      go (err e, w') h =
          subst (λ x. P (law.durable x.1)) h
            (subst P (sym (law.query_fails q w e (ap (λ x. x.0) h))) holds)

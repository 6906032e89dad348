-- ===== src/Database/Pool/Refines.antt =====
-- The driver over mssql is one that runs SQL: what the services rely on follows from what the package
-- documents.
use oc.Base.{String, Option, none, some, ◌≡◌, refl, sym, ap, ◌∙◌, inl, inr}
use oc.Base.{Bool-cases}
use mathlib.Core.Path.{subst}
use oc.Base.Text.{truthy}
use oc.Base.Exec.{Exec, Result, Failure, ok, err, pure, throw}
use oc.Base.Exec.Laws.{bind_returned, bind_keeps, last_keeps_err}
use oc.Database.{SqlTransactionDriver}
use oc.Database.Statements.{Statement, Row, QueryResult}
use oc.Database.Transaction.{Isolates}
use oc.Database.Pool.{
  Mssql, Pooled, on_mssql, connect_to, connect, settle, pool_from, get_pool, transaction_driver,
  begin_transaction, mssql_driver,
}
use oc.Sql.Schema.{cleared}
use oc.Sql.Policy.{Dialect}
use oc.Sql.Execute.{execute}
use oc.Sql.Driver.{RunsSql}
use oc.Database.Pool.Reports.{normalize_result-Reports, MssqlRuns}

world_of :
    {W Pool A : Type 0} (m : Exec W A) {s s' : Pooled W Pool} {r : Result A}
    → on_mssql m s ≡ (r, s')
    → m s.world ≡ (r, s'.world)
world_of m h = ap (λ o. (o.0, o.1.world)) h

module _ {W Pool Transaction : Type 0} (dialect : Dialect) (mssql : Mssql W Pool Transaction)
    (law : MssqlRuns dialect mssql) (database_url : Option String) where
  connect_keeps : (w : W) → law.durable (connect mssql database_url w).1 ≡ law.durable w
  unfolding connect throw
  connect_keeps w = go database_url
    where
      go : (o : Option String) → law.durable (connect_to mssql database_url o w).1 ≡ law.durable w
      go none = refl
      go (some url) = elim (Bool-cases (truthy url)) [
        | inl h ↦ rw h (law.connect_keeps url w)
        | inr h ↦ rw h refl
      ]

  get_pool_keeps :
      (s : Pooled W Pool)
      → law.durable (get_pool mssql database_url s).1.world ≡ law.durable s.world
  unfolding get_pool
  get_pool_keeps s = go s.pool
    where
      settled : (r : Result Pool) (w : W) → (settle mssql database_url r w).1.world ≡ w
      settled (ok p) w = refl
      settled (err e) w = refl

      go :
          (o : Option Pool)
          → law.durable (pool_from mssql database_url o s).1.world ≡ law.durable s.world
      go (some pool) = refl
      go none =
          ap law.durable (settled (connect mssql database_url s.world).0 _) ∙ connect_keeps s.world

  -- what stands behind a transaction that has begun
  record Begun (v u : Pooled W Pool) (t : SqlTransactionDriver (Pooled W Pool)) : Type 0 where
    pub pool : Pool
    pub transaction : Transaction
    pub pooled_at : Pooled W Pool
    pub pooled : get_pool mssql database_url v ≡ (ok pool, pooled_at)
    pub begun : mssql.begin pool pooled_at.world ≡ (ok transaction, u.world)
    pub driver : t ≡ transaction_driver mssql database_url transaction

  Begun-of :
      (v u : Pooled W Pool) (t : SqlTransactionDriver (Pooled W Pool))
      → begin_transaction mssql database_url v ≡ (ok t, u)
      → Begun v u t
  unfolding begin_transaction pure
  Begun-of v u t h = bind_returned _ _ h λ pool s pooled rest.
      bind_returned _ _ rest λ transaction s' begun last. record {
        pool = pool;
        transaction = transaction;
        pooled_at = s;
        pooled = pooled;
        begun = world_of (mssql.begin pool) begun ∙ ap (λ o. (ok transaction, o.1.world)) last;
        driver = sym (cc last);
      }

  -- what holds of the drivers over mssql's transactions holds of a transaction that has begun
  on_driver :
      (P : SqlTransactionDriver (Pooled W Pool) → Type 0)
      → ((transaction : Transaction) → P (transaction_driver mssql database_url transaction))
      → (v u : Pooled W Pool) (t : SqlTransactionDriver (Pooled W Pool))
      → begin_transaction mssql database_url v ≡ (ok t, u)
      → P t
  on_driver P p v u t h = let b = Begun-of v u t h in subst P (sym b.driver) (p b.transaction)

  begin_keeps :
      (s : Pooled W Pool)
      → law.durable (begin_transaction mssql database_url s).1.world ≡ law.durable s.world
  unfolding begin_transaction pure
  begin_keeps =
      bind_keeps (λ (s : Pooled W Pool). law.durable s.world) _ _ get_pool_keeps
        λ pool. bind_keeps _ _ _ (λ s. law.begin_keeps pool s.world) (λ _ s. refl)

  module _ (transaction : Transaction) where
    abbrev inner : SqlTransactionDriver (Pooled W Pool)
    inner = transaction_driver mssql database_url transaction

    inner_query_keeps :
        (q : Statement) (s : Pooled W Pool)
        → law.durable (inner.query q s).1.world ≡ law.durable s.world
    unfolding pure
    inner_query_keeps q =
        bind_keeps (λ (s : Pooled W Pool). law.durable s.world) _ _
          (λ s. law.request_keeps transaction q s.world) (λ _ s. refl)

    inner_rollback_keeps :
        (s : Pooled W Pool) → law.durable (inner.rollback s).1.world ≡ law.durable s.world
    unfolding pure
    inner_rollback_keeps =
        bind_keeps (λ (s : Pooled W Pool). law.durable s.world) _ _
          (λ s. law.rollback_keeps transaction s.world) (λ _ s. refl)

    inner_commit_keeps :
        (s : Pooled W Pool) (e : Failure)
        → (inner.commit s).0 ≡ err e
        → law.durable (inner.commit s).1.world ≡ law.durable s.world
    inner_commit_keeps s e =
        last_keeps_err (λ (s : Pooled W Pool). law.durable s.world) _ tt s e
          (λ x h. law.commit_keeps transaction s.world x h)

    inner_query_runs :
        (q : Statement) (s s' : Pooled W Pool) (r : QueryResult (Row q))
        → inner.query q s ≡ (ok r, s')
        → execute dialect (law.moment s.world) q (law.view s.world) ≡ (ok r, law.view s'.world)
    unfolding pure
    inner_query_runs q s s' r h = bind_returned _ _ h λ x s₁ ran last.
        let (outcome, reports, done) =
          law.request_runs transaction q s.world s₁.world x
            (world_of (mssql.transaction_request transaction q) ran) in
        done
        ∙ ap (λ o. (ok o, law.view s₁.world)) (sym (normalize_result-Reports x outcome reports))
        ∙ ap (λ o. (o.0, law.view o.1.world)) last

    inner_commit_publishes :
        (s s' : Pooled W Pool)
        → inner.commit s ≡ (ok tt, s')
        → (law.durable s'.world ≡ (law.view s.world).tables)
          × (law.view s'.world ≡ law.view s.world)
    unfolding pure
    inner_commit_publishes s s' h = bind_returned _ _ h λ _ s₁ done last.
        law.commit_publishes transaction s.world s'.world
          (world_of (mssql.commit transaction) done ∙ ap (λ o. (ok tt, o.1.world)) last)

  mssql_driver-Isolates : Isolates (mssql_driver mssql database_url) (λ s. law.durable s.world)
  mssql_driver-Isolates = record {
    begin_keeps = begin_keeps;
    query_keeps = λ v u t begun q w.
        on_driver (λ t. law.durable (t.query q w).1.world ≡ law.durable w.world)
          (λ x. inner_query_keeps x q w) v u t begun;
    rollback_keeps = λ v u t begun w.
        on_driver (λ t. law.durable (t.rollback w).1.world ≡ law.durable w.world)
          (λ x. inner_rollback_keeps x w) v u t begun;
    commit_keeps = λ v u t begun w e.
        on_driver
          (λ t. (t.commit w).0 ≡ err e → law.durable (t.commit w).1.world ≡ law.durable w.world)
          (λ x. inner_commit_keeps x w e) v u t begun;
  }

  begin_reads :
      (s u : Pooled W Pool) (t : SqlTransactionDriver (Pooled W Pool))
      → begin_transaction mssql database_url s ≡ (ok t, u)
      → law.view u.world ≡ record { session = cleared; tables = law.durable s.world }
  begin_reads s u t h =
      let b = Begun-of s u t h in
      let kept : law.durable b.pooled_at.world ≡ law.durable s.world =
        ap (λ o. law.durable o.1.world) (sym b.pooled) ∙ get_pool_keeps s in
      law.begin_reads b.pool b.pooled_at.world u.world b.transaction b.begun
      ∙ ap (λ t. record { session = cleared; tables = t }) kept

  abbrev mssql_runs : RunsSql dialect (mssql_driver mssql database_url)
  mssql_runs = record {
    moment = λ s. law.moment s.world;
    view = λ s. law.view s.world;
    durable = λ s. law.durable s.world;
    isolates = mssql_driver-Isolates;
    begin_reads = begin_reads;
    query_runs = λ v u t begun q w w' r.
        on_driver
          (λ t.
            t.query q w ≡ (ok r, w')
            → execute dialect (law.moment w.world) q (law.view w.world) ≡ (ok r, law.view w'.world))
          (λ x. inner_query_runs x q w w' r) v u t begun;
    commit_publishes = λ v u t begun w w'.
        on_driver
          (λ t.
            t.commit w ≡ (ok tt, w')
            → (law.durable w'.world ≡ (law.view w.world).tables)
              × (law.view w'.world ≡ law.view w.world))
          (λ x. inner_commit_publishes x w w') v u t begun;
  }

  -- Over the package mssql, as it is documented to run SQL, the driver has the laws of RunsSql that the
  -- theorems about the data ask for, with mssql's committed data and connection behind its pool.
  pub mssql_driver-RunsSql :
      (runs : RunsSql dialect (mssql_driver mssql database_url)) × (runs.durable ≡ λ s.
      law.durable s.world)
      × (runs.view ≡ λ s. law.view s.world)
  mssql_driver-RunsSql = (mssql_runs, refl, refl)

-- ===== src/Database/Transaction.antt =====
-- database.service.ts: what `transaction` guarantees over any driver.
use oc.Base.{none, false, ◌≡◌, sym, refl, ◌∙◌, ap}
use oc.Base.Exec.{
  pure, Exec, Result, Failure, ok, err, throw, try_catch, best_effort, ◌>>=◌, ◌>>◌, continue,
  recover,
}
use oc.Base.Exec.Laws.{
  bind-ok, bind-eq-ok, bind_keeps, bind_keeps_err, best_effort-bind, catch_keeps_err,
  last_keeps_err,
}
use oc.Database.Statements.{Statement, set_company_id, set_user_role, set_global_principal_login}
use oc.Database.{
  QueryExecutor, SqlTransactionDriver, SqlDriver, transaction_executor, clear_session_context,
  abandon, attempt, transaction,
}

-- the state in which the catch block leaves the transaction
abbrev abandoned : {W : Type 0} → SqlTransactionDriver W → W → W
abandoned t w = (t.rollback (clear_session_context (transaction_executor t) w).1).1

-- the three statements that empty the session context
abbrev pub clearing : {W : Type 0} → SqlTransactionDriver W → Exec W (Unit {0})
clearing t = do
  t.query (set_company_id none)
  t.query (set_user_role none)
  t.query (set_global_principal_login false)
  pure tt

-- cleared and rolled back, whether or not that succeeds
abbrev pub rolled_back : {W : Type 0} → SqlTransactionDriver W → W → W
rolled_back t w = (t.rollback (clearing t w).1).1

-- How a transaction ends, by how its commit, the clearing before it, the work before that and its
-- beginning ended.
module _ {W T : Type 0} where
  abbrev pub commit_end : SqlTransactionDriver W → T → Result (Unit {0}) × W → Result T × W
  commit_end t r (ok _, y) = (ok r, y)
  commit_end t r (err e, y) = (err e, rolled_back t y)

  abbrev pub clear_end : SqlTransactionDriver W → T → Result (Unit {0}) × W → Result T × W
  clear_end t r (ok _, x) = commit_end t r (t.commit x)
  clear_end t r (err e, x) = (err e, rolled_back t x)

  abbrev pub work_end : SqlTransactionDriver W → Result T × W → Result T × W
  work_end t (ok r, v) = clear_end t r (clearing t v)
  work_end t (err e, v) = (err e, rolled_back t v)

  abbrev pub begin_end :
      (QueryExecutor W → Exec W T) → Result (SqlTransactionDriver W) × W → Result T × W
  begin_end work (ok t, u) = work_end t (work (record { query = t.query }) u)
  begin_end work (err e, u) = (err e, u)

module _ {W T : Type 0} where
  abandon_lem :
      (t : SqlTransactionDriver W) (e : Failure) (w : W)
      → abandon {T = T} t e w ≡ (err e, abandoned t w)
  unfolding abandon throw
  abandon_lem t e w =
      best_effort-bind (clear_session_context (transaction_executor t))
        (best_effort t.rollback >> throw e) w
      ∙ best_effort-bind t.rollback (throw e) _

  -- The clean-up never masks a failure and never makes one up. A transaction that cannot begin throws
  -- that; one whose work, clearing of the three session keys or commit throws, in this order, throws
  -- what the first of them threw, after it has cleared the keys and rolled back, whatever these two
  -- give; and one in which all three return gives the result of the work and leaves what the commit
  -- left.
  pub transaction-outcome :
      (driver : SqlDriver W) (work : QueryExecutor W → Exec W T) (w : W)
      → transaction driver work w ≡ begin_end work (driver.begin_transaction w)
  unfolding transaction attempt pure clear_session_context ◌>>=◌ try_catch
  transaction-outcome driver work w = go (driver.begin_transaction w)
    where
      at_commit :
          (t : SqlTransactionDriver W) (r : T) (o : Result (Unit {0}) × W)
          → recover
              (continue o.0 (λ _. pure r) o.1).0
              (abandon t)
              (continue o.0 (λ _. pure r) o.1).1
            ≡ commit_end t r o
      at_commit t r (ok _, y) = refl
      at_commit t r (err e, y) = abandon_lem t e y

      at_clear :
          (t : SqlTransactionDriver W) (r : T) (o : Result (Unit {0}) × W)
          → recover
              (continue o.0 (λ _. t.commit >> pure r) o.1).0
              (abandon t)
              (continue o.0 (λ _. t.commit >> pure r) o.1).1
            ≡ clear_end t r o
      at_clear t r (ok _, x) = at_commit t r (t.commit x)
      at_clear t r (err e, x) = abandon_lem t e x

      at_work :
          (t : SqlTransactionDriver W) (o : Result T × W)
          → recover
              (continue o.0
                (λ r. clear_session_context (transaction_executor t) >> (t.commit >> pure r))
                o.1).0
              (abandon t)
              (continue o.0
                (λ r. clear_session_context (transaction_executor t) >> (t.commit >> pure r))
                o.1).1
            ≡ work_end t o
      at_work t (ok r, v) = at_clear t r (clearing t v)
      at_work t (err e, v) = abandon_lem t e v

      go :
          (o : Result (SqlTransactionDriver W) × W)
          → continue o.0 (λ t. try_catch (attempt t work) (abandon t)) o.1 ≡ begin_end work o
      go (ok t, u) = at_work t (work (transaction_executor t) u)
      go (err e, u) = refl

-- What a driver is relied on to do with the committed data, which `durable` shows: until a commit
-- that succeeds, nothing of a transaction shows in it.
pub record Isolates {W X : Type 0} (driver : SqlDriver W) (durable : W → X) : Type 0 where
  pub begin_keeps : (w : W) → durable (driver.begin_transaction w).1 ≡ durable w
  pub query_keeps :
      (v u : W) (t : SqlTransactionDriver W)
      → driver.begin_transaction v ≡ (ok t, u)
      → (q : Statement) (w : W) → durable (t.query q w).1 ≡ durable w
  pub rollback_keeps :
      (v u : W) (t : SqlTransactionDriver W)
      → driver.begin_transaction v ≡ (ok t, u)
      → (w : W) → durable (t.rollback w).1 ≡ durable w
  pub commit_keeps :
      (v u : W) (t : SqlTransactionDriver W)
      → driver.begin_transaction v ≡ (ok t, u)
      → (w : W) (e : Failure) → (t.commit w).0 ≡ err e
      → durable (t.commit w).1 ≡ durable w

-- The work touches the state through its executor alone: it keeps what the executor's queries keep.
abbrev pub Confined : {W T X : Type 0} → (W → X) → (QueryExecutor W → Exec W T) → Type 0
Confined {W} view work =
    (tx : QueryExecutor W)
    → ((q : Statement) (w : W) → view (tx.query q w).1 ≡ view w)
    → (w : W) → view (work tx w).1 ≡ view w

module _ {W X : Type 0} {driver : SqlDriver W} {durable : W → X} (law : Isolates driver durable)
    {v u : W} {t : SqlTransactionDriver W} (begun : driver.begin_transaction v ≡ (ok t, u)) where
  clear_keeps : (w : W) → durable (clear_session_context (transaction_executor t) w).1 ≡ durable w
  unfolding clear_session_context pure
  clear_keeps =
      let q = law.query_keeps v u t begun in
      bind_keeps durable _ _ (q _)
        λ _. bind_keeps durable _ _ (q _) λ _. bind_keeps durable _ _ (q _) λ _ w. refl

  abandoned_keeps : (w : W) → durable (abandoned t w) ≡ durable w
  abandoned_keeps w = law.rollback_keeps v u t begun _ ∙ clear_keeps w

  module _ {T : Type 0} (work : QueryExecutor W → Exec W T) (confined : Confined durable work) where
    -- The try block that throws has committed nothing.
    attempt_keeps :
        (w : W) (e : Failure)
        → (attempt t work w).0 ≡ err e
        → durable (attempt t work w).1 ≡ durable w
    unfolding attempt pure
    attempt_keeps w e =
        bind_keeps_err durable _ _ w e (confined _ (law.query_keeps v u t begun) w) λ r w₁.
          bind_keeps_err durable _ _ w₁ e (clear_keeps w₁)
            λ _ w₂. last_keeps_err durable _ _ w₂ e (law.commit_keeps v u t begun w₂)

module _ {W T X : Type 0} {driver : SqlDriver W} {durable : W → X} (law : Isolates driver durable)
    (work : QueryExecutor W → Exec W T) (confined : Confined durable work) where
  -- A transaction that throws has changed nothing of the committed data, at whatever step it threw,
  -- if its work goes through its executor and the driver isolates what it has not committed.
  pub transaction_atomic :
      (w : W) (e : Failure)
      → (transaction driver work w).0 ≡ err e
      → durable (transaction driver work w).1 ≡ durable w
  unfolding transaction ◌>>=◌
  transaction_atomic w e h = go (driver.begin_transaction w) refl h
    where
      go :
          (o : Result (SqlTransactionDriver W) × W)
          → driver.begin_transaction w ≡ o
          → (continue o.0 (λ t. try_catch (attempt t work) (abandon t)) o.1).0 ≡ err e
          → durable (continue o.0 (λ t. try_catch (attempt t work) (abandon t)) o.1).1 ≡ durable w
      go (ok t, u) begun k =
          catch_keeps_err durable _ _ u e (attempt_keeps law begun work confined u)
            (λ x v. ap (λ o. durable o.1) (abandon_lem t x v) ∙ abandoned_keeps law begun v) k
          ∙ ap (λ o. durable o.1) (sym begun)
          ∙ law.begin_keeps w
      go (err x, u) begun k = ap (λ o. durable o.1) (sym begun) ∙ law.begin_keeps w

module _ {W T : Type 0} (driver : SqlDriver W) (work : QueryExecutor W → Exec W T) where
  -- The steps of a transaction that returned.
  pub record Committed (w : W) (r : T) (w' : W) : Type 0 where
    pub t : SqlTransactionDriver W
    pub begun_at : W
    pub worked_at : W
    pub cleared_at : W
    pub begun : driver.begin_transaction w ≡ (ok t, begun_at)
    pub worked : work (transaction_executor t) begun_at ≡ (ok r, worked_at)
    pub clears : clear_session_context (transaction_executor t) worked_at ≡ (ok tt, cleared_at)
    pub committed : t.commit cleared_at ≡ (ok tt, w')

  caught-eq-ok :
      (t : SqlTransactionDriver W) (o : Result T × W) {r : T} {w' : W}
      → recover o.0 (abandon t) o.1 ≡ (ok r, w')
      → o ≡ (ok r, w')
  caught-eq-ok t (ok a, v) h = h
  caught-eq-ok t (err e, v) h = absurd (cc (abandon_lem {T = T} t e v))

  pub transaction_returned :
      (w : W) {r : T} {w' : W} → transaction driver work w ≡ (ok r, w') → Committed w r w'
  unfolding transaction attempt try_catch pure
  transaction_returned w {r} {w'} h =
      let (t, u, begun, rest) = bind-eq-ok _ _ h in
      let (a, v, worked, rest₁) = bind-eq-ok _ _ (caught-eq-ok t _ rest) in
      let (_, v₁, clears, rest₂) = bind-eq-ok _ _ rest₁ in
      let (_, v₂, committed, rest₃) = bind-eq-ok _ _ rest₂ in
      let same_value : a ≡ r = cc in
      let same_state : v₂ ≡ w' = cc in
      record {
        t = t;
        begun_at = u;
        worked_at = v;
        cleared_at = v₁;
        begun = begun;
        worked = cc;
        clears = clears;
        committed = cc;
      }

module _ {W T : Type 0} (driver : SqlDriver W) (work : QueryExecutor W → Exec W T) where
  pub transaction-ok :
      {w u v x w' : W} {t : SqlTransactionDriver W} {r : T}
      → driver.begin_transaction w ≡ (ok t, u)
      → work (transaction_executor t) u ≡ (ok r, v)
      → clear_session_context (transaction_executor t) v ≡ (ok tt, x)
      → t.commit x ≡ (ok tt, w')
      → transaction driver work w ≡ (ok r, w')
  unfolding transaction attempt try_catch pure
  transaction-ok {t = t} begun worked clears committed =
      bind-ok _ _ begun
      ∙ ap (λ o. recover o.0 (abandon t) o.1)
          (bind-ok _ _ worked ∙ bind-ok _ _ clears ∙ bind-ok _ _ committed)

-- ===== src/Sample/Backend.antt =====
-- A server with one connection: statements run on its session, a commit publishes its tables.
use oc.Base.{ℕ, zero, suc, String, ◌≡◌, refl, sym, ap, ◌∙◌, some, none, true, false, [], ◌∷◌, ◌==◌}
use mathlib.Core.Path.{subst}
use Prim.Native.String
use oc.Base.Text.{truthy}
use oc.Base.Exec.{Exec, Result, Failure, ok, err}
use oc.Contracts.{super_admin, tenant, tenant_admin, editor, reader}
use oc.Database.{SqlDriver, SqlTransactionDriver}
use oc.Database.Statements.{Statement, Row, QueryResult}
use oc.Database.Transaction.{Isolates}
use oc.Sql.Schema.{Tables, Server, global_scope, tenant_scope, cleared}
use oc.Sql.Policy.{Dialect}
use oc.Sql.Run.{Moment}
use oc.Sql.Execute.{execute}
use oc.Sql.Driver.{RunsSql, IsUp, RunsDirectly, RunsBoth}

pub record World : Type 0 where
  pub durable : Tables
  pub server : Server
  pub tick : ℕ

abbrev pub plain : Dialect
plain = record { is_uniqueidentifier = truthy; lower = λ s. s; same_text = λ a b. a == b }

-- NEWID() number n
abbrev pub id_of : ℕ → String
id_of zero = "id"
id_of (suc n) = String.◌++◌ "n" (id_of n)

abbrev pub moment_of : World → Moment
moment_of w = record { now = 1000; fresh_id = id_of w.tick; fresh_token = "token" }

abbrev pub run_on : (q : Statement) → Exec World (QueryResult (Row q))
run_on q w =
    let (r, s) = execute plain (moment_of w) q w.server in
    (r, record { durable = w.durable; server = s; tick = suc w.tick })

abbrev pub backend_transaction : SqlTransactionDriver World
backend_transaction = record {
  query = run_on;
  commit = λ w. (ok tt, record w { durable = w.server.tables });
  rollback = λ w. (ok tt, record w { server = record { session = cleared; tables = w.durable } });
}

abbrev pub published : {A : Type 0} → World → Result A → Server → Result A × World
published w (ok a) s = (ok a, record { durable = s.tables; server = w.server; tick = suc w.tick })
published w (err e) s = (err e, w)

abbrev pub run_alone : (q : Statement) → Exec World (QueryResult (Row q))
run_alone q w =
    let (r, s) = execute plain (moment_of w) q (record { session = cleared; tables = w.durable }) in
    published w r s

abbrev pub backend : SqlDriver World
backend = record {
  query = run_alone;
  begin_transaction = λ w. (
    ok backend_transaction,
    record w { server = record { session = cleared; tables = w.durable } },
  );
}

pub same_transaction :
    (v u : World) (t : SqlTransactionDriver World)
    → backend.begin_transaction v ≡ (ok t, u)
    → backend_transaction ≡ t
same_transaction v u t h = cc

pub isolates : Isolates backend (λ w. w.durable)
isolates = record {
  begin_keeps = λ w. refl;
  query_keeps = λ v u t begun q w.
      subst (λ (x : SqlTransactionDriver World). (x.query q w).1.durable ≡ w.durable)
        (same_transaction v u t begun) refl;
  rollback_keeps = λ v u t begun w.
      subst (λ (x : SqlTransactionDriver World). (x.rollback w).1.durable ≡ w.durable)
        (same_transaction v u t begun) refl;
  commit_keeps = λ v u t begun w e failed.
      absurd (
        cc
          (ap (λ (x : SqlTransactionDriver World). (x.commit w).0) (same_transaction v u t begun)));
}

abbrev pub backend-RunsSql : RunsSql plain backend
backend-RunsSql = record {
  moment = moment_of;
  view = λ w. w.server;
  durable = λ w. w.durable;
  isolates = isolates;
  begin_reads = λ w u t begun. ap (λ o. o.1.server) (sym begun);
  query_runs = λ v u t begun q w w' r ran.
      ap (λ (o : Result (QueryResult (Row q)) × World). (o.0, o.1.server))
        (ap (λ (x : SqlTransactionDriver World). x.query q w) (same_transaction v u t begun) ∙ ran);
  commit_publishes = λ v u t begun w w' committed.
      let e =
        ap (λ (x : SqlTransactionDriver World). x.commit w) (same_transaction v u t begun)
        ∙ committed in
      (ap (λ o. o.1.durable) (sym e), ap (λ o. o.1.server) (sym e));
}

pub run_alone-ok :
    (q : Statement) (w w' : World) (r : QueryResult (Row q))
    → run_alone q w ≡ (ok r, w')
    → (s : Server) × (execute plain
          (moment_of w)
          q
          (record { session = cleared; tables = w.durable })
        ≡ (ok r, s))
      × (w'.durable ≡ s.tables)
run_alone-ok q w w' r h =
    go (execute plain (moment_of w) q (record { session = cleared; tables = w.durable })) refl h
  where
    go :
        (o : Result (QueryResult (Row q)) × Server)
        → execute plain (moment_of w) q (record { session = cleared; tables = w.durable }) ≡ o
        → published w o.0 o.1 ≡ (ok r, w')
        → (s : Server) × (execute plain
              (moment_of w)
              q
              (record { session = cleared; tables = w.durable })
            ≡ (ok r, s))
          × (w'.durable ≡ s.tables)
    go (ok x, s) e k = (s, cc, ap (λ o. o.1.durable) (sym k))
    go (err x, s) e k = absurd (cc)

pub run_alone-err :
    (q : Statement) (w : World) (e : Failure)
    → (run_alone q w).0 ≡ err e
    → (run_alone q w).1.durable ≡ w.durable
run_alone-err q w e h =
    go (execute plain (moment_of w) q (record { session = cleared; tables = w.durable })) h
  where
    go :
        (o : Result (QueryResult (Row q)) × Server)
        → (published w o.0 o.1).0 ≡ err e
        → (published w o.0 o.1).1.durable ≡ w.durable
    go (ok x, s) k = absurd (cc)
    go (err x, s) k = refl

abbrev pub backend-RunsDirectly : RunsDirectly plain backend
backend-RunsDirectly = record {
  moment = moment_of;
  durable = λ w. w.durable;
  query_runs = run_alone-ok;
  query_fails = run_alone-err;
}

abbrev pub backend-RunsBoth : RunsBoth plain backend
backend-RunsBoth = record {
  in_transactions = backend-RunsSql;
  directly = backend-RunsDirectly;
  one_database = λ w. refl;
}

-- The seeds of db/sqlserver/seeds, a tenant "acme" and the user that administers it.
abbrev pub seeded : Tables
seeded = record {
  companies = record { id = "acme"; name = "Acme" } ∷ [];
  roles =
      record { id = 1; code = super_admin; scope = global_scope }
      ∷ record { id = 2; code = tenant tenant_admin; scope = tenant_scope }
      ∷ record { id = 3; code = tenant editor; scope = tenant_scope }
      ∷ record { id = 4; code = tenant reader; scope = tenant_scope }
      ∷ [];
  users =
      record {
        id = "root";
        company_id = none;
        email = "sa";
        password_hash = some "sha256:secret";
        bootstrap_access_token_hash = none;
        bootstrap_access_used_at = none;
        is_global_admin = true;
        force_credential_rotation = false;
      }
      ∷ record {
        id = "ann";
        company_id = some "acme";
        email = "ann@acme.test";
        password_hash = none;
        bootstrap_access_token_hash = some "once";
        bootstrap_access_used_at = none;
        is_global_admin = false;
        force_credential_rotation = true;
      }
      ∷ [];
  user_roles =
      record { user_id = "root"; role_id = 1; company_id = none }
      ∷ record { user_id = "ann"; role_id = 2; company_id = some "acme" }
      ∷ [];
  audit_events = [];
  ip_protection_events = [];
}

abbrev pub world : World
world = record {
  durable = seeded;
  server = record { session = cleared; tables = seeded };
  tick = 0;
}

pub backend-IsUp : IsUp backend-RunsSql
backend-IsUp = record {
  begins = λ w. (
    backend_transaction,
    record w { server = record { session = cleared; tables = w.durable } },
    refl,
  );
  answers = λ v u t begun q w r runs.
      ap (λ (x : SqlTransactionDriver World). (x.query q w).0) (sym (same_transaction v u t begun))
      ∙ runs;
  commits = λ v u t begun w.
      ap (λ (x : SqlTransactionDriver World). (x.commit w).0) (sym (same_transaction v u t begun));
}

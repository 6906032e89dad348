-- ===== src/Sample/Package.antt =====
-- The package mssql over the server of Backend: one connection.
use oc.Base.{ℕ, Option, some, none, List, [], ◌∷◌, ◌≡◌, refl, sym, ap, ◌∙◌, inl, arith}
use oc.Base.Exec.{Failure, Result, ok, err, other}
use oc.Database.Pool.{IResult, Mssql}
use oc.Database.Pool.Reports.{Reports, MssqlRuns, total}
use oc.Database.Statements.{QueryResult}
use oc.Sql.Schema.{Server, cleared}
use oc.Sql.Execute.{execute}
use oc.Sample.Backend.{World, plain, moment_of, run_on, run_alone}

abbrev with_count : {T : Type 0} → List T → Option ℕ → Result (IResult T)
with_count rows none = err (other "no count")
with_count rows (some n) = ok (record { recordset = some rows; rows_affected = n ∷ [] })

abbrev reported : {T : Type 0} → Result (QueryResult T) → Result (IResult T)
reported (ok a) = with_count a.rows a.rows_affected
reported (err e) = err e

abbrev pub library : Mssql World (Unit {0}) (Unit {0})
library = record {
  connect = λ url w. (ok tt, w);
  request = λ pool q w. let (r, v) = run_alone q w in (reported r, v);
  begin = λ pool w. (ok tt, record w { server = record { session = cleared; tables = w.durable } });
  transaction_request = λ t q w. let (r, v) = run_on q w in (reported r, v);
  commit = λ t w. (ok tt, record w { durable = w.server.tables });
  rollback = λ t w. (ok tt, record w { server = record { session = cleared; tables = w.durable } });
}

abbrev recordset_of : {T : Type 0} → Result (IResult T) → Option (List T)
recordset_of (ok r) = r.recordset
recordset_of (err e) = none

abbrev total_of : {T : Type 0} → Result (IResult T) → ℕ
total_of (ok r) = total r.rows_affected
total_of (err e) = 0

counted_once : (n : ℕ) → n ≡ total (n ∷ [])
counted_once n = omega arith

pub reported-Reports :
    {T : Type 0} (o : Result (QueryResult T) × Server) (r : IResult T) (s : Server)
    → reported o.0 ≡ ok r
    → o.1 ≡ s
    → (outcome : QueryResult T) × Reports r outcome × (o ≡ (ok outcome, s))
reported-Reports (err e, v) r s h same = absurd (cc)
reported-Reports {T} (ok a, v) r s h same = go a.rows_affected refl h
  where
    go :
        (n : Option ℕ)
        → a.rows_affected ≡ n
        → with_count a.rows n ≡ ok r
        → (outcome : QueryResult T) × Reports r outcome
          × (◌≡◌ {A = Result (QueryResult T) × Server} (ok a, v) (ok outcome, s))
    go none e k = absurd (cc)
    go (some n) e k = (
      a,
      record {
        rows = inl (ap recordset_of (sym k));
        counts = e ∙ ap some (counted_once n ∙ ap total_of k);
      },
      ap (λ x. (ok a, x)) same,
    )

pub never_fails : {X : Type 0} (e : Failure) → ◌≡◌ {A = Result (Unit {0})} (ok tt) (err e) → X
never_fails e h = absurd (cc)

abbrev pub library-MssqlRuns : MssqlRuns plain library
library-MssqlRuns = record {
  moment = moment_of;
  view = λ w. w.server;
  durable = λ w. w.durable;
  connect_keeps = λ url w. refl;
  begin_keeps = λ pool w. refl;
  begin_reads = λ pool w u t h. ap (λ o. o.1.server) (sym h);
  request_keeps = λ t q w. refl;
  request_runs = λ t q w w' r h.
      reported-Reports (execute plain (moment_of w) q w.server) r w'.server (ap (λ o. o.0) h)
        (ap (λ o. o.1.server) h);
  rollback_keeps = λ t w. refl;
  commit_keeps = λ t w e h. never_fails e h;
  commit_publishes = λ t w w' h. (ap (λ o. o.1.durable) (sym h), ap (λ o. o.1.server) (sym h));
}

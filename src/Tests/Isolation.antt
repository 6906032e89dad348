-- ===== src/Tests/Isolation.antt =====
-- A tenant's transaction over the sample server.
use oc.Base.{some, false, [], ◌∷◌, ◌≡◌, refl}
use oc.Base.Exec.{◌>>=◌, ok}
use oc.Contracts.{AuthContext, tenant, reader}
use oc.Database.{transaction_executor, apply_session_context}
use oc.Sql.Execute.{execute}
use oc.Sql.Schema.{cleared}
use oc.Sql.Isolation.{TenantOnly, apply_session_context-TenantOnly}
use oc.Database.Pool.{mssql_driver}
use oc.Database.Pool.Refines.{mssql_driver-RunsSql}
use oc.Sql.Driver.{RunsSql}
use oc.Sample.Package.{library, library-MssqlRuns}
use oc.Sample.Backend.{World, backend_transaction, backend-RunsSql, plain, world}

abbrev ann : AuthContext
ann = record {
  user_id = "ann";
  company_id = some "acme";
  roles = tenant reader ∷ [];
  is_super_admin = false;
  source_ip = some "192.0.2.2";
}

abbrev begun_at : World
begun_at = record world { server = record { session = cleared; tables = world.durable } }

abbrev applied_at : World
applied_at = (apply_session_context ann (transaction_executor backend_transaction) begun_at).1

ann_applied :
    apply_session_context ann (transaction_executor backend_transaction) begun_at
    ≡ (ok tt, applied_at)
unfolding apply_session_context execute ◌>>=◌
ann_applied = refl

apply_session_context-TenantOnly_example : TenantOnly plain (some "acme") applied_at.server
apply_session_context-TenantOnly_example =
    apply_session_context-TenantOnly backend-RunsSql ann world begun_at applied_at
      backend_transaction refl ann_applied refl refl

-- the package over the same server
over_mssql :
    (runs : RunsSql plain (mssql_driver library (some "mssql://"))) × (runs.durable ≡ λ s.
    s.world.durable)
    × (runs.view ≡ λ s. s.world.server)
over_mssql = mssql_driver-RunsSql plain library library-MssqlRuns (some "mssql://")

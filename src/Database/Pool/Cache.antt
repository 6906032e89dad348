-- ===== src/Database/Pool/Cache.antt =====
-- `getPool` of database.service.ts: one pool, and a connection that failed is tried again.
use oc.Base.{String, Option, some, none, ◌≡◌, refl, ap, ◌∙◌}
use oc.Base.Exec.{Result, ok, err}
use oc.Database.Pool.{settle, pool_from, Mssql, Pooled, connect, get_pool}

-- the pool of an answer
abbrev pub pool_of : {Pool : Type 0} → Result Pool → Option Pool
pool_of (ok pool) = some pool
pool_of (err e) = none

module _ {W Pool Transaction : Type 0} (mssql : Mssql W Pool Transaction)
    (database_url : Option String) where
  -- After a call the cache holds the pool that the call gave, and nothing if the connection failed.
  pub get_pool-cache :
      (s : Pooled W Pool)
      → (get_pool mssql database_url s).1.pool ≡ pool_of (get_pool mssql database_url s).0
  unfolding get_pool
  get_pool-cache s = go s.pool refl
    where
      settled :
          (r : Result Pool) (w : W)
          → (settle mssql database_url r w).1.pool ≡ pool_of (settle mssql database_url r w).0
      settled (ok p) w = refl
      settled (err x) w = refl

      go :
          (o : Option Pool)
          → s.pool ≡ o
          → (pool_from mssql database_url o s).1.pool ≡ pool_of (pool_from mssql database_url o s).0
      go (some p) e = e
      go none e =
          settled (connect mssql database_url s.world).0 (connect mssql database_url s.world).1

  -- A pool that was given is what the next call gives, with no other connection, whatever the
  -- connection string is by then.
  pub get_pool_again :
      (s : Pooled W Pool) (later : Option String) (pool : Pool)
      → (get_pool mssql database_url s).0 ≡ ok pool
      → get_pool mssql later (get_pool mssql database_url s).1
        ≡ (ok pool, (get_pool mssql database_url s).1)
  unfolding get_pool
  get_pool_again s later pool h =
      ap (λ o. pool_from mssql later o (get_pool mssql database_url s).1)
        (get_pool-cache s ∙ ap pool_of h)

-- ===== src/Tests/Pool.antt =====
-- The pool of the driver over a counter of connections.
use oc.Base.{ℕ, suc, String, some, none, [], ◌∷◌, ◌≡◌, refl}
use oc.Base.Exec.{ok, err, other}
use oc.Database.Pool.{Mssql, Pooled, get_pool, connect, normalize_result, sum_from}

-- connection number n; nothing else is asked of it
abbrev mssql : Mssql ℕ ℕ (Unit {0})
mssql = record {
  connect = λ url n. (ok n, suc n);
  request = λ pool q n. (err (other "no server"), n);
  begin = λ pool n. (ok tt, n);
  transaction_request = λ t q n. (err (other "no server"), n);
  commit = λ t n. (ok tt, n);
  rollback = λ t n. (ok tt, n);
}

abbrev idle : Pooled ℕ ℕ
idle = record { world = 3; pool = none }

abbrev url : String
url = "mssql://"

idle_connects : (get_pool mssql (some url) idle).0 ≡ ok 3
unfolding get_pool connect
idle_connects = refl

two_statements :
    normalize_result {T = ℕ} (record { recordset = none; rows_affected = 2 ∷ 3 ∷ [] })
    ≡ record { rows = []; rows_affected = some 5 }
unfolding normalize_result sum_from
two_statements = refl

-- ===== src/Smoke/Docker/Waiting.antt =====
-- How the wait for the server ends, and that the container is always removed.
use oc.Base.{ℕ, zero, suc, ◌<◌, String, some, false, List, ◌∷◌, first}
use oc.Base.{◌≡◌, refl, ap, ◌∙◌, eqb, if◌then◌else◌, arith}
use oc.Base.Exec.{
  Exec, Failure, Result, ok, err, other, pure, throw, try_finally, ◌>>=◌, ◌>>◌, continue, lift,
}
use oc.Smoke.Sqlcmd.{ChildEnd}
use oc.Smoke.Docker.{
  Container, run, pause, probe_server, wait_for_sql_server, rls_smoke, removal, remove_container,
  container_steps,
}

module _ (to_text : ℕ → String) {W : Type 0}
    (spawn : String → List String → (stdio : String) → W → ChildEnd × W) (sleep : ℕ → W → W)
    (container : Container) (db_dir : String) where
  abbrev probe : Exec W ℕ
  probe = probe_server to_text spawn sleep container db_dir

  abbrev waiting : ℕ → Exec W (Unit {0})
  waiting n = wait_for_sql_server to_text spawn sleep container db_dir n

  -- so many attempts that find no server, each with a pause behind it
  pub data Waits : ℕ → W → W → Type 0 where
    at_once : {w : W} → Waits 0 w w
    again :
        {n m : ℕ} {w u v : W}
        → probe w ≡ (ok (suc m), u)
        → Waits n (sleep container.delay_ms u) v
        → Waits (suc n) w v

  -- the ways in which a wait of that many attempts can end
  pub data WaitEnd (attempts : ℕ) (w : W) : Result (Unit {0}) × W → Type 0 where
    ready :
        (k : ℕ) (u v : W)
        → k < attempts
        → Waits k w u
        → probe u ≡ (ok 0, v)
        → WaitEnd attempts w (ok tt, v)
    timed_out :
        (u : W)
        → Waits attempts w u
        → WaitEnd attempts w
            (err (other "SQL Server did not become ready before the smoke timeout."), u)
    broken :
        (k : ℕ) (u v : W) (e : Failure)
        → k < attempts
        → Waits k w u
        → probe u ≡ (err e, v)
        → WaitEnd attempts w (err e, v)

  one_more :
      {n m : ℕ} {w u : W} {o : Result (Unit {0}) × W}
      → probe w ≡ (ok (suc m), u)
      → WaitEnd n (sleep container.delay_ms u) o
      → WaitEnd (suc n) w o
  one_more h (ready k u v small waits found) = ready (suc k) u v (omega arith) (again h waits) found
  one_more h (timed_out u waits) = timed_out u (again h waits)
  one_more h (broken k u v e small waits thrown) =
      broken (suc k) u v e (omega arith) (again h waits) thrown

  -- The wait ends after at most its number of attempts: it returns at the first that finds the server,
  -- with a pause behind each one before it, throws its timeout if none did, and passes on at once what
  -- an attempt throws.
  pub wait_for_sql_server-WaitEnd : (attempts : ℕ) (w : W) → WaitEnd attempts w (waiting attempts w)
  unfolding wait_for_sql_server throw ◌>>=◌ pure
  wait_for_sql_server-WaitEnd zero w = timed_out w at_once
  wait_for_sql_server-WaitEnd (suc n) w =
      go (λ u. wait_for_sql_server-WaitEnd n (sleep container.delay_ms u)) (probe w) refl
    where
      go :
          ((u : W)
            → WaitEnd n (sleep container.delay_ms u) (waiting n (sleep container.delay_ms u)))
          → (o : Result ℕ × W) → probe w ≡ o
          → WaitEnd (suc n) w (
              continue o.0
                (λ c.
                  if eqb c 0
                  then pure tt
                  else (pause to_text spawn sleep container db_dir >> waiting n))
                o.1)
      go later (ok zero, v) h = ready 0 w v (omega arith) at_once h
      go later (ok (suc m), v) h =
          let more : eqb (suc m) 0 ≡ false = ground arith in rw more (one_more h (later v))
      go later (err e, v) h = broken 0 w v e (omega arith) at_once h

finally_state :
    {W A : Type 0} (m : Exec W A) (last : Exec W (Unit {0})) (w : W)
    → (try_finally m last w).1 ≡ (last (m w).1).1
unfolding try_finally lift ◌>>=◌
finally_state m last w = go (m w).0 (last (m w).1)
  where
    go :
        {W A : Type 0} (r : Result A) (o : Result (Unit {0}) × W)
        → (continue o.0 (λ _ v. (r, v)) o.1).1 ≡ o.1
    go r (ok _, v) = refl
    go r (err e, v) = refl

module _ (to_text : ℕ → String) {W : Type 0}
    (spawn : String → List String → (stdio : String) → W → ChildEnd × W) (sleep : ℕ → W → W)
    (container : Container) (db_dir : String) (history : W → List (List String))
    (recorded : (command : String) (args : List String) (stdio : String) (w : W)
      → history (spawn command args stdio w).1 ≡ args ∷ history w) where
  abbrev pub removal_args : List String
  removal_args = removal to_text spawn sleep container db_dir

  abbrev remove : Exec W (Unit {0})
  remove = remove_container to_text spawn sleep container db_dir

  abbrev steps : Exec W (Unit {0})
  steps = container_steps to_text spawn sleep container db_dir

  removed : (w : W) → history (remove w).1 ≡ removal_args ∷ history w
  unfolding remove_container run ◌>>=◌ pure
  removed w = go _ _ ∙ recorded "docker" removal_args "ignore" w
    where
      go : (r : Result ℕ) (v : W) → history (continue r (λ _ u. (ok tt, u)) v).1 ≡ history v
      go (ok _) v = refl
      go (err e) v = refl

  -- Whatever fails, and also if nothing does, the last command of the script is the one that removes
  -- its container.
  pub rls_smoke-removal :
      (w : W)
      → first (history (rls_smoke to_text spawn sleep container db_dir w).1) ≡ some removal_args
  unfolding rls_smoke ◌>>=◌
  rls_smoke-removal w = go (remove w) (ap first (removed w))
    where
      go :
          (o : Result (Unit {0}) × W)
          → first (history o.1) ≡ some removal_args
          → first (history (continue o.0 (λ _. try_finally steps remove) o.1).1) ≡ some removal_args
      go (ok _, v) h =
          ap (λ s. first (history s)) (finally_state steps remove v) ∙ ap first (removed _)
      go (err e, v) h = h

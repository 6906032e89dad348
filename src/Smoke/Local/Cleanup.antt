-- ===== src/Smoke/Local/Cleanup.antt =====
-- The steps of a run and the clean-up behind them, by what each step gave.
use oc.Base.{Option, none, some, Bool, true, false}
use oc.Base.{◌≡◌, refl, ap, ◌∙◌}
use oc.Base.Exec.{Exec, Failure, Result, ok, err, try_catch, ◌>>=◌, ◌>>◌, continue}
use oc.Smoke.Local.{Progress, smoke_steps, smoke_cleanup, with_cleanup_error}

abbrev pub start : {W : Type 0} → W → Progress W
start w = record { created = false; primary_error = none; world = w }

-- the error of a step that throws
abbrev pub error_of : Result (Unit {0}) → Option Failure
error_of (ok _) = none
error_of (err e) = some e

-- the error that a run is left with after the clean-up
abbrev pub error_after : Option Failure → Result (Unit {0}) → Option Failure
error_after before (ok _) = before
error_after before (err e) = some (with_cleanup_error before e)

abbrev pub progress : {W : Type 0} → (create file drop : Exec W (Unit {0})) → Bool → W → Progress W
progress create file drop keep w =
    ((smoke_steps create file >> smoke_cleanup drop keep) (start w)).1

module _ {W : Type 0} (create file : Exec W (Unit {0})) where
  steps_uncreated :
      (w v : W) (e : Failure)
      → create w ≡ (err e, v)
      → smoke_steps create file (start w)
        ≡ (ok tt, record { created = false; primary_error = some e; world = v })
  unfolding smoke_steps try_catch ◌>>=◌
  steps_uncreated w v e h = rw h refl

  steps_created :
      (r : Result (Unit {0})) (w v u : W)
      → create w ≡ (ok tt, v)
      → file v ≡ (r, u)
      → smoke_steps create file (start w)
        ≡ (ok tt, record { created = true; primary_error = error_of r; world = u })
  unfolding smoke_steps try_catch ◌>>=◌
  steps_created (ok _) w v u h k = rw (h, k) refl
  steps_created (err e) w v u h k = rw (h, k) refl

cleanup_dropped :
    {W : Type 0} (drop : Exec W (Unit {0})) (d : Result (Unit {0})) (before : Option Failure)
    (u x : W)
    → drop u ≡ (d, x)
    → smoke_cleanup drop false (record { created = true; primary_error = before; world = u })
      ≡ (ok tt, record { created = true; primary_error = error_after before d; world = x })
unfolding smoke_cleanup try_catch
cleanup_dropped drop (ok _) before u x h = rw h refl
cleanup_dropped drop (err e) before u x h = rw h refl

-- the error and the world that the steps and the clean-up leave
abbrev pub left_of : {W : Type 0} → Progress W → Option Failure × W
left_of s = (s.primary_error, s.world)

module _ {W : Type 0} (create file drop : Exec W (Unit {0})) (w : W) where
  abbrev pub file_end : Result (Unit {0}) × W
  file_end = file (create w).1

  abbrev pub drop_end : Result (Unit {0}) × W
  drop_end = drop file_end.1

  abbrev pub expected : Result (Unit {0}) → Bool → Option Failure × W
  expected (err e) keep = (some e, (create w).1)
  expected (ok _) true = (error_of file_end.0, file_end.1)
  expected (ok _) false = (error_after (error_of file_end.0) drop_end.0, drop_end.1)

  after_steps : Bool → Result (Unit {0}) × Progress W → Option Failure × W
  unfolding ◌>>=◌ smoke_cleanup
  after_steps keep o = left_of (continue o.0 (λ _. smoke_cleanup drop keep) o.1).1

  pub left_by_lem :
      (keep : Bool) → left_of (progress create file drop keep w) ≡ expected (create w).0 keep
  unfolding ◌>>=◌ smoke_cleanup after_steps
  left_by_lem keep = go (create w).0 refl keep
    where
      go :
          (r : Result (Unit {0}))
          → (create w).0 ≡ r
          → (keep : Bool) → left_of (progress create file drop keep w) ≡ expected r keep
      go (err e) h keep =
          let k : create w ≡ (err e, (create w).1) = cc in
          ap (after_steps keep) (steps_uncreated create file w (create w).1 e k)
      go (ok _) h true =
          let k : create w ≡ (ok tt, (create w).1) = cc in
          ap (after_steps true)
            (steps_created create file file_end.0 w (create w).1 file_end.1 k refl)
      go (ok _) h false =
          let k : create w ≡ (ok tt, (create w).1) = cc in
          ap (after_steps false)
            (steps_created create file file_end.0 w (create w).1 file_end.1 k refl)
          ∙ ap (λ o. left_of (o.1))
              (cleanup_dropped drop drop_end.0 (error_of file_end.0) file_end.1 drop_end.1 refl)

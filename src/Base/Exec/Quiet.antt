-- ===== src/Base/Exec/Quiet.antt =====
-- Actions that never throw.
use mathlib.Core.Path.{◌≡◌, refl}
use mathlib.Core.Bool.{Bool, true, false}
use oc.Base.Tests.{if◌then◌else◌}
use oc.Base.Exec.{
  Exec, Result, Failure, ok, err, pure, ◌>>=◌, ◌>>◌, continue, recover, try_catch, best_effort,
}

pub record Quiet {W A : Type 0} (m : Exec W A) : Type 0 where
  pub returns : (w : W) → (a : A) × ((m w).0 ≡ ok a)

module _ {W A : Type 0} where
  pub Quiet-pure : (a : A) → Quiet {W = W} (pure a)
  unfolding pure
  Quiet-pure a = record { returns = λ w. (a, refl) }

  pub Quiet-if : (b : Bool) (m n : Exec W A) → Quiet m → Quiet n → Quiet (if b then m else n)
  Quiet-if true m n qm qn = qm
  Quiet-if false m n qm qn = qn

  pub Quiet-catch :
      (m : Exec W A) (handler : Failure → Exec W A)
      → ((e : Failure) → Quiet (handler e))
      → Quiet (try_catch m handler)
  unfolding try_catch
  Quiet-catch m handler q = record { returns = λ w. go (m w).0 (m w).1 }
    where
      go : (r : Result A) (v : W) → (a : A) × ((recover r handler v).0 ≡ ok a)
      go (ok a) v = (a, refl)
      go (err e) v = (q e).returns v

module _ {W A B : Type 0} where
  pub Quiet-bind :
      (m : Exec W A) (f : A → Exec W B) → Quiet m → ((a : A) → Quiet (f a)) → Quiet (m >>= f)
  unfolding ◌>>=◌
  Quiet-bind m f qm qf = record { returns = λ w. go (m w).0 (m w).1 (qm.returns w) }
    where
      go : (r : Result A) (v : W) → (a : A) × (r ≡ ok a) → (b : B) × ((continue r f v).0 ≡ ok b)
      go (ok a) v _ = (qf a).returns v
      go (err e) v (a, k) = absurd (cc)

  -- What follows an action that never throws decides the outcome.
  pub bind-outcome :
      (m : Exec W A) (n : Exec W B) (r : Result B) (w : W)
      → Quiet m
      → ((v : W) → (n v).0 ≡ r)
      → ((m >> n) w).0 ≡ r
  unfolding ◌>>=◌
  bind-outcome m n r w qm k = go (m w).0 (m w).1 (qm.returns w)
    where
      go : (q : Result A) (v : W) → (a : A) × (q ≡ ok a) → (continue q (λ _. n) v).0 ≡ r
      go (ok a) v _ = k v
      go (err e) v (a, h) = absurd (cc)

pub Quiet-best_effort : {W : Type 0} (m : Exec W (Unit {0})) → Quiet (best_effort m)
Quiet-best_effort m = Quiet-catch m _ (λ e. Quiet-pure tt)

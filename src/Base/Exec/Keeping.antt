-- ===== src/Base/Exec/Keeping.antt =====
-- Actions that keep a predicate on the state: whatever their outcome is, or if they return.
use mathlib.Core.Path.{◌≡◌, ap, subst}
use mathlib.Core.Bool.{Bool, true, false}
use oc.Base.Tests.{if◌then◌else◌}
use oc.Base.Exec.{
  Exec, Result, Failure, ok, err, pure, throw, ◌>>=◌, continue, recover, try_catch, try_finally,
  best_effort,
}
use oc.Base.Exec.Laws.{bind-eq-ok, finally-eq-ok}

abbrev pub Keeping : {W A : Type 0} → (W → Type 0) → Exec W A → Type 0
Keeping {W} Q m = (w : W) → Q w → Q (m w).1

pub record Returning {W A : Type 0} (Q : W → Type 0) (m : Exec W A) : Type 0 where
  pub keeps : (w w' : W) (a : A) → m w ≡ (ok a, w') → Q w → Q w'

module _ {W : Type 0} (Q : W → Type 0) where
  module _ {A B : Type 0} where
    pub Keeping-bind :
        (m : Exec W A) (f : A → Exec W B)
        → Keeping Q m
        → ((a : A) → Keeping Q (f a))
        → Keeping Q (m >>= f)
    unfolding ◌>>=◌
    Keeping-bind m f km kf w q = go (m w).0 (m w).1 (km w q)
      where
        go : (r : Result A) (v : W) → Q v → Q (continue r f v).1
        go (ok a) v q = kf a v q
        go (err e) v q = q

    pub Returning-bind :
        (m : Exec W A) (f : A → Exec W B)
        → Returning Q m
        → ((a : A) → Returning Q (f a))
        → Returning Q (m >>= f)
    Returning-bind m f km kf = record {
      keeps = λ w w' b h q.
          let (a, v, one, rest) = bind-eq-ok m f h in
          (kf a).keeps v w' b rest (km.keeps w v a one q);
    }

  module _ {A : Type 0} where
    pub Keeping-catch :
        (m : Exec W A) (handler : Failure → Exec W A)
        → Keeping Q m
        → ((e : Failure) → Keeping Q (handler e))
        → Keeping Q (try_catch m handler)
    unfolding try_catch
    Keeping-catch m handler km kh w q = go (m w).0 (m w).1 (km w q)
      where
        go : (r : Result A) (v : W) → Q v → Q (recover r handler v).1
        go (ok a) v q = q
        go (err e) v q = kh e v q

    pub Keeping-if :
        (b : Bool) (m n : Exec W A) → Keeping Q m → Keeping Q n → Keeping Q (if b then m else n)
    Keeping-if true m n km kn = km
    Keeping-if false m n km kn = kn

    pub Returning-if :
        (b : Bool) (m n : Exec W A)
        → Returning Q m
        → Returning Q n
        → Returning Q (if b then m else n)
    Returning-if true m n km kn = km
    Returning-if false m n km kn = kn

    pub Returning-pure : (a : A) → Returning Q (pure a)
    unfolding pure
    Returning-pure a = record { keeps = λ w w' b h. subst Q (ap (λ o. o.1) h) }

    pub Returning-throw : (e : Failure) → Returning Q (throw {A = A} e)
    unfolding throw
    Returning-throw e = record { keeps = λ w w' b h. absurd (cc) }

    pub Returning-finally :
        (m : Exec W A) (last : Exec W (Unit {0}))
        → Returning Q m
        → Returning Q last
        → Returning Q (try_finally m last)
    Returning-finally m last km kl = record {
      keeps = λ w w' a h q.
          let (v, one, two) = finally-eq-ok m last h in kl.keeps v w' tt two (km.keeps w v a one q);
    }

  pub Keeping-best_effort : (m : Exec W (Unit {0})) → Keeping Q m → Keeping Q (best_effort m)
  unfolding pure
  Keeping-best_effort m km = Keeping-catch m _ km (λ e w q. q)

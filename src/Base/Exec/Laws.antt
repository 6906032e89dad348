-- ===== src/Base/Exec/Laws.antt =====
-- Inversion and preservation for code that may throw.
use mathlib.Core.Path.{◌≡◌, refl, ◌∙◌, ap}
use oc.Base.Tests.{if◌then◌else◌}
use mathlib.Core.Bool.{Bool, true, false}
use oc.Base.Exec.{
  try_finally, lift, Exec, Result, ok, err, Failure, ◌>>=◌, ◌>>◌, pure, continue, recover,
  try_catch, best_effort,
}

-- A chain that returns: its first part returned, and the rest did from there.
pub bind-eq-ok :
    {W A B : Type 0} (m : Exec W A) (f : A → Exec W B) {w w' : W} {b : B}
    → (m >>= f) w ≡ (ok b, w')
    → (a : A) × (v : W) × (m w ≡ (ok a, v)) × (f a v ≡ (ok b, w'))
unfolding ◌>>=◌
bind-eq-ok {W} {A} {B} m f {w} {w'} {b} h = go (m w) refl h
  where
    go :
        (o : Result A × W)
        → m w ≡ o
        → continue o.0 f o.1 ≡ (ok b, w')
        → (a : A) × (v : W) × (m w ≡ (ok a, v)) × (f a v ≡ (ok b, w'))
    go (ok a, v) e k = (a, v, e, k)
    go (err x, v) e k = absurd (cc)

-- What a chain keeps: both parts keep it.
pub bind_keeps :
    {W A B X : Type 0} (view : W → X) (m : Exec W A) (f : A → Exec W B)
    → ((w : W) → view (m w).1 ≡ view w)
    → ((a : A) (w : W) → view (f a w).1 ≡ view w)
    → (w : W) → view ((m >>= f) w).1 ≡ view w
unfolding ◌>>=◌
bind_keeps {W} {A} view m f km kf w = go (m w).0 (m w).1 (km w)
  where
    go : (r : Result A) (v : W) → view v ≡ view w → view (continue r f v).1 ≡ view w
    go (ok a) v e = kf a v ∙ e
    go (err x) v e = e

pub catch_keeps :
    {W A X : Type 0} (view : W → X) (m : Exec W A) (handler : Failure → Exec W A)
    → ((w : W) → view (m w).1 ≡ view w)
    → ((e : Failure) (w : W) → view (handler e w).1 ≡ view w)
    → (w : W) → view (try_catch m handler w).1 ≡ view w
unfolding try_catch
catch_keeps {W} {A} view m handler km kh w = go (m w).0 (m w).1 (km w)
  where
    go : (r : Result A) (v : W) → view v ≡ view w → view (recover r handler v).1 ≡ view w
    go (ok a) v e = e
    go (err x) v e = kh x v ∙ e

pub finally_keeps :
    {W A X : Type 0} (view : W → X) (m : Exec W A) (last : Exec W (Unit {0}))
    → ((w : W) → view (m w).1 ≡ view w)
    → ((w : W) → view (last w).1 ≡ view w)
    → (w : W) → view (try_finally m last w).1 ≡ view w
unfolding try_finally lift
finally_keeps view m last km kl w = bind_keeps view last _ kl (λ _ v. refl) (m w).1 ∙ km w

-- `catch {}` goes on from the state that was reached, whatever was thrown.
pub best_effort-bind :
    {W A : Type 0} (m : Exec W (Unit {0})) (n : Exec W A) (w : W)
    → (best_effort m >> n) w ≡ n (m w).1
unfolding pure ◌>>=◌ try_catch
best_effort-bind {W} {A} m n w = go (m w).0 (m w).1
  where
    go :
        (r : Result (Unit {0})) (v : W)
        → (let (q, u) = recover r (λ _. pure tt) v in continue q (λ _. n) u) ≡ n v
    go (ok _) v = refl
    go (err x) v = refl

pub best_effort_keeps :
    {W X : Type 0} (view : W → X) (m : Exec W (Unit {0}))
    → ((w : W) → view (m w).1 ≡ view w)
    → (w : W) → view (best_effort m w).1 ≡ view w
unfolding pure
best_effort_keeps view m km = catch_keeps view m _ km (λ e w. refl)

-- What a chain that throws keeps: its first part keeps it, and so does the rest where it throws.
pub bind_keeps_err :
    {W A B X : Type 0} (view : W → X) (m : Exec W A) (f : A → Exec W B) (w : W) (e : Failure)
    → view (m w).1 ≡ view w
    → ((a : A) (v : W) → (f a v).0 ≡ err e → view (f a v).1 ≡ view v)
    → ((m >>= f) w).0 ≡ err e
    → view ((m >>= f) w).1 ≡ view w
unfolding ◌>>=◌
bind_keeps_err {W} {A} {B} view m f w e km kf h = go (m w).0 (m w).1 km h
  where
    go :
        (r : Result A) (v : W)
        → view v ≡ view w
        → (continue r f v).0 ≡ err e
        → view (continue r f v).1 ≡ view w
    go (ok a) v same k = kf a v k ∙ same
    go (err x) v same k = same

-- A step with nothing but a `return` behind it throws only if the step does.
pub last_keeps_err :
    {W A B X : Type 0} (view : W → X) (m : Exec W A) (b : B) (w : W) (e : Failure)
    → ((x : Failure) → (m w).0 ≡ err x → view (m w).1 ≡ view w)
    → ((m >> pure b) w).0 ≡ err e
    → view ((m >> pure b) w).1 ≡ view w
unfolding ◌>>=◌
last_keeps_err {W} {A} {B} view m b w e km h = go (m w).0 (m w).1 km h
  where
    go :
        (r : Result A) (v : W)
        → ((x : Failure) → r ≡ err x → view v ≡ view w)
        → (continue r (λ _ u. (ok b, u)) v).0 ≡ err e
        → view (continue r (λ _ u. (ok b, u)) v).1 ≡ view w
    go (ok a) v keep k = absurd (cc)
    go (err x) v keep k = keep x refl

-- A handler that always throws: what the attempt kept where it threw, the whole keeps.
pub catch_keeps_err :
    {W A X : Type 0} (view : W → X) (m : Exec W A) (handler : Failure → Exec W A) (w : W)
    (e : Failure)
    → ((x : Failure) → (m w).0 ≡ err x → view (m w).1 ≡ view w)
    → ((x : Failure) (v : W) → view (handler x v).1 ≡ view v)
    → (try_catch m handler w).0 ≡ err e
    → view (try_catch m handler w).1 ≡ view w
unfolding try_catch
catch_keeps_err {W} {A} view m handler w e km kh h = go (m w).0 (m w).1 km h
  where
    go :
        (r : Result A) (v : W)
        → ((x : Failure) → r ≡ err x → view v ≡ view w)
        → (recover r handler v).0 ≡ err e
        → view (recover r handler v).1 ≡ view w
    go (ok a) v keep k = absurd (cc)
    go (err x) v keep k = kh x v ∙ keep x refl

pub if_keeps :
    {W A X : Type 0} (view : W → X) (b : Bool) (m n : Exec W A)
    → ((w : W) → view (m w).1 ≡ view w)
    → ((w : W) → view (n w).1 ≡ view w)
    → (w : W) → view ((if b then m else n) w).1 ≡ view w
if_keeps view true m n km kn = km
if_keeps view false m n km kn = kn

-- The same as a rule, which leaves the parts as variables.
pub bind_returned :
    {W A B P : Type 0} (m : Exec W A) (f : A → Exec W B) {w w' : W} {b : B}
    → (m >>= f) w ≡ (ok b, w')
    → ((a : A) (v : W) → m w ≡ (ok a, v) → f a v ≡ (ok b, w') → P)
    → P
bind_returned m f h k = let (a, v, one, rest) = bind-eq-ok m f h in k a v one rest

-- What a chain keeps from one state: the rest may use what the first part returned.
pub bind_keeps_at :
    {W A B X : Type 0} (view : W → X) (m : Exec W A) (f : A → Exec W B) (w : W)
    → view (m w).1 ≡ view w
    → ((a : A) (v : W) → m w ≡ (ok a, v) → view (f a v).1 ≡ view v)
    → view ((m >>= f) w).1 ≡ view w
unfolding ◌>>=◌
bind_keeps_at {W} {A} {B} view m f w km kf = go (m w) refl km
  where
    go : (o : Result A × W) → m w ≡ o → view o.1 ≡ view w → view (continue o.0 f o.1).1 ≡ view w
    go (ok a, v) e same = kf a v e ∙ same
    go (err x, v) e same = same

-- What a block with `finally` that returns did: the block and the last part both returned.
pub finally-eq-ok :
    {W A : Type 0} (m : Exec W A) (last : Exec W (Unit {0})) {w w' : W} {a : A}
    → try_finally m last w ≡ (ok a, w')
    → (v : W) × (m w ≡ (ok a, v)) × (last v ≡ (ok tt, w'))
unfolding try_finally lift
finally-eq-ok {W} {A} m last {w} {w'} {a} h = go (m w) refl h
  where
    go :
        (o : Result A × W)
        → m w ≡ o
        → (last >> lift o.0) o.1 ≡ (ok a, w')
        → (v : W) × (m w ≡ (ok a, v)) × (last v ≡ (ok tt, w'))
    go (ok x, v) e k = bind_returned last _ k λ _ u done same. (v, e ∙ cc, done ∙ cc)
    go (err x, v) e k = bind_returned last _ k λ _ u done same. absurd (cc)

pub finally_returned :
    {W A P : Type 0} (m : Exec W A) (last : Exec W (Unit {0})) {w w' : W} {a : A}
    → try_finally m last w ≡ (ok a, w')
    → ((v : W) → m w ≡ (ok a, v) → last v ≡ (ok tt, w') → P)
    → P
finally_returned m last h k = let (v, one, two) = finally-eq-ok m last h in k v one two

-- Where the first part returned, a chain is its rest.
pub bind-ok :
    {W A B : Type 0} (m : Exec W A) (f : A → Exec W B) {w v : W} {a : A}
    → m w ≡ (ok a, v)
    → (m >>= f) w ≡ f a v
unfolding ◌>>=◌
bind-ok m f h = ap (λ o. continue o.0 f o.1) h

pub finally-ok :
    {W A : Type 0} (m : Exec W A) (last : Exec W (Unit {0})) {w v w' : W} {a : A}
    → m w ≡ (ok a, v)
    → last v ≡ (ok tt, w')
    → try_finally m last w ≡ (ok a, w')
unfolding try_finally lift
finally-ok m last {w} {v} {w'} {a} h k =
    ap (λ o. (last >> lift o.0) o.1) h ∙ bind-ok last (λ _. lift (ok a)) k

pub paired : {W A : Type 0} {a : A} (o : Result A × W) → o.0 ≡ ok a → o ≡ (ok a, o.1)
paired o h = cc

-- the outcome of a bind whose first action fails, and of a try that does not throw
pub bind_failed :
    {W A B : Type 0} (m : Exec W A) (f : A → Exec W B) (w : W) (e : Failure)
    → (m w).0 ≡ err e
    → ((m >>= f) w).0 ≡ err e
unfolding ◌>>=◌
bind_failed m f w e h = rw h refl

pub caught_ok :
    {W A : Type 0} (m : Exec W A) (handler : Failure → Exec W A) (w : W) (a : A)
    → (m w).0 ≡ ok a
    → (try_catch m handler w).0 ≡ ok a
unfolding try_catch
caught_ok m handler w a h = rw h refl

-- a try that throws
pub caught_by :
    {W A : Type 0} (m : Exec W A) (handler : Failure → Exec W A) (w : W) (e : Failure) (a : A)
    → (m w).0 ≡ err e
    → ((v : W) → (handler e v).0 ≡ ok a)
    → (try_catch m handler w).0 ≡ ok a
unfolding try_catch
caught_by m handler w e a h k = rw h (k _)

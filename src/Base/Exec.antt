-- ===== src/Base/Exec.antt =====
-- Code that may throw, over a state: `async` functions, `try`, `catch` and `finally`.
-- What a call did before it threw stays done, so the state comes back beside the failure too.
pub mod Laws
pub mod Quiet
pub mod Keeping
use Prim.Native.String.{String}

-- What the code throws: the exceptions of @nestjs/common that it uses and any other Error, each with
-- its message, and `thrown_value` for a text that is thrown as it is.
pub data Failure : Type 0 where
  unauthorized bad_request forbidden internal : String → Failure
  too_many_requests service_unavailable other thrown_value : String → Failure

pub data Result {ℓ} (A : Type ℓ) : Type ℓ where
  ok : A → Result A
  err : Failure → Result A

abbrev pub Exec : Type 0 → Type 0 → Type 0
Exec W A = W → Result A × W

module _ {W A : Type 0} where
  unfoldable pub pure : A → Exec W A
  pure a w = (ok a, w)

  unfoldable pub throw : Failure → Exec W A
  throw e w = (err e, w)

  unfoldable pub lift : Result A → Exec W A
  lift r w = (r, w)

module _ {W A B : Type 0} where
  abbrev pub continue : Result A → (A → Exec W B) → Exec W B
  continue (ok a) f w = f a w
  continue (err e) f w = (err e, w)

  infixl 10 ◌>>=◌ ◌>>◌
  -- Opening this opens `pure`, `throw` and `lift` too.
  unfoldable pub ◌>>=◌ : Exec W A → (A → Exec W B) → Exec W B
  unfolding pure throw lift
  ◌>>=◌ m f w = let (r, w') = m w in continue r f w'

  abbrev pub ◌>>◌ : Exec W A → Exec W B → Exec W B
  m >> n = m >>= λ _. n

module _ {W A : Type 0} where
  abbrev pub recover : Result A → (Failure → Exec W A) → Exec W A
  recover (ok a) handler w = (ok a, w)
  recover (err e) handler w = handler e w

  -- `try { m } catch (e) { handler(e) }`
  unfoldable pub try_catch : Exec W A → (Failure → Exec W A) → Exec W A
  try_catch m handler w = let (r, w') = m w in recover r handler w'

  -- `try { m } finally { last }`: a throw of `last` replaces the outcome of `m`.
  unfoldable pub try_finally : Exec W A → Exec W (Unit {0}) → Exec W A
  unfolding ◌>>=◌
  try_finally m last w = let (r, w') = m w in (last >> lift r) w'

-- `try { m } catch {}`, for what `m` did and not for its value
abbrev pub best_effort : {W : Type 0} → Exec W (Unit {0}) → Exec W (Unit {0})
best_effort m = try_catch m (λ _. pure tt)

-- ===== src/Base/Text/Truthy.antt =====
-- Truthiness of strings as an equation.
use Prim.Native.String.{String, [], ◌∷◌}
use mathlib.Core.Path.{◌≡◌, refl}
use mathlib.Core.Logic.{◌≢◌}
use mathlib.Core.Bool.{true}
use oc.Base.Text.{truthy}

pub truthy-ne : (s : String) → truthy s ≡ true → s ≢ ""
truthy-ne [] h = λ e. cc
truthy-ne (c ∷ s) h = λ e. cc

pub ne-truthy : (s : String) → s ≢ "" → truthy s ≡ true
ne-truthy [] h = absurd (h refl)
ne-truthy (c ∷ s) h = refl

-- ===== src/Base/Text/Prefix.antt =====
-- `startsWith` and `slice` against concatenation.
use Prim.Native.Char.{code}
use Prim.Native.String.{String, [], ◌∷◌, ◌++◌}
use mathlib.Core.Path.{◌≡◌, sym}
use mathlib.Core.Option.{some}
use native.Mathlib.Omega.{arith}
use text.Mathlib.TextEquality.{Char-path}
use text.Mathlib.TextLemmas.{nil-append, cons-append}
use oc.Base.Text.{strip_prefix}

pub strip_prefix-append : (p s : String) → strip_prefix p (p ++ s) ≡ some s
unfolding strip_prefix
strip_prefix-append [] s = rw nil-append
strip_prefix-append (c ∷ p) s = rw cons-append (ground (arith, strip_prefix-append p s))

pub append_of_strip_prefix : (p s r : String) → strip_prefix p s ≡ some r → s ≡ p ++ r
unfolding strip_prefix
append_of_strip_prefix [] s r h = rw nil-append (ground arith)
append_of_strip_prefix (c ∷ p) [] r h = absurd (cc)
append_of_strip_prefix (c ∷ p) (d ∷ s) r h =
    let same : code c ≡ code d = ground arith in
    let rest : strip_prefix p s ≡ some r = ground arith in
    rw (Char-path c d same, append_of_strip_prefix p s r rest) (sym (cons-append d p r))

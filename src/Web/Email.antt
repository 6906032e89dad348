-- ===== src/Web/Email.antt =====
-- `isValidEmail` of admin-shell.component.ts: the regular expression /^[^\s@]+@[^\s@]+\.[^\s@]+$/.
pub mod Split
use oc.Base.{String, Bool, true, false, not, ◌&&◌, ◌||◌, eqb}
use Prim.Native.Char.{Char, code}
use Prim.Native.String.{[], ◌∷◌}
use oc.Base.Text.{truthy, is_space}

-- `[^\s@]`
unfoldable pub is_word : Char → Bool
is_word c = not (is_space (code c)) && not (eqb (code c) 0x40)

unfoldable pub all_word : String → Bool
all_word [] = true
all_word (c ∷ s) = is_word c && all_word s

-- `[^\s@]*\.[^\s@]+$`
unfoldable pub matches_dot : String → Bool
matches_dot [] = false
matches_dot (c ∷ s) = (eqb (code c) 0x2e && truthy s && all_word s) || (is_word c && matches_dot s)

-- `[^\s@]+\.[^\s@]+$`
unfoldable pub matches_domain : String → Bool
matches_domain [] = false
matches_domain (c ∷ s) = is_word c && matches_dot s

-- `[^\s@]*@[^\s@]+\.[^\s@]+$`
unfoldable pub matches_at : String → Bool
matches_at [] = false
matches_at (c ∷ s) = (eqb (code c) 0x40 && matches_domain s) || (is_word c && matches_at s)

unfoldable pub is_valid_email : String → Bool
is_valid_email [] = false
is_valid_email (c ∷ s) = is_word c && matches_at s

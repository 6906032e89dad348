-- ===== src/Database/Parameters.antt =====
-- `bindParameters` of database.service.ts, and that each call binds what its text names.
use oc.Base.{ℕ, String, Option, none, some, Bool, true, false, ◌&&◌, ◌||◌, List, [], ◌∷◌, ◌++◌, map}
use oc.Base.{◌≡◌, refl, eqb, leb, coalesce, if◌then◌else◌}
use Prim.Native.Char.{code}
use Prim.Native.String
use Prim.Native.String.{[], ◌∷◌}
use oc.Database.Statements.{
  Statement, set_company_id, set_user_role, set_global_principal_login, select_one,
  select_global_user, select_bootstrap, update_bootstrap, insert_company, insert_admin,
  insert_tenant_admin_role, insert_audit_event, count_denied, insert_protection, select_blocked,
  select_history,
}
use oc.Database.Texts.{SqlValue, null, Call, sent_as}

-- the inputs of a `sql.Request`, in the order in which they were set
abbrev pub Inputs : Type 0
Inputs = List (String × SqlValue)

unfoldable pub bind_parameters : Inputs → List (String × Option SqlValue) → Inputs
bind_parameters request [] = request
bind_parameters request (p ∷ ps) = bind_parameters (request ++ ((p.0, coalesce p.1 null) ∷ [])) ps

-- a character of a name
abbrev is_name_code : ℕ → Bool
is_name_code c =
    (leb 0x41 c && leb c 0x5a)
    || (leb 0x61 c && leb c 0x7a)
    || (leb 0x30 c && leb c 0x39)
    || eqb c 0x5f

-- `=` comes next
abbrev is_argument : ℕ → String → Bool
is_argument c [] = false
is_argument c (d ∷ s) = eqb c 0x20 && eqb (code d) 0x3d

-- The parameters that a text names, from the state of the reader: outside a name, or behind an at-sign
-- and the first characters. A name before `=` is that of an argument of a procedure.
pub read_names : Option String → String → List String
read_names none [] = []
read_names (some name) [] = name ∷ []
read_names none (c ∷ s) =
    let inside = read_names (some "") s in
    let outside = read_names none s in if eqb (code c) 0x40 then inside else outside
read_names (some name) (c ∷ s) =
    let longer = read_names (some (String.◌++◌ name (c ∷ []))) s in
    let ended = read_names none s in
    if is_name_code (code c) then longer else if is_argument (code c) s then ended else name ∷ ended

pub placeholders : String → List String
placeholders text = read_names none text

abbrev pub input_names : Inputs → List String
input_names = map (λ (i : String × SqlValue). i.0)

abbrev pub Binds : Call → Type 0
Binds call = input_names (bind_parameters [] call.parameters) ≡ placeholders call.sql_text

abbrev pub EachBinds : List Call → Type 0
EachBinds [] = Unit {0}
EachBinds (c ∷ cs) = Binds c × EachBinds cs

-- Each call binds exactly the parameters that its text names, each once and in the order of the text,
-- and leaves no other input on the request.
pub bind_parameters-placeholders : (q : Statement) → EachBinds (sent_as q)
unfolding sent_as bind_parameters placeholders read_names
bind_parameters-placeholders (set_company_id none) = (refl, (refl, tt))
bind_parameters-placeholders (set_company_id (some v)) = (refl, tt)
bind_parameters-placeholders (set_user_role none) = (refl, (refl, tt))
bind_parameters-placeholders (set_user_role (some v)) = (refl, tt)
bind_parameters-placeholders (set_global_principal_login true) = (refl, tt)
bind_parameters-placeholders (set_global_principal_login false) = (refl, tt)
bind_parameters-placeholders select_one = (refl, tt)
bind_parameters-placeholders (select_global_user u) = (refl, tt)
bind_parameters-placeholders (select_bootstrap h) = (refl, tt)
bind_parameters-placeholders (update_bootstrap u) = (refl, tt)
bind_parameters-placeholders (insert_company n) = (refl, tt)
bind_parameters-placeholders (insert_admin c e) = (refl, tt)
bind_parameters-placeholders (insert_tenant_admin_role u c) = (refl, tt)
bind_parameters-placeholders (insert_audit_event e) = (refl, tt)
bind_parameters-placeholders (count_denied i w) = (refl, tt)
bind_parameters-placeholders (insert_protection p) = (refl, tt)
bind_parameters-placeholders (select_blocked i) = (refl, tt)
bind_parameters-placeholders (select_history i) = (refl, tt)

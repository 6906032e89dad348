-- ===== src/Smoke/Queries/Literals.antt =====
-- What SQL Server reads in the two texts: a literal ends at a mark that is not doubled.
use oc.Base.{ℕ, String, Option, none, some, Bool, true, false, List, [], ◌∷◌}
use oc.Base.{◌≡◌, refl, sym, ◌∙◌, ap, arith, eqb, if◌then◌else◌, Bool-cases, inl, inr}
use Prim.Native.Char.{Char, code}
use Prim.Native.String.{[], ◌∷◌, ◌++◌}
use text.Mathlib.TextLemmas.{nil-append, cons-append, append_assoc, append-nil}
use oc.Base.Text.{strip_prefix}
use oc.Base.Text.Prefix.{strip_prefix-append}
use oc.Smoke.Queries.{
  double_mark, sql_string, sql_identifier, create_database_sql, drop_database_sql,
}

abbrev with_front : Char → Option (String × String) → Option (String × String)
with_front c none = none
with_front c (some (value, rest)) = some (c ∷ value, rest)

-- The value of a literal and the text behind it, from the text behind its opening mark. The flag says
-- that a mark was just read, of which it is not known yet whether it ends the literal.
pub read_literal : ℕ → Bool → String → Option (String × String)
read_literal mark false [] = none
read_literal mark true [] = some ([], [])
read_literal mark false (c ∷ s) =
    let marked = read_literal mark true s in
    let plain = with_front c (read_literal mark false s) in
    if eqb (code c) mark then marked else plain
read_literal mark true (c ∷ s) =
    let doubled = with_front c (read_literal mark false s) in
    if eqb (code c) mark then doubled else some ([], c ∷ s)

-- A statement as its reader expects it: fixed text, and literals with their closing mark
pub data Piece : Type 0 where
  fixed : String → Piece
  literal : ℕ → Piece

abbrev finished : String → Option (List String)
finished [] = some []
finished (c ∷ s) = none

abbrev with_value : Option (List String) → String → Option (List String)
with_value none value = none
with_value (some values) value = some (value ∷ values)

abbrev and_then : {A B : Type 0} → Option A → (A → Option B) → Option B
and_then none f = none
and_then (some a) f = f a

-- The values of the literals of a text that is made of these pieces
abbrev pub read_pieces : List Piece → String → Option (List String)
read_pieces [] s = finished s
read_pieces (fixed p ∷ ps) s = and_then (strip_prefix p s) (read_pieces ps)
read_pieces (literal mark ∷ ps) s =
    and_then (read_literal mark false s) (λ o. with_value (read_pieces ps o.1) o.0)

-- the character that comes first is not the mark
abbrev begins_with : ℕ → String → Bool
begins_with mark [] = false
begins_with mark (c ∷ s) = eqb (code c) mark

read_ended :
    (mark : ℕ) (rest : String)
    → begins_with mark rest ≡ false
    → read_literal mark true rest ≡ some ([], rest)
unfolding read_literal
read_ended mark [] h = refl
read_ended mark (c ∷ s) h = rw h refl

read_literal-double_mark :
    (mark : ℕ) (value : String) (closing : Char) (rest : String)
    → code closing ≡ mark
    → begins_with mark rest ≡ false
    → read_literal mark false (double_mark mark value ++ (closing ∷ rest)) ≡ some (value, rest)
unfolding read_literal double_mark
read_literal-double_mark mark [] closing rest e h =
    let here : eqb (code closing) mark ≡ true = ground arith in
    rw (nil-append (closing ∷ rest), here) (read_ended mark rest h)
read_literal-double_mark mark (c ∷ value) closing rest e h =
    let later = read_literal-double_mark mark value closing rest e h in
    elim (Bool-cases (eqb (code c) mark)) [
      | inl same ↦
          rw
            (
              same,
              cons-append c (c ∷ double_mark mark value) (closing ∷ rest),
              cons-append c (double_mark mark value) (closing ∷ rest),
              same,
              later,
            )
            refl
      | inr other ↦
          rw (other, cons-append c (double_mark mark value) (closing ∷ rest), other, later) refl
    ]

module _ (ps : List Piece) where
  read_fixed : (p s : String) → read_pieces (fixed p ∷ ps) (p ++ s) ≡ read_pieces ps s
  read_fixed p s = ap (λ o. and_then o (read_pieces ps)) (strip_prefix-append p s)

  read_value :
      (mark : ℕ) (value : String) (closing : Char) (rest : String)
      → code closing ≡ mark
      → begins_with mark rest ≡ false
      → read_pieces (literal mark ∷ ps) (double_mark mark value ++ (closing ∷ rest))
        ≡ with_value (read_pieces ps rest) value
  read_value mark value closing rest e h =
      ap (λ o. and_then o (λ o. with_value (read_pieces ps o.1) o.0))
        (read_literal-double_mark mark value closing rest e h)

  -- `N'…'`
  read_string :
      (value rest : String)
      → begins_with 0x27 rest ≡ false
      → read_pieces (literal 0x27 ∷ ps) (sql_string value ++ ("'" ++ rest))
        ≡ with_value (read_pieces ps rest) value
  unfolding sql_string
  read_string value rest h =
      rw (cons-append "'" [] rest, nil-append rest) (read_value 0x27 value "'" rest refl h)

-- `[…]`
read_identifier :
    (ps : List Piece) (value rest : String)
    → begins_with 0x5d rest ≡ false
    → read_pieces (fixed "[" ∷ literal 0x5d ∷ ps) (sql_identifier value ++ rest)
      ≡ with_value (read_pieces ps rest) value
unfolding sql_identifier
read_identifier ps value rest h =
    ap (read_pieces (fixed "[" ∷ literal 0x5d ∷ ps))
      (append_assoc "[" (double_mark 0x5d value ++ "]") rest)
    ∙ read_fixed (literal 0x5d ∷ ps) "[" _
    ∙ ap (read_pieces (literal 0x5d ∷ ps)) (
        append_assoc (double_mark 0x5d value) "]" rest
        ∙ ap (λ r. double_mark 0x5d value ++ r)
            (cons-append "]" [] rest ∙ ap (λ r. "]" ∷ r) (nil-append rest)))
    ∙ read_value ps 0x5d value "]" rest refl h

unmarked :
    (mark : ℕ) (c : Char) (s rest : String)
    → eqb (code c) mark ≡ false
    → begins_with mark ((c ∷ s) ++ rest) ≡ false
unmarked mark c s rest h = ap (begins_with mark) (cons-append c s rest) ∙ h

abbrev pub create_pieces : List Piece
create_pieces =
    fixed "\nIF DB_ID(N'"
    ∷ literal 0x27
    ∷ fixed
        ") IS NOT NULL\n  THROW 51010, 'SQL smoke database already exists.', 1;\nCREATE DATABASE "
    ∷ fixed "["
    ∷ literal 0x5d
    ∷ fixed ";\n"
    ∷ []

abbrev pub drop_pieces : List Piece
drop_pieces =
    fixed "\nIF DB_ID(N'"
    ∷ literal 0x27
    ∷ fixed ") IS NOT NULL\nBEGIN\n  ALTER DATABASE "
    ∷ fixed "["
    ∷ literal 0x5d
    ∷ fixed " SET SINGLE_USER WITH ROLLBACK IMMEDIATE;\n  DROP DATABASE "
    ∷ fixed "["
    ∷ literal 0x5d
    ∷ fixed ";\nEND;\n"
    ∷ []

read_guard :
    (ps : List Piece) (value : String) (c : Char) (s rest : String)
    → eqb (code c) 0x27 ≡ false
    → read_pieces
        (fixed "\nIF DB_ID(N'" ∷ literal 0x27 ∷ fixed (c ∷ s) ∷ ps)
        ("\nIF DB_ID(N'" ++ (sql_string value ++ (("'" ++ (c ∷ s)) ++ rest)))
      ≡ with_value (read_pieces ps rest) value
read_guard ps value c s rest h =
    read_fixed (literal 0x27 ∷ fixed (c ∷ s) ∷ ps) "\nIF DB_ID(N'" _
    ∙ ap (λ r. read_pieces (literal 0x27 ∷ fixed (c ∷ s) ∷ ps) (sql_string value ++ r))
        (append_assoc "'" (c ∷ s) rest)
    ∙ read_string (fixed (c ∷ s) ∷ ps) value ((c ∷ s) ++ rest) (unmarked 0x27 c s rest h)
    ∙ ap (λ o. with_value o value) (read_fixed ps (c ∷ s) rest)

-- `…[name]c s`
read_named :
    (ps : List Piece) (value : String) (c : Char) (s rest : String)
    → eqb (code c) 0x5d ≡ false
    → read_pieces
        (fixed "[" ∷ literal 0x5d ∷ fixed (c ∷ s) ∷ ps)
        (sql_identifier value ++ ((c ∷ s) ++ rest))
      ≡ with_value (read_pieces ps rest) value
read_named ps value c s rest h =
    read_identifier (fixed (c ∷ s) ∷ ps) value ((c ∷ s) ++ rest) (unmarked 0x5d c s rest h)
    ∙ ap (λ o. with_value o value) (read_fixed ps (c ∷ s) rest)

create_database_sql_read :
    (name : String) → read_pieces create_pieces (create_database_sql name) ≡ some (name ∷ name ∷ [])
unfolding create_database_sql
create_database_sql_read name =
    ap
      (λ r. read_pieces create_pieces (
        "\nIF DB_ID(N'"
        ++ (sql_string name
            ++ ("') IS NOT NULL\n  THROW 51010, 'SQL smoke database already exists.', 1;\nCREATE DATABASE "
                ++ (sql_identifier name ++ r)))))
      (sym (append-nil ";\n"))
    ∙ read_guard (fixed "[" ∷ literal 0x5d ∷ fixed ";\n" ∷ []) name ")"
        " IS NOT NULL\n  THROW 51010, 'SQL smoke database already exists.', 1;\nCREATE DATABASE "
        (sql_identifier name ++ (";\n" ++ "")) refl
    ∙ ap (λ o. with_value o name) (read_named [] name ";" "\n" "" refl)

drop_database_sql_read :
    (name : String)
    → read_pieces drop_pieces (drop_database_sql name) ≡ some (name ∷ name ∷ name ∷ [])
unfolding drop_database_sql
drop_database_sql_read name =
    ap
      (λ r. read_pieces drop_pieces (
        "\nIF DB_ID(N'"
        ++ (sql_string name
            ++ ("') IS NOT NULL\nBEGIN\n  ALTER DATABASE "
                ++ (sql_identifier name
                    ++ (" SET SINGLE_USER WITH ROLLBACK IMMEDIATE;\n  DROP DATABASE "
                        ++ (sql_identifier name ++ r)))))))
      (sym (append-nil ";\nEND;\n"))
    ∙ read_guard
        (fixed "["
          ∷ literal 0x5d
          ∷ fixed " SET SINGLE_USER WITH ROLLBACK IMMEDIATE;\n  DROP DATABASE "
          ∷ fixed "["
          ∷ literal 0x5d
          ∷ fixed ";\nEND;\n"
          ∷ [])
        name ")" " IS NOT NULL\nBEGIN\n  ALTER DATABASE "
        (sql_identifier name
          ++ (" SET SINGLE_USER WITH ROLLBACK IMMEDIATE;\n  DROP DATABASE "
              ++ (sql_identifier name ++ (";\nEND;\n" ++ ""))))
        refl
    ∙ ap (λ o. with_value o name)
        (read_named (fixed "[" ∷ literal 0x5d ∷ fixed ";\nEND;\n" ∷ []) name " "
            "SET SINGLE_USER WITH ROLLBACK IMMEDIATE;\n  DROP DATABASE "
            (sql_identifier name ++ (";\nEND;\n" ++ "")) refl
          ∙ ap (λ o. with_value o name) (read_named [] name ";" "\nEND;\n" "" refl))

-- Whatever characters a name holds, the literals of the texts that create and drop a database read
-- back as that name, with nothing of the name outside them.
pub read_pieces-database_sql :
    (name : String)
    → (read_pieces create_pieces (create_database_sql name) ≡ some (name ∷ name ∷ []))
      × (read_pieces drop_pieces (drop_database_sql name) ≡ some (name ∷ name ∷ name ∷ []))
read_pieces-database_sql name = (create_database_sql_read name, drop_database_sql_read name)

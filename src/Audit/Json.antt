-- ===== src/Audit/Json.antt =====
-- `JSON.stringify` of an object whose values are strings, which is what audit.service.ts is given.
use Prim.Native.Char.{Char, code}
use Prim.Native.String.{String, [], ◌∷◌, ◌++◌}
use Prim.Native.Nat.{ℕ, ◌/◌, ◌%◌}
use mathlib.Core.List.{List, [], ◌∷◌}
use oc.Base.Tests.{ltb, eqb, if◌then◌else◌}

-- a hexadecimal digit
abbrev hex_letter : ℕ → String
hex_letter d =
    if eqb d 10
    then "a"
    else if eqb d 11
    then "b"
    else if eqb d 12
    then "c"
    else if eqb d 13
    then "d"
    else if eqb d 14
    then "e"
    else "f"

abbrev hex_digit : ℕ → String
hex_digit d =
    if eqb d 0
    then "0"
    else if eqb d 1
    then "1"
    else if eqb d 2
    then "2"
    else if eqb d 3
    then "3"
    else if eqb d 4
    then "4"
    else if eqb d 5
    then "5"
    else if eqb d 6
    then "6"
    else if eqb d 7
    then "7"
    else if eqb d 8
    then "8"
    else if eqb d 9
    then "9"
    else hex_letter d

-- the escapes of QuoteJSONString
unfoldable pub quote_char : Char → String
quote_char c =
    if eqb (code c) 0x22
    then "\\\""
    else if eqb (code c) 0x5c
    then "\\\\"
    else if eqb (code c) 8
    then "\\b"
    else if eqb (code c) 9
    then "\\t"
    else if eqb (code c) 10
    then "\\n"
    else if eqb (code c) 12
    then "\\f"
    else if eqb (code c) 13
    then "\\r"
    else if ltb (code c) 0x20
    then "\\u00" ++ hex_digit (code c / 16) ++ hex_digit (code c % 16)
    else c ∷ []

unfoldable pub quote_chars : String → String
unfolding quote_char
quote_chars [] = []
quote_chars (c ∷ s) = quote_char c ++ quote_chars s

unfoldable pub quote : String → String
unfolding quote_chars
quote s = "\"" ++ quote_chars s ++ "\""

members : List (String × String) → String
unfolding quote
members [] = ""
members ((k, v) ∷ []) = quote k ++ ":" ++ quote v
members ((k, v) ∷ m ∷ ms) = quote k ++ ":" ++ quote v ++ "," ++ members (m ∷ ms)

unfoldable pub stringify : List (String × String) → String
unfolding members
stringify ms = "{" ++ members ms ++ "}"

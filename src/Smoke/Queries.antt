-- ===== src/Smoke/Queries.antt =====
-- scripts/run-local-rls-smoke.mjs: the texts that create and drop the smoke database.
pub mod Literals
use oc.Base.{ℕ, String, eqb, if◌then◌else◌}
use Prim.Native.Char.{code}
use Prim.Native.String.{[], ◌∷◌, ◌++◌}

-- `value.replaceAll(mark, mark + mark)` for a mark of one character
unfoldable pub double_mark : ℕ → String → String
double_mark mark [] = []
double_mark mark (c ∷ s) =
    let rest = double_mark mark s in if eqb (code c) mark then c ∷ c ∷ rest else c ∷ rest

unfoldable pub sql_string : String → String
sql_string value = double_mark 0x27 value

unfoldable pub sql_identifier : String → String
sql_identifier value = "[" ++ (double_mark 0x5d value ++ "]")

unfoldable pub create_database_sql : String → String
unfolding sql_string sql_identifier
create_database_sql name =
    "\nIF DB_ID(N'"
    ++ (sql_string name
        ++ ("') IS NOT NULL\n  THROW 51010, 'SQL smoke database already exists.', 1;\nCREATE DATABASE "
            ++ (sql_identifier name ++ ";\n")))

unfoldable pub drop_database_sql : String → String
unfolding sql_string sql_identifier
drop_database_sql name =
    "\nIF DB_ID(N'"
    ++ (sql_string name
        ++ ("') IS NOT NULL\nBEGIN\n  ALTER DATABASE "
            ++ (sql_identifier name
                ++ (" SET SINGLE_USER WITH ROLLBACK IMMEDIATE;\n  DROP DATABASE "
                    ++ (sql_identifier name ++ ";\nEND;\n")))))

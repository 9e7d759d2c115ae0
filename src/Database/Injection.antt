-- ===== src/Database/Injection.antt =====
-- What `addUser` of server/database.cpp makes of a text with quotes.
use mathlib.Core.List.{append_assoc}
use np_hw.Prelude.{◌≡◌, ◌++◌, Str, lit}
use np_hw.Database.Users.{User, insert_sql}

-- A row of a statement that inserts several, in the form of `addUser`, and without the spaces.
abbrev spaced_row : Str → Str → Str → Str
spaced_row username email password =
    lit "('" ++ (username ++ (lit "', '" ++ (email ++ (lit "', '" ++ (password ++ lit "')")))))

abbrev tight_row : User → Str
tight_row w =
    lit "('" ++ (w.username ++ (lit "','" ++ (w.email ++ (lit "','" ++ (w.password ++ lit "')")))))

abbrev pub two_rows_sql : Str → Str → Str → User → Str
two_rows_sql username email password w =
    lit "INSERT INTO 'bbs_server' VALUES "
    ++ (spaced_row username email password ++ (lit "," ++ (tight_row w ++ lit ";")))

-- A password that ends the row and begins another.
abbrev pub smuggled : Str → User → Str
smuggled password w =
    password
    ++ (lit "'),('" ++ (w.username ++ (lit "','" ++ (w.email ++ (lit "','" ++ w.password)))))

-- `addUser` with a password that ends the row and begins another runs the statement that inserts
-- both users, so that one registration enters an account of any name with any password.
pub insert_sql-smuggled :
    (username email password : Str) (w : User)
    → insert_sql username email (smuggled password w) ≡ two_rows_sql username email password w
unfolding lit
insert_sql-smuggled username email password w = simp append_assoc

-- ===== src/Database/Users.antt =====
-- The users' table of server/database.cpp, kept by SQLite, which is a parameter.
use np_hw.Prelude.{
  Bool, true, false, Option, none, some, List, [], ◌∷◌, ◌++◌, Str, lit, leb, length, Exec, Result,
  ok, throws, invalid_argument, runtime_error, if◌then◌else◌,
}
use np_hw.Prelude.Search.{find, is_some}

pub record User : Type 0 where
  pub username : Str
  pub email : Str
  pub password : Str

-- What `sqlite3_exec` hands back: the three columns of each row, in the order of the callback's
-- calls, the error message if there is one, and the database after it.
pub record Answer (H : Type 0) : Type 0 where
  pub rows : List User
  pub errmsg : Option Str
  pub handle : H

pub record Sqlite : Type 1 where
  pub Handle : Type 0
  pub exec : Str → Handle → Answer Handle

abbrev pub message_of : Option Str → Str
message_of none = []
message_of (some e) = e

abbrev pub insert_sql : Str → Str → Str → Str
insert_sql username email password =
    lit "INSERT INTO 'bbs_server' VALUES ("
    ++ (lit "'" ++ (username ++ (lit "', '" ++ (email ++ (lit "', '" ++ (password ++ lit "');"))))))

abbrev pub select_sql : Str → Str
select_sql username =
    lit "SELECT username, email, password FROM 'bbs_server' WHERE username='"
    ++ (username ++ lit "';")

abbrev pub select_all_sql : Str
select_all_sql = lit "SELECT username, email, password FROM 'bbs_server';"

abbrev pub create_sql : Str
create_sql =
    lit "CREATE TABLE main.'bbs_server' ("
    ++ (lit "username TEXT UNIQUE NOT NULL,"
        ++ (lit "email TEXT NOT NULL," ++ lit "password TEXT NOT NULL);"))

-- `getUserCallback` keeps the last row that it is called with.
unfoldable pub last_row : List User → Option User
last_row [] = none
last_row (u ∷ []) = some u
last_row (u ∷ (w ∷ us)) = last_row (w ∷ us)

module _ (sql : Sqlite) where
  open sql use {Handle, exec}

  abbrev created : Answer Handle → Result (Unit {0}) × Handle
  created a =
      if is_some (find (lit "syntax error") (message_of a.errmsg))
      then (throws invalid_argument, a.handle)
      else (ok tt, a.handle)

  unfoldable pub create_table : Exec Handle (Unit {0})
  create_table h = created (exec create_sql h)

  abbrev inserted : Answer Handle → Result Bool × Handle
  inserted a =
      let err = message_of a.errmsg in
      if is_some (find (lit "UNIQUE constraint") err)
      then (ok false, a.handle)
      else (if leb 1 (length err) then (throws invalid_argument, a.handle) else (ok true, a.handle))

  unfoldable pub add_user : Str → Str → Str → Exec Handle Bool
  add_user username email password h = inserted (exec (insert_sql username email password) h)

  abbrev selected {ℓ} : {A : Type ℓ} → (List User → A) → Answer Handle → Result A × Handle
  selected f a =
      if leb 1 (length (message_of a.errmsg))
      then (throws runtime_error, a.handle)
      else (ok (f a.rows), a.handle)

  -- `none` where the source sets `success` to false.
  unfoldable pub get_user : Str → Exec Handle (Option User)
  unfolding last_row
  get_user username h = selected last_row (exec (select_sql username) h)

  unfoldable pub get_users : Exec Handle (List User)
  get_users h = selected (λ us. us) (exec select_all_sql h)

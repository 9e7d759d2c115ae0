-- ===== src/Server/State.antt =====
-- The globals of server/server.cpp, and what its handlers share. A handler runs as one step: the
-- token's user does not change while the token is valid, and every room changes under
-- `login_mutex`.
use np_hw.Prelude.{
  [], Str, String, lit, ℤ, int_key, str_key, Map, lookup, insert, Exec, Result, ok, lift, at, ◌>>=◌,
}
use np_hw.Prelude.Decimal.{stoi}
use np_hw.Database.Types.{Database}

-- `H` is the state that SQLite keeps.
pub record Server (H : Type 0) : Type 0 where
  pub users : H
  pub db : Database
  pub logins : Map ℤ Str

-- The fields of a `Data_package`; no handler touches a payload.
abbrev pub Fields : Type 0
Fields = Map Str Str

-- `fields[name] = value`
abbrev pub assign : String → Str → Fields → Fields
assign name value m = insert (lit name) value m

abbrev pub reply_to : Str → Fields
reply_to type = assign "type" type []

-- A reply with a type and a message.
abbrev pub message_reply : Str → Str → Fields
message_reply type message = assign "message" message (reply_to type)

abbrev pub please_login : Str
please_login = lit "Please login first.\n"

module _ {H : Type 0} where
  -- `fields.at(name)`
  unfoldable pub field : String → Fields → Exec (Server H) Str
  field name rec = at (lookup (lit name) rec)

  -- `std::stoi(fields.at(name))`
  unfoldable pub int_field : String → Fields → Exec (Server H) ℤ
  unfolding field
  int_field name rec = do text ← field name rec; lift (stoi text)

  -- `logins.at(userID)`
  unfoldable pub login_of : ℤ → Exec (Server H) Str
  login_of user_id s = at (lookup user_id s.logins) s

  abbrev on_database : {A : Type 0} → Server H → Result A × Database → Result A × Server H
  on_database s (r, db) = (r, record s { db = db })

  -- A call of a method of `db`.
  unfoldable pub db_call : {A : Type 0} → Exec Database A → Exec (Server H) A
  db_call m s = on_database s (m s.db)

  abbrev on_users : {A : Type 0} → Server H → Result A × H → Result A × Server H
  on_users s (r, h) = (r, record s { users = h })

  unfoldable pub sql_call : {A : Type 0} → Exec H A → Exec (Server H) A
  sql_call m s = on_users s (m s.users)

  -- `logins[id] = name` and `logins.erase(id)`
  unfoldable pub set_logins : (Map ℤ Str → Map ℤ Str) → Exec (Server H) (Unit {0})
  set_logins f s = (ok tt, record s { logins = f s.logins })

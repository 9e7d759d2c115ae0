-- ===== src/Server/Sessions.antt =====
-- The handlers of server/server.cpp for users and sessions.
use np_hw.Prelude.{
  ℕ, not, Option, none, some, List, [], ◌∷◌, ◌++◌, Str, str_eq, lit, setw, ℤ, int_key, int_eq,
  minus_one, Map, lookup, insert, remove, Exec, pure, throw, runtime_error, at, gets, ◌>>=◌, ◌>>◌,
  case_option, if◌then◌else◌, length, leb, get_elem?,
}
use np_hw.Prelude.Decimal.{to_string}
use np_hw.Prelude.Search.{splitstr, space}
use np_hw.Database.Users.{Sqlite, User, add_user, get_user, get_users}
use np_hw.Database.Rooms.{get_room}
use np_hw.Server.State.{
  Server, Fields, assign, reply_to, message_reply, field, int_field, login_of, db_call, sql_call,
  set_logins,
}

-- `do { ran = dis(randEngine); } while (logins.find(ran) != logins.end());` on the numbers that the
-- generator yields; `none` while the loop has found no free number among them.
unfoldable pub draw_token : Map ℤ Str → List ℤ → Option ℤ
draw_token logins [] = none
draw_token logins (ran ∷ draws) = elim (lookup ran logins) [
  | none ↦ some ran
  | some taken ↦ draw_token logins draws
]

abbrev pub logout_first : Str
logout_first = lit "Please logout first."

abbrev pub login_failed : Str
login_failed = lit "Login failed."

abbrev pub welcome : Str → Str
welcome username = lit "Welcome, " ++ (username ++ lit ".")

abbrev pub login_first : Str
login_first = lit "Please login first."

abbrev pub leave_first : Str
leave_first = lit "Please do \"attach\" and \"leave-chatroom\" first."

abbrev pub bye : Str → Str
bye username = lit "Bye, " ++ (username ++ lit ".")

-- A reply that also tells the client its token.
abbrev pub token_reply : Str → Str → Str → Fields
token_reply type message token =
    assign "transaction_id" token (assign "message" message (reply_to type))

abbrev pub failed_login : Fields
failed_login = token_reply (lit "TYPE_LOGIN") login_failed (to_string minus_one)

abbrev pub max_clients : ℕ
max_clients = 1000

module _ {H : Type 0} where
  -- The part of `on_C_login` for a user whose password is right. The reply is `none` while the loop
  -- still runs when the draws end.
  unfoldable pub open_session : List ℤ → Str → Exec (Server H) (Option Fields)
  unfolding set_logins draw_token
  open_session draws username = do
    logins ← gets (λ s. s.logins)
    if leb max_clients (length logins)
        then throw runtime_error
        else case_option (draw_token logins draws) (pure none) λ ran. do
          set_logins (insert ran username)
          pure (some (token_reply (lit "TYPE_LOGIN") (welcome username) (to_string ran)))

  unfoldable pub on_whoami : Fields → Exec (Server H) Fields
  unfolding field int_field
  on_whoami rec = do
    token ← field "transaction_id" rec
    user_id ← int_field "transaction_id" rec
    found ← gets (λ s. lookup user_id s.logins)
    case_option found
        (pure (
          assign "message" login_first
            (assign "transaction_id" token (reply_to (lit "TYPE_WHOAMI")))))
        λ username.
          pure (
            assign "message" username
              (assign "transaction_id" token (reply_to (lit "TYPE_WHOAMI"))))

  -- The part of `on_C_logout` for a token other than -1, which the reply gives back unless the
  -- session ends.
  unfoldable pub close_session : ℤ → Fields → Exec (Server H) Fields
  unfolding login_of db_call set_logins
  close_session user_id out = do
    username ← login_of user_id
    found ← db_call (get_room username)
    let closing = do
      set_logins (remove user_id)
      pure (assign "transaction_id" (to_string minus_one) (assign "message" (bye username) out))
    case_option found (closing)
        λ cr. if cr.opened then pure (assign "message" leave_first out) else closing

  unfoldable pub on_logout : Fields → Exec (Server H) Fields
  unfolding field int_field close_session
  on_logout rec = do
    token ← field "transaction_id" rec
    let out = assign "transaction_id" token (reply_to (lit "TYPE_LOGOUT"))
    user_id ← int_field "transaction_id" rec
    if int_eq user_id minus_one
        then pure (assign "message" login_first out)
        else close_session user_id out

  unfoldable pub on_exit : Fields → Exec (Server H) (Unit {0})
  unfolding int_field set_logins
  on_exit rec = do user_id ← int_field "transaction_id" rec; set_logins (remove user_id)

-- The rows of `on_C_listUser`, with a line break between them.
unfoldable pub user_rows : List User → Str
user_rows [] = []
user_rows (u ∷ []) = setw 15 u.username ++ u.email
user_rows (u ∷ (w ∷ us)) = setw 15 u.username ++ (u.email ++ (lit "\n" ++ user_rows (w ∷ us)))

module _ (sql : Sqlite) where
  unfoldable pub on_register : Fields → Exec (Server sql.Handle) Fields
  unfolding field sql_call
  on_register rec = do
    message ← field "message" rec
    let p = splitstr message space
    username ← at (get_elem? p 0)
    email ← at (get_elem? p 1)
    password ← at (get_elem? p 2)
    success ← sql_call (add_user sql username email password)
    pure (
        message_reply (lit "TYPE_REGISTER")
          (if success then lit "Register successfully." else lit "Username is already used."))

  unfoldable pub on_login : List ℤ → Fields → Exec (Server sql.Handle) (Option Fields)
  unfolding field int_field sql_call open_session
  on_login draws rec = do
    message ← field "message" rec
    let p = splitstr message space
    username ← at (get_elem? p 0)
    found ← sql_call (get_user sql username)
    token ← field "transaction_id" rec
    user_id ← int_field "transaction_id" rec
    if not (int_eq user_id minus_one)
        then pure (some (token_reply (lit "TYPE_LOGIN") logout_first token))
        else case_option found (pure (some failed_login)) λ u. do
          password ← at (get_elem? p 1)
          if str_eq u.password password
              then open_session draws u.username
              else pure (some failed_login)

  unfoldable pub on_list_user : Exec (Server sql.Handle) Fields
  unfolding sql_call user_rows
  on_list_user = do
    p ← sql_call (get_users sql)
    pure (
        message_reply (lit "TYPE_LIST_USER")
          (setw 15 (lit "Name") ++ (lit "Email\n" ++ user_rows p)))

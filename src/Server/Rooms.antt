-- ===== src/Server/Rooms.antt =====
-- The handlers of server/server.cpp for chat rooms. A user's room bears the user's name.
use np_hw.Prelude.{
  ℕ, true, false, [], Str, lit, int_eq, minus_one, nat_eq, Exec, pure, ◌>>=◌, ◌>>◌, case_option,
  if◌then◌else◌,
}
use np_hw.Prelude.Decimal.{to_string}
use np_hw.Database.Rooms.{get_room, set_room, create_chatroom, list_chatroom}
use np_hw.Server.State.{
  Server, Fields, assign, reply_to, message_reply, please_login, field, int_field, login_of,
  db_call,
}

abbrev pub code_reply : Str → Fields → Fields
code_reply code m = assign "result_code" code m

-- The status that `createChatroom` returns is 0 or 2.
abbrev creation_reply : ℕ → Fields → Fields
creation_reply stat m =
    if nat_eq stat 0
    then code_reply (lit "0") m
    else (if nat_eq stat 2 then code_reply (lit "2") m else m)

module _ {H : Type 0} where
  unfoldable pub on_joinroom : Fields → Exec (Server H) Fields
  unfolding field int_field login_of db_call
  on_joinroom rec = do
    type ← field "type" rec
    user_id ← int_field "transaction_id" rec
    if int_eq user_id minus_one then pure (code_reply (lit "1") (reply_to type)) else do
      username ← login_of user_id
      roomname ← field "roomname" rec
      found ← db_call (get_room roomname)
      case_option found (pure (code_reply (lit "2") (reply_to type))) λ cr.
          if cr.opened
          then pure (
              assign "username" username
                (assign "port" (to_string cr.port) (code_reply (lit "0") (reply_to type))))
          else pure (code_reply (lit "2") (reply_to type))

  unfoldable pub on_list_chatroom : Fields → Exec (Server H) Fields
  unfolding field int_field db_call
  on_list_chatroom rec = do
    user_id ← int_field "transaction_id" rec
    if int_eq user_id minus_one
        then pure (message_reply (lit "TYPE_LIST_CHATROOM") please_login)
        else do text ← db_call list_chatroom; pure (message_reply (lit "TYPE_LIST_CHATROOM") text)

  unfoldable pub on_create_chatroom : Fields → Exec (Server H) Fields
  unfolding field int_field login_of db_call
  on_create_chatroom rec = do
    let out = reply_to (lit "TYPE_CREATE_CHATROOM")
    login_id ← int_field "transaction_id" rec
    if int_eq login_id minus_one then pure (code_reply (lit "1") out) else do
      roomname ← login_of login_id
      port ← int_field "port" rec
      stat ← db_call (create_chatroom port roomname)
      pure (assign "username" roomname (creation_reply stat out))

  unfoldable pub on_restart_chatroom : Fields → Exec (Server H) Fields
  unfolding field int_field login_of db_call
  on_restart_chatroom rec = do
    login_id ← int_field "transaction_id" rec
    if int_eq login_id minus_one then pure (code_reply (lit "1") []) else do
      roomname ← login_of login_id
      found ← db_call (get_room roomname)
      case_option found (pure (code_reply (lit "2") [])) λ ch.
          if ch.opened then pure (code_reply (lit "3") []) else do
            db_call (set_room roomname (record ch { opened = true }))
            pure (
                assign "port" (to_string ch.port)
                  (assign "username" roomname (code_reply (lit "0") [])))

  -- No token is asked for: the room is named by the request alone.
  unfoldable pub on_close_chatroom : Fields → Exec (Server H) Fields
  unfolding field db_call
  on_close_chatroom rec = do
    roomname ← field "username" rec
    found ← db_call (get_room roomname)
    case_option found (pure []) λ ch. do
      db_call (set_room roomname (record ch { opened = false }))
      pure (assign "port" (to_string ch.port) [])

  unfoldable pub on_attach : Fields → Exec (Server H) Fields
  unfolding field int_field login_of db_call
  on_attach rec = do
    user_id ← int_field "transaction_id" rec
    if int_eq user_id minus_one then pure (code_reply (lit "1") []) else do
      username ← login_of user_id
      found ← db_call (get_room username)
      case_option found (pure (code_reply (lit "2") [])) λ cr.
          if cr.opened
          then pure (
              assign "username" username
                (assign "port" (to_string cr.port) (code_reply (lit "0") [])))
          else pure (code_reply (lit "3") [])

-- ===== src/Server/Unordered.antt =====
-- The handlers of server/server.cpp read a package by its fields alone: the order in which an
-- `unordered_map` keeps them does not matter.
use mathlib.Core.Path.{fun_ext}
use np_hw.Prelude.{
  ◌≡◌, refl, ap, ap₂, List, Str, String, lit, ℤ, str_key, lookup, at, lift, ◌>>=◌, pure,
}
use np_hw.Prelude.Decimal.{stoi}
use np_hw.Database.Types.{Tm}
use np_hw.Database.Users.{Sqlite}
use np_hw.Server.State.{Fields, field, int_field}
use np_hw.Server.Sessions.{on_register, on_login, on_whoami, on_logout, on_exit}
use np_hw.Server.Boards.{
  on_create_board, on_create_post, on_list_board, on_list_post, on_read_post, on_delete_post,
  on_update_post, on_comment,
}
use np_hw.Server.Rooms.{
  on_joinroom, on_list_chatroom, on_create_chatroom, on_restart_chatroom, on_close_chatroom,
  on_attach,
}
use np_hw.Server.Dispatch.{
  handle, handle_tcp, handle_udp, Environment, Command, login, logout, exit, list_user,
  create_board, create_post, list_board, list_post, read_post, delete_post, update_post, comment,
  join_chatroom, create_chatroom, restart_chatroom, close_chatroom, attach, unknown, closes,
  sending, reply_or_draw, command_of,
}

-- The same text, or none, at every key.
abbrev pub HaveSameFields : Fields → Fields → Type 0
HaveSameFields rec other = (name : Str) → lookup name rec ≡ lookup name other

module _ {H : Type 0} (rec other : Fields) (same : HaveSameFields rec other) where
  field-same : (name : String) → field {H = H} name rec ≡ field name other
  unfolding field
  field-same name = ap at (same (lit name))

  int_field-same : (name : String) → int_field {H = H} name rec ≡ int_field name other
  unfolding int_field
  int_field-same name = ap (λ m. m >>= λ text. lift (stoi text)) (field-same name)

  on_whoami-same : on_whoami {H = H} rec ≡ on_whoami other
  unfolding on_whoami
  on_whoami-same = simp (field-same, int_field-same)

  on_logout-same : on_logout {H = H} rec ≡ on_logout other
  unfolding on_logout
  on_logout-same = simp (field-same, int_field-same)

  on_exit-same : on_exit {H = H} rec ≡ on_exit other
  unfolding on_exit
  on_exit-same = simp (field-same, int_field-same)

  on_create_board-same : on_create_board {H = H} rec ≡ on_create_board other
  unfolding on_create_board
  on_create_board-same = simp (field-same, int_field-same)

  on_list_board-same : on_list_board {H = H} rec ≡ on_list_board other
  unfolding on_list_board
  on_list_board-same = simp (field-same, int_field-same)

  on_list_post-same : on_list_post {H = H} rec ≡ on_list_post other
  unfolding on_list_post
  on_list_post-same = simp (field-same, int_field-same)

  on_read_post-same : on_read_post {H = H} rec ≡ on_read_post other
  unfolding on_read_post
  on_read_post-same = simp (field-same, int_field-same)

  on_delete_post-same : on_delete_post {H = H} rec ≡ on_delete_post other
  unfolding on_delete_post
  on_delete_post-same = simp (field-same, int_field-same)

  on_update_post-same : on_update_post {H = H} rec ≡ on_update_post other
  unfolding on_update_post
  on_update_post-same = simp (field-same, int_field-same)

  on_comment-same : on_comment {H = H} rec ≡ on_comment other
  unfolding on_comment
  on_comment-same = simp (field-same, int_field-same)

  on_joinroom-same : on_joinroom {H = H} rec ≡ on_joinroom other
  unfolding on_joinroom
  on_joinroom-same = simp (field-same, int_field-same)

  on_create_chatroom-same : on_create_chatroom {H = H} rec ≡ on_create_chatroom other
  unfolding on_create_chatroom
  on_create_chatroom-same = simp (field-same, int_field-same)

  on_restart_chatroom-same : on_restart_chatroom {H = H} rec ≡ on_restart_chatroom other
  unfolding on_restart_chatroom
  on_restart_chatroom-same = simp (field-same, int_field-same)

  on_close_chatroom-same : on_close_chatroom {H = H} rec ≡ on_close_chatroom other
  unfolding on_close_chatroom
  on_close_chatroom-same = simp (field-same, int_field-same)

  on_attach-same : on_attach {H = H} rec ≡ on_attach other
  unfolding on_attach
  on_attach-same = simp (field-same, int_field-same)

  on_list_chatroom-same : on_list_chatroom {H = H} rec ≡ on_list_chatroom other
  unfolding on_list_chatroom
  on_list_chatroom-same = simp (field-same, int_field-same)

  on_create_post-same : (now : Tm) → on_create_post {H = H} now rec ≡ on_create_post now other
  unfolding on_create_post
  on_create_post-same now = simp (field-same, int_field-same)

module _ (sql : Sqlite) (rec other : Fields) (same : HaveSameFields rec other) where
  on_register-same : on_register sql rec ≡ on_register sql other
  unfolding on_register
  on_register-same = simp (field-same rec other same)

  on_login-same : (draws : List ℤ) → on_login sql draws rec ≡ on_login sql draws other
  unfolding on_login
  on_login-same draws = simp (field-same rec other same, int_field-same rec other same)

  handle-same : (c : Command) (env : Environment) → handle sql c env rec ≡ handle sql c env other
  unfolding handle
  handle-same login env =
      ap (λ m. m >>= λ out. pure (reply_or_draw sql out)) (on_login-same env.draws)
  handle-same logout env = ap (sending sql) (on_logout-same rec other same)
  handle-same exit env = ap (λ m. m >>= λ out. pure closes) (on_exit-same rec other same)
  handle-same list_user env = refl
  handle-same create_board env = ap (sending sql) (on_create_board-same rec other same)
  handle-same create_post env = ap (sending sql) (on_create_post-same rec other same env.now)
  handle-same list_board env = ap (sending sql) (on_list_board-same rec other same)
  handle-same list_post env = ap (sending sql) (on_list_post-same rec other same)
  handle-same read_post env = ap (sending sql) (on_read_post-same rec other same)
  handle-same delete_post env = ap (sending sql) (on_delete_post-same rec other same)
  handle-same update_post env = ap (sending sql) (on_update_post-same rec other same)
  handle-same comment env = ap (sending sql) (on_comment-same rec other same)
  handle-same join_chatroom env = ap (sending sql) (on_joinroom-same rec other same)
  handle-same create_chatroom env = ap (sending sql) (on_create_chatroom-same rec other same)
  handle-same restart_chatroom env = ap (sending sql) (on_restart_chatroom-same rec other same)
  handle-same close_chatroom env = ap (sending sql) (on_close_chatroom-same rec other same)
  handle-same attach env = ap (sending sql) (on_attach-same rec other same)
  handle-same unknown env = refl

  -- Two packages with the same text, or none, at every key get the same answer from `handleTCP`
  -- and leave the same server: the order of their fields does not matter, nor does a field that
  -- is written over by a later one.
  pub handle_tcp-same : (env : Environment) → handle_tcp sql env rec ≡ handle_tcp sql env other
  unfolding handle_tcp
  handle_tcp-same env =
      ap₂ (λ m next. m >>= next) (field-same rec other same "type")
        (fun_ext λ type. handle-same (command_of type) env)

  pub handle_udp-same : handle_udp sql rec ≡ handle_udp sql other
  unfolding handle_udp
  handle_udp-same =
      simp (
        same,
        on_register-same,
        on_whoami-same rec other same,
        on_list_chatroom-same rec other same,
      )

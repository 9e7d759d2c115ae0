-- ===== src/Server/Boards.antt =====
-- The handlers of server/server.cpp for boards and posts.
use np_hw.Prelude.{not, pos, int_eq, minus_one, Exec, pure, ◌>>=◌, if◌then◌else◌}
use np_hw.Database.Types.{Tm}
use np_hw.Database.Boards.{create_board, list_boards}
use np_hw.Database.Posts.{create_post, list_posts, read_post, delete_post, update_post, comment}
use np_hw.Server.State.{
  Server, Fields, message_reply, please_login, field, int_field, login_of, db_call,
}

module _ {H : Type 0} where
  unfoldable pub on_create_board : Fields → Exec (Server H) Fields
  unfolding field int_field login_of db_call
  on_create_board rec = do
    type ← field "type" rec
    user_id ← int_field "transaction_id" rec
    if int_eq user_id minus_one then pure (message_reply type please_login) else do
      username ← login_of user_id
      boardname ← field "boardname" rec
      text ← db_call (create_board boardname username)
      pure (message_reply type text)

  -- `now` is the local time when the post is created.
  unfoldable pub on_create_post : Tm → Fields → Exec (Server H) Fields
  unfolding field int_field login_of db_call
  on_create_post now rec = do
    type ← field "type" rec
    user_id ← int_field "transaction_id" rec
    if int_eq user_id minus_one then pure (message_reply type please_login) else do
      username ← login_of user_id
      boardname ← field "boardname" rec
      title ← field "title" rec
      content ← field "content" rec
      text ← db_call (create_post boardname title content username now)
      pure (message_reply type text)

  unfoldable pub on_list_board : Fields → Exec (Server H) Fields
  unfolding field db_call
  on_list_board rec = do
    type ← field "type" rec
    text ← db_call list_boards
    pure (message_reply type text)

  unfoldable pub on_list_post : Fields → Exec (Server H) Fields
  unfolding field db_call
  on_list_post rec = do
    type ← field "type" rec
    boardname ← field "boardname" rec
    text ← db_call (list_posts boardname)
    pure (message_reply type text)

  unfoldable pub on_read_post : Fields → Exec (Server H) Fields
  unfolding field int_field db_call
  on_read_post rec = do
    type ← field "type" rec
    serial ← int_field "postserial" rec
    text ← db_call (read_post serial)
    pure (message_reply type text)

  unfoldable pub on_delete_post : Fields → Exec (Server H) Fields
  unfolding field int_field login_of db_call
  on_delete_post rec = do
    type ← field "type" rec
    user_id ← int_field "transaction_id" rec
    serial ← int_field "postserial" rec
    if int_eq user_id minus_one then pure (message_reply type please_login) else do
      username ← login_of user_id
      text ← db_call (delete_post serial username)
      pure (message_reply type text)

  unfoldable pub on_update_post : Fields → Exec (Server H) Fields
  unfolding field int_field login_of db_call
  on_update_post rec = do
    type ← field "type" rec
    user_id ← int_field "transaction_id" rec
    serial ← int_field "postserial" rec
    if int_eq user_id minus_one then pure (message_reply type please_login) else do
      username ← login_of user_id
      istitle ← int_field "istitle" rec
      replacement ← field "replacement" rec
      text ← db_call (update_post serial username (not (int_eq istitle (pos 0))) replacement)
      pure (message_reply type text)

  unfoldable pub on_comment : Fields → Exec (Server H) Fields
  unfolding field int_field login_of db_call
  on_comment rec = do
    type ← field "type" rec
    user_id ← int_field "transaction_id" rec
    serial ← int_field "postserial" rec
    if int_eq user_id minus_one then pure (message_reply type please_login) else do
      username ← login_of user_id
      content ← field "comment" rec
      text ← db_call (comment serial username content)
      pure (message_reply type text)

-- ===== src/Client/Handling.antt =====
-- What the handlers of server/server.cpp make of the board operations of client/client_part.cpp,
-- and what the client makes of the replies.
use np_hw.Prelude.{
  ◌≡◌, refl, Bool, false, some, Str, str_eq, str_key, lit, ℤ, pos, int_key, int_eq, minus_one, not,
  lookup, insert, Result, ok, throws, at, pure, ◌>>=◌, arith, true,
}
use np_hw.Prelude.Decimal.{IsInt, stoi-to_string}
use np_hw.Database.Types.{Database}
use np_hw.Database.Boards.{create_board, list_boards}
use np_hw.Database.Posts.{create_post, list_posts, read_post, delete_post, update_post, comment}
use np_hw.Database.Calls.{Reply, text, perform, as_reply}
use np_hw.Database.Users.{Sqlite}
use np_hw.Server.State.{Server, message_reply, field, int_field, login_of, db_call}
use np_hw.Server.Boards.{
  on_create_board, on_create_post, on_list_board, on_list_post, on_read_post, on_delete_post,
  on_update_post, on_comment,
}
use np_hw.Server.Dispatch.{Environment, replies, command_of, handle, handle_tcp}
use np_hw.Client.Requests.{
  Client, over_tcp, digit_of, ask_create_board, ask_create_post, ask_list_board, ask_list_post,
  ask_read_post, ask_delete_post, ask_update_post, ask_comment,
}
use np_hw.Client.Tasks.{
  Task, opens_board, writes_post, shows_boards, shows_posts, shows_post, drops_post, edits_post,
  adds_comment, ask, call_for, HasIntSerial,
}

abbrev pub type_of : Task → Str
type_of (opens_board name) = lit "TYPE_CREATE_BOARD"
type_of (writes_post name title content) = lit "TYPE_CREATE_POST"
type_of shows_boards = lit "TYPE_LIST_BOARD"
type_of (shows_posts name) = lit "TYPE_LIST_POST"
type_of (shows_post serial) = lit "TYPE_READ_POST"
type_of (drops_post serial) = lit "TYPE_DELETE_POST"
type_of (edits_post serial title replacement) = lit "TYPE_UPDATE_POST"
type_of (adds_comment serial content) = lit "TYPE_COMMENT"

as_reply-text :
    (r : Result Str × Database) (words : Str) (db : Database)
    → as_reply text r ≡ (ok (text words), db)
    → r ≡ (ok words, db)
as_reply-text (ok a, d) words db h = cc
as_reply-text (throws e, d) words db h = cc

as_reply-words :
    (r : Result Str × Database) (v : Reply) (db : Database)
    → as_reply text r ≡ (ok v, db)
    → (words : Str) × (v ≡ text words)
as_reply-words (ok a, d) v db h = (a, cc)
as_reply-words (throws e, d) v db h = absurd (cc)

digit_of-IsInt : (b : Bool) → IsInt (digit_of b)
digit_of-IsInt false = omega arith
digit_of-IsInt true = omega arith

-- The server reads the digit as a `bool` again.
digit_of-true : (b : Bool) → not (int_eq (digit_of b) (pos 0)) ≡ b
unfolding int_eq
digit_of-true false = refl
digit_of-true true = refl

module _ (sql : Sqlite) (env : Environment) (s : Server sql.Handle) (token : ℤ) (user : Str)
    (int : IsInt token) (some_session : int_eq token minus_one ≡ false)
    (known : lookup token s.logins ≡ some user) where
  pub ask-handled :
      (task : Task) (words : Str) (db : Database)
      → HasIntSerial task
      → perform (call_for user env.now task) s.db ≡ (ok (text words), db)
      → handle_tcp sql env (ask token task).request s
        ≡ (ok (replies (message_reply (type_of task) words)), record s { db = db })
  unfolding handle_tcp handle command_of on_create_board on_create_post on_list_board on_list_post
      on_read_post on_delete_post on_update_post on_comment field int_field login_of db_call ◌>>=◌
      ask_create_board ask_create_post ask_list_board ask_list_post ask_read_post ask_delete_post
      ask_update_post ask_comment lookup insert lit str_eq perform
  ask-handled (opens_board name) words db small h =
      let returned : create_board name user s.db ≡ (ok words, db) = as_reply-text _ words db h in
      rw (stoi-to_string token int, some_session, known, returned, at, pure) refl
  ask-handled (writes_post name title content) words db small h =
      let returned : create_post name title content user env.now s.db ≡ (ok words, db) =
        as_reply-text _ words db h in
      rw (stoi-to_string token int, some_session, known, returned, at, pure) refl
  ask-handled (shows_boards) words db small h =
      let returned : list_boards s.db ≡ (ok words, db) = as_reply-text _ words db h in
      rw (returned, at, pure) refl
  ask-handled (shows_posts name) words db small h =
      let returned : list_posts name s.db ≡ (ok words, db) = as_reply-text _ words db h in
      rw (returned, at, pure) refl
  ask-handled (shows_post serial) words db small h =
      let returned : read_post serial s.db ≡ (ok words, db) = as_reply-text _ words db h in
      rw (stoi-to_string serial small, returned, at, pure) refl
  ask-handled (drops_post serial) words db small h =
      let returned : delete_post serial user s.db ≡ (ok words, db) = as_reply-text _ words db h in
      rw
        (
          stoi-to_string token int,
          stoi-to_string serial small,
          some_session,
          known,
          returned,
          at,
          pure,
        )
        refl
  ask-handled (edits_post serial title replacement) words db small h =
      let returned : update_post serial user title replacement s.db ≡ (ok words, db) =
        as_reply-text _ words db h in
      rw
        (
          stoi-to_string token int,
          stoi-to_string serial small,
          some_session,
          known,
          stoi-to_string (digit_of title) (digit_of-IsInt title),
          digit_of-true title,
          returned,
          at,
          pure,
        )
        refl
  ask-handled (adds_comment serial content) words db small h =
      let returned : comment serial user content s.db ≡ (ok words, db) =
        as_reply-text _ words db h in
      rw
        (
          stoi-to_string token int,
          stoi-to_string serial small,
          some_session,
          known,
          returned,
          at,
          pure,
        )
        refl

  pub ask-text :
      (task : Task) (db db' : Database) (r : Reply)
      → perform (call_for user env.now task) db ≡ (ok r, db')
      → (words : Str) × (r ≡ text words)
  unfolding perform
  ask-text (opens_board name) db db' r h = as_reply-words _ r db' h
  ask-text (writes_post name title content) db db' r h = as_reply-words _ r db' h
  ask-text shows_boards db db' r h = as_reply-words (list_boards db) r db' h
  ask-text (shows_posts name) db db' r h = as_reply-words _ r db' h
  ask-text (shows_post serial) db db' r h = as_reply-words _ r db' h
  ask-text (drops_post serial) db db' r h = as_reply-words _ r db' h
  ask-text (edits_post serial title replacement) db db' r h = as_reply-words _ r db' h
  ask-text (adds_comment serial content) db db' r h = as_reply-words _ r db' h

pub ask-answer :
    (task : Task) (token : ℤ) (words : Str) (client : Client)
    → (ask token task).answer (message_reply (type_of task) words) client ≡ (ok words, client)
unfolding ask_create_board ask_create_post ask_list_board ask_list_post ask_read_post
    ask_delete_post ask_update_post ask_comment lookup insert lit str_eq pure
ask-answer (opens_board name) token words client = refl
ask-answer (writes_post name title content) token words client = refl
ask-answer shows_boards token words client = refl
ask-answer (shows_posts name) token words client = refl
ask-answer (shows_post serial) token words client = refl
ask-answer (drops_post serial) token words client = refl
ask-answer (edits_post serial title replacement) token words client = refl
ask-answer (adds_comment serial content) token words client = refl

pub ask-over_tcp : (task : Task) (token : ℤ) → (ask token task).transport ≡ over_tcp
unfolding ask_create_board ask_create_post ask_list_board ask_list_post ask_read_post
    ask_delete_post ask_update_post ask_comment
ask-over_tcp (opens_board name) token = refl
ask-over_tcp (writes_post name title content) token = refl
ask-over_tcp shows_boards token = refl
ask-over_tcp (shows_posts name) token = refl
ask-over_tcp (shows_post serial) token = refl
ask-over_tcp (drops_post serial) token = refl
ask-over_tcp (edits_post serial title replacement) token = refl
ask-over_tcp (adds_comment serial content) token = refl

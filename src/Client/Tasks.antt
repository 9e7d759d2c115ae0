-- ===== src/Client/Tasks.antt =====
-- What a client that is logged in asks of boards and posts, and how its packages reach the
-- handlers of server/server.cpp and the replies reach it.
use np_hw.Prelude.{Bool, Option, none, some, Str, str_key, ℤ, int_key, Result, ok, throws}
use np_hw.Prelude.Decimal.{IsInt}
use np_hw.Database.Types.{Tm}
use np_hw.Database.Calls.{
  Call, creates_board, creates_post, lists_boards, lists_posts, reads_post, deletes_post,
  updates_post, comments,
}
use np_hw.Database.Users.{Sqlite}
use np_hw.Server.State.{Server}
use np_hw.Server.Dispatch.{
  Environment, Action, replies, ignores, closes, draws_on, handle_tcp, handle_udp,
}
use np_hw.Client.Requests.{
  Client, Exchange, over_tcp, over_udp, ask_create_board, ask_create_post, ask_list_board,
  ask_list_post, ask_read_post, ask_delete_post, ask_update_post, ask_comment,
}

-- The operations on boards and posts.
pub data Task : Type 0 where
  opens_board : Str → Task
  writes_post : Str → Str → Str → Task
  shows_boards : Task
  shows_posts : Str → Task
  shows_post : ℤ → Task
  drops_post : ℤ → Task
  edits_post : ℤ → Bool → Str → Task
  adds_comment : ℤ → Str → Task

abbrev pub ask : ℤ → Task → Exchange Str
ask token (opens_board name) = ask_create_board token name
ask token (writes_post name title content) = ask_create_post token name title content
ask token shows_boards = ask_list_board token
ask token (shows_posts name) = ask_list_post token name
ask token (shows_post serial) = ask_read_post token serial
ask token (drops_post serial) = ask_delete_post token serial
ask token (edits_post serial title replacement) = ask_update_post token serial title replacement
ask token (adds_comment serial content) = ask_comment token serial content

-- The method of the database that serves a task of a user.
abbrev pub call_for : Str → Tm → Task → Call
call_for user now (opens_board name) = creates_board name user
call_for user now (writes_post name title content) = creates_post name title content user now
call_for user now shows_boards = lists_boards
call_for user now (shows_posts name) = lists_posts name
call_for user now (shows_post serial) = reads_post serial
call_for user now (drops_post serial) = deletes_post serial user
call_for user now (edits_post serial title replacement) = updates_post serial user title replacement
call_for user now (adds_comment serial content) = comments serial user content

-- The serial number of the task, if it has one, is an `int`.
abbrev pub HasIntSerial : Task → Type 0
HasIntSerial (shows_post serial) = IsInt serial
HasIntSerial (drops_post serial) = IsInt serial
HasIntSerial (edits_post serial title replacement) = IsInt serial
HasIntSerial (adds_comment serial content) = IsInt serial
HasIntSerial _ = Unit

module _ (sql : Sqlite) where
  -- The server's reply reaches the client; where none is sent, the client has no answer.
  abbrev pub answered :
      {A : Type 0}
      → Exchange A
      → Client
      → Result Action × Server sql.Handle
      → Option ((Result A × Client) × Server sql.Handle)
  answered e client (ok (replies out), t) = some (e.answer out client, t)
  answered e client (ok ignores, t) = none
  answered e client (ok closes, t) = none
  answered e client (ok draws_on, t) = none
  answered e client (throws x, t) = none

  -- An exchange as it should come out: the fields reach the other side as they are.
  unfoldable pub converse :
      {A : Type 0}
      → Environment
      → Exchange A
      → Client
      → Server sql.Handle
      → Option ((Result A × Client) × Server sql.Handle)
  unfolding handle_tcp handle_udp
  converse env e client s = elim e.transport [
    | over_tcp ↦ answered e client (handle_tcp sql env e.request s)
    | over_udp ↦ answered e client (handle_udp sql e.request s)
  ]

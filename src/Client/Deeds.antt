-- ===== src/Client/Deeds.antt =====
-- What the client does about a line, and about a package of its chat room: the rest of
-- `startClient`, `startChat`, `sendMessage` and `recvMessage` of client/client.cpp.
use np_hw.Prelude.{
  ℕ, Bool, true, false, Option, none, some, ◌++◌, Str, String, str_key, str_eq, lit, int_eq, endl,
  ℤ, pos, lookup, Exception, Result, ok, throws, Exec, pure, at, lift, ◌>>=◌, ◌>>◌, if◌then◌else◌,
}
use np_hw.Prelude.Decimal.{stoi}
use np_hw.Server.State.{Fields, assign, reply_to}
use np_hw.Client.Requests.{
  Client, Mode, bbs, chat, Exchange, over_tcp, RoomAnswer, exit_request, ask_list_user, ask_whoami,
  ask_logout, ask_login, ask_register, ask_create_chatroom, ask_list_chatroom, ask_join_chatroom,
  ask_restart_chatroom, ask_attach, to_uint16,
}
use np_hw.Client.Tasks.{
  Task, opens_board, writes_post, shows_boards, shows_posts, shows_post, drops_post, edits_post,
  adds_comment, ask,
}
use np_hw.Client.Commands.{
  Intent, registers, logs_in, logs_out, asks_name, lists_users, exits, creates_board, creates_post,
  lists_boards, lists_posts, reads, deletes, updates, comments, creates_room, lists_rooms,
  joins_room, restarts_room, attaches, leaves_room, detaches, says, hints,
}

-- What follows the answer about a room: a room of the client's own at a port, which it then
-- enters, a room elsewhere that it enters, a message, nothing, or an exception that nothing
-- catches.
pub data Follow : Type 0 where
  hosts : ℤ → Follow
  visits : ℕ → Follow
  hears : Str → Follow
  nothing : Follow
  breaks : Exception → Follow

-- Which end of the line a reply is printed with: `std::endl`, or none.
pub data Deed : Type 0 where
  prints : Exchange Str → Bool → Deed
  enters : Exchange RoomAnswer → (RoomAnswer → Follow) → Deed
  quits : Fields → Deed
  tells_room : Fields → Deed
  warns : Str → Deed
  crashes : Exception → Deed

abbrev hosts_at : Result ℤ → Follow
hosts_at (ok port) = hosts port
hosts_at (throws e) = breaks e

unfoldable pub after_create : Str → RoomAnswer → Follow
unfolding int_eq
after_create port answer =
    if int_eq answer.status (pos 0)
    then hosts_at (stoi port)
    else (if int_eq answer.status (pos 1)
        then hears (lit "Please login first.")
        else (if int_eq answer.status (pos 2)
            then hears (lit "User has already created the chatroom")
            else nothing))

abbrev visits_at : Option ℕ → Follow
visits_at none = nothing
visits_at (some port) = visits port

unfoldable pub after_join : RoomAnswer → Follow
unfolding int_eq
after_join answer =
    if int_eq answer.status (pos 1)
    then hears (lit "Please login first.")
    else (if int_eq answer.status (pos 2)
        then hears (lit "The chatroom does not exist or the chatroom is close.")
        else (if int_eq answer.status (pos 0) then visits_at answer.port else nothing))

abbrev hosts_again : Option ℕ → Follow
hosts_again none = nothing
hosts_again (some port) = hosts (pos port)

unfoldable pub after_restart : RoomAnswer → Follow
unfolding int_eq
after_restart answer =
    if int_eq answer.status (pos 0)
    then hosts_again answer.port
    else (if int_eq answer.status (pos 1)
        then hears (lit "Please login first")
        else (if int_eq answer.status (pos 2)
            then hears (lit "Please create-chatroom first.")
            else (if int_eq answer.status (pos 3)
                then hears (lit "Your chatroom is still running.")
                else nothing)))

unfoldable pub after_attach : RoomAnswer → Follow
unfolding int_eq
after_attach answer =
    if int_eq answer.status (pos 0)
    then visits_at answer.port
    else (if int_eq answer.status (pos 1)
        then hears (lit "Please login first")
        else (if int_eq answer.status (pos 2)
            then hears (lit "Please create-chatroom first.")
            else (if int_eq answer.status (pos 3)
                then hears (lit "Please restart-chatroom first.")
                else nothing)))

-- `type` and `username`, as the room is told them.
abbrev pub member_package : String → Str → Fields
member_package type username = assign "username" username (reply_to (lit type))

-- The package of `startChat`.
unfoldable pub join_package : Str → Fields
join_package username = member_package "TYPE_JOIN_CHATROOM" username

unfoldable pub leave_package : Str → Fields
leave_package username = member_package "TYPE_LEAVE_CHATROOM" username

unfoldable pub detach_package : Str → Fields
detach_package username = member_package "TYPE_DETACH" username

-- The package of `sendMessage`.
unfoldable pub message_package : Str → Str → Fields
message_package username message =
    assign "username" username (assign "message" message (reply_to (lit "TYPE_ROOM_MSG")))

-- `std::stoi` of a serial number that was typed; nothing catches what it throws.
abbrev pub numbered : ℤ → Result ℤ → (ℤ → Task) → Deed
numbered token (ok serial) task = prints (ask token (task serial)) false
numbered token (throws e) task = crashes e

unfoldable pub deed : Client → Intent → Deed
unfolding after_create after_join after_restart after_attach leave_package detach_package
    message_package
deed client (registers username email password) = prints (ask_register username email password) true
deed client (logs_in username password) =
    prints (ask_login client.login_token username password) true
deed client logs_out = prints (ask_logout client.login_token) true
deed client asks_name = prints (ask_whoami client.login_token) true
deed client lists_users = prints ask_list_user true
deed client exits = quits (exit_request client.login_token)
deed client (creates_board name) = prints (ask client.login_token (opens_board name)) false
deed client (creates_post name title content) =
    prints (ask client.login_token (writes_post name title content)) false
deed client lists_boards = prints (ask client.login_token shows_boards) false
deed client (lists_posts name) = prints (ask client.login_token (shows_posts name)) false
deed client (reads serial) = numbered client.login_token (stoi serial) shows_post
deed client (deletes serial) = numbered client.login_token (stoi serial) drops_post
deed client (updates serial title replacement) =
    numbered client.login_token (stoi serial) λ n. edits_post n title replacement
deed client (comments serial content) =
    numbered client.login_token (stoi serial) λ n. adds_comment n content
deed client (creates_room port) =
    enters (ask_create_chatroom client.login_token port) (after_create port)
deed client lists_rooms = prints (ask_list_chatroom client.login_token) false
deed client (joins_room name) = enters (ask_join_chatroom client.login_token name) after_join
deed client restarts_room = enters (ask_restart_chatroom client.login_token) after_restart
deed client attaches = enters (ask_attach client.login_token) after_attach
deed client leaves_room = tells_room (leave_package client.username)
deed client detaches = tells_room (detach_package client.username)
deed client (says message) = tells_room (message_package client.username message)
deed client (hints text) = warns text

unfoldable pub set_mode : Mode → Exec Client (Unit {0})
set_mode mode client = (ok tt, record client { mode = mode })

-- The part of `startChat` that stays: the mode, and the package that the room is sent.
unfoldable pub start_chat : Exec Client Fields
unfolding set_mode join_package
start_chat client = (do set_mode chat; pure (join_package client.username)) client

-- What the user sees of a package of the room; for the owner of a room that ends, what the server
-- is told, and the port of the room's listener with the package that ends it.
pub data Heard : Type 0 where
  shown : Str → Heard
  silent : Heard
  back_to_bbs : Heard
  closes_room : Fields → ℕ × Fields → Heard

-- The server is told that the room is closed, and names the port at which the room's listener is
-- sent the package that ends it.
unfoldable pub ask_close_chatroom : Str → Exchange (ℕ × Fields)
unfolding set_mode to_uint16
ask_close_chatroom username = record {
  transport = over_tcp;
  request = member_package "TYPE_CLOSE_CHATROOM" username;
  answer = λ fields. do
    text ← at (lookup (lit "port") fields)
    port ← lift (stoi text)
    set_mode bbs
    pure (to_uint16 port, reply_to (lit "TYPE_CLOSE_CHATROOM"));
}

-- One package of `recvMessage`, where `room_data` is what the server answers if it is asked. That
-- the room's listener can then be connected to is assumed; else the process exits.
-- Anything thrown ends the thread that listens to the room.
unfoldable pub hear : Fields → Fields → Exec Client Heard
unfolding set_mode ask_close_chatroom
hear room_data fields client =
    (do
      type ← at (lookup (lit "type") fields)
      if str_eq type (lit "TYPE_EXIT_ROOM")
          then (do
            action ← at (lookup (lit "action") fields)
            if str_eq action (lit "close room")
                then (do
                  let closing = ask_close_chatroom client.username
                  target ← closing.answer room_data
                  pure (closes_room closing.request target))
                else (do set_mode bbs; pure back_to_bbs))
          else (if str_eq type (lit "TYPE_SERVER_MSG")
              then (do message ← at (lookup (lit "message") fields); pure (shown message))
              else (if str_eq type (lit "TYPE_ROOM_MSG")
                  then (do
                    who ← at (lookup (lit "who") fields)
                    if str_eq who client.username then pure silent else (do
                      time ← at (lookup (lit "time") fields)
                      msg ← at (lookup (lit "msg") fields)
                      pure (shown (who ++ lit "[" ++ time ++ lit "]:" ++ msg ++ endl))))
                  else pure silent)))
      client

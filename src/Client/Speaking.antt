-- ===== src/Client/Speaking.antt =====
-- What a user types in the chat mode, at the room of client/server_part.cpp.
use mathlib.Core.List.{append-nil}
use np_hw.Prelude.{
  ℕ, ◌≡◌, refl, none, some, [], ◌∷◌, Str, str_eq, str_key, lit, endl, ok, ◌++◌, lookup, insert,
  lookup-insert, same_refl, if◌then◌else◌, nat_key,
}
use np_hw.Server.State.{Fields}
use np_hw.Chat.Packages.{Clock, send_each, room_msg, get_time, ChatRecord, broadcast_msg}
use np_hw.Chat.Room.{
  ChatRoom, on_package, on_turn, waiting_thread, on_room_msg, run, request_of, step, turns, waiting,
}
use np_hw.Client.Requests.{Client, chat}
use np_hw.Client.Commands.{says, read_line}
use np_hw.Client.Chatting.{hear-room_msg}
use np_hw.Client.Deeds.{tells_room, deed, message_package, hear, shown, silent}

-- Who the member is, what the time is and what was said.
abbrev pub said_at : Str → Clock → Str → ChatRecord
said_at name now line = record { who = name; time = get_time now; msg = line }

-- The member's thread takes a package in which the client says a line.
says-taken :
    (client : Client) (so : ℕ) (name line : Str) (now : Clock) (room : ChatRoom)
    → lookup so room.threads ≡ some (record { username = name; stage = waiting })
    → step (turns so (some (message_package client.username line)) now) room
      ≡ some (on_room_msg so name line now room, [])
unfolding step on_turn on_package message_package request_of lookup insert lit str_eq
says-taken client so name line now room waits = rw (step, on_turn, waits) refl

-- On its next turn, all who are in the room are sent what was said.
said-announced :
    (so : ℕ) (name line : Str) (now later : Clock) (room : ChatRoom)
    → step (turns so none later) (on_room_msg so name line now room)
      ≡ some (
        waiting_thread so name (on_room_msg so name line now room),
        broadcast_msg (said_at name now line) room.connected,
      )
unfolding step on_turn on_room_msg
said-announced so name line now later room =
    rw (step, on_turn, on_room_msg, lookup-insert, same_refl so) refl

-- A client types a line in the chat mode that is said in the room, and the thread of its socket
-- waits for a package. When that thread takes the client's package and has its next turn, all
-- sockets in the room are sent one package, and each client shows the line from it with the name
-- of the member and the time, except a client whose own name that is, which shows nothing.
pub said-hear :
    (client : Client) (so : ℕ) (name line : Str) (now later : Clock) (room : ChatRoom)
    → read_line chat line ≡ says line
    → lookup so room.threads ≡ some (record { username = name; stage = waiting })
    → (rec : Fields) × (last : ChatRoom) × (deed client (read_line chat line) ≡ tells_room rec)
      × (run (turns so (some rec) now ∷ turns so none later ∷ []) room
          ≡ some (last, send_each (room_msg (said_at name now line)) room.connected))
      × ((room_data : Fields) (other : Client)
          → hear room_data (room_msg (said_at name now line)) other ≡ (
            ok (
                if str_eq name other.username
                then silent
                else shown (name ++ lit "[" ++ get_time now ++ lit "]:" ++ line ++ endl)),
            other,
          ))
unfolding run deed broadcast_msg
said-hear client so name line now later room typed waits = (
  message_package client.username line,
  waiting_thread so name (on_room_msg so name line now room),
  rw typed refl,
  rw
      (
        run,
        says-taken client so name line now room waits,
        said-announced so name line now later room,
        append-nil,
      )
      refl,
  λ room_data. hear-room_msg room_data (said_at name now line),
)

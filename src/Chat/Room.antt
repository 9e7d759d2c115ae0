-- ===== src/Chat/Room.antt =====
-- The room of client/server_part.cpp: its listener, and a thread for each member. A step is what
-- one thread does between two waits, or under one lock.
use np_hw.Prelude.{
  ℕ, Bool, true, false, Option, none, some, List, [], ◌∷◌, ◌++◌, Str, lit, str_eq, str_key, nat_key,
  Map, lookup, insert, remove, erase_first, length, drop, ltb, if◌then◌else◌,
}
use np_hw.Server.State.{Fields}
use np_hw.Chat.Packages.{
  ChatRecord, Clock, Delivery, broadcast_msg, exit_room, get_time, send_each, server_msg,
  sys_record,
}

-- Where the thread of a member stands in `server_recv_command`. Between the two locks of a room
-- message other threads may run.
pub data Stage : Type 0 where
  welcoming waiting : Stage
  announcing : ChatRecord → Stage

pub record Thread : Type 0 where
  pub username : Str
  pub stage : Stage

-- A socket is its descriptor, which is all that `operator==` compares.
pub record ChatRoom : Type 0 where
  pub roomname : Str
  pub last_three : List ChatRecord
  pub connected : List ℕ
  pub threads : Map ℕ Thread
  pub listening : Bool
  pub chat_server_ready : Bool

-- The globals when the process starts.
abbrev pub unstarted : ChatRoom
unstarted = record {
  roomname = [];
  last_three = [];
  connected = [];
  threads = [];
  listening = false;
  chat_server_ready = false;
}

-- The room once its listener listens. A room that is started again in the same process keeps what
-- was said in it, and its members.
abbrev pub start_server : Str → ChatRoom → ChatRoom
start_server username room = record room {
  roomname = username;
  listening = true;
  chat_server_ready = true;
}

-- `push_back`, and `pop_front` where more than three are kept.
unfoldable pub remember : ChatRecord → List ChatRecord → List ChatRecord
remember ch last_three =
    let longer = last_three ++ ch ∷ [] in if ltb 3 (length longer) then drop 1 longer else longer

-- A member enters, and its thread starts.
unfoldable pub on_join : ℕ → Str → Clock → ChatRoom → ChatRoom × List Delivery
unfolding broadcast_msg
on_join so username now room =
    let entered : ChatRoom = record room {
      connected = room.connected ++ so ∷ [];
      threads = insert so (record { username = username; stage = welcoming }) room.threads;
    } in
    if str_eq username room.roomname
    then (entered, [])
    else (entered, broadcast_msg (sys_record now (username ++ lit " join us.")) room.connected)

-- An exception ends the listener, which catches it, and nothing else.
abbrev stopped : ChatRoom → ChatRoom
stopped room = record room { listening = false }

abbrev closed : ChatRoom → ChatRoom
closed room = record room { listening = false; chat_server_ready = false }

-- The first package of a new connection.
unfoldable pub on_accept : ℕ → Fields → Clock → ChatRoom → ChatRoom × List Delivery
unfolding on_join
on_accept so rec now room = elim (lookup (lit "type") rec) [
  | none ↦ (stopped room, [])
  | some type ↦
      if str_eq type (lit "TYPE_JOIN_CHATROOM")
      then elim (lookup (lit "username") rec) [
        | none ↦ (stopped room, [])
        | some username ↦ on_join so username now room
      ]
      else (if str_eq type (lit "TYPE_CLOSE_CHATROOM") then (closed room, []) else (room, []))
]

-- `connected.erase` of the socket, and the end of its thread.
abbrev pub without : ℕ → ChatRoom → ChatRoom
without so room = record room {
  connected = erase_first so room.connected;
  threads = remove so room.threads;
}

unfoldable pub on_leave : ℕ → Str → Clock → ChatRoom → ChatRoom × List Delivery
unfolding broadcast_msg send_each
on_leave so username now room =
    let rest = erase_first so room.connected in
    if str_eq username room.roomname
    then (
      record (without so room) { connected = [] },
      broadcast_msg (sys_record now (lit "the chatroom is close.")) rest
          ++ (so, exit_room (lit "close room")) ∷ send_each (exit_room (lit "leave")) rest,
    )
    else (
      without so room,
      broadcast_msg (sys_record now (username ++ lit " leave us.")) rest
          ++ (so, exit_room (lit "leave")) ∷ [],
    )

-- The part of a room message under `msg_mux`.
unfoldable pub on_room_msg : ℕ → Str → Str → Clock → ChatRoom → ChatRoom
unfolding remember
on_room_msg so username message now room =
    let ch : ChatRecord = record { who = username; time = get_time now; msg = message } in
    record room {
      last_three = remember ch room.last_three;
      threads = insert so (record { username = username; stage = announcing ch }) room.threads;
    }

-- The owner's socket leaves, and its thread waits on.
unfoldable pub on_detach : ℕ → Str → Clock → ChatRoom → ChatRoom × List Delivery
unfolding broadcast_msg
on_detach so username now room =
    if str_eq username room.roomname
    then (
      record room { connected = erase_first so room.connected },
      (so, exit_room (lit "leave")) ∷ [],
    )
    else (
      room,
      broadcast_msg (record { who = username; time = get_time now; msg = lit "detach" })
          room.connected,
    )

-- The branches of `server_recv_command`.
pub data Request : Type 0 where
  leaves speaks detaches asks_nothing : Request

unfoldable pub request_of : Str → Request
request_of type =
    if str_eq type (lit "TYPE_LEAVE_CHATROOM")
    then leaves
    else (if str_eq type (lit "TYPE_ROOM_MSG")
        then speaks
        else (if str_eq type (lit "TYPE_DETACH") then detaches else asks_nothing))

abbrev pub on_message : ℕ → Str → Option Str → Clock → ChatRoom → Option (ChatRoom × List Delivery)
on_message so username none now room = none
on_message so username (some message) now room = some (on_room_msg so username message now room, [])

abbrev pub on_request :
    Request → ℕ → Str → Fields → Clock → ChatRoom → Option (ChatRoom × List Delivery)
on_request leaves so username rec now room = some (on_leave so username now room)
on_request speaks so username rec now room =
    on_message so username (lookup (lit "message") rec) now room
on_request detaches so username rec now room = some (on_detach so username now room)
on_request asks_nothing so username rec now room = some (room, [])

-- A package from a member. Nothing catches an exception in a member's thread: `none` is the end of
-- the process.
unfoldable pub on_package : ℕ → Str → Fields → Clock → ChatRoom → Option (ChatRoom × List Delivery)
unfolding on_leave on_room_msg on_detach request_of
on_package so username rec now room = elim (lookup (lit "type") rec) [
  | none ↦ none
  | some type ↦ on_request (request_of type) so username rec now room
]

-- `none` is a connection at its end.
abbrev pub on_input : ℕ → Str → Option Fields → Clock → ChatRoom → Option (ChatRoom × List Delivery)
on_input so username none now room = some (without so room, [])
on_input so username (some rec) now room = on_package so username rec now room

abbrev pub waiting_thread : ℕ → Str → ChatRoom → ChatRoom
waiting_thread so username room = record room {
  threads = insert so (record { username = username; stage = waiting }) room.threads;
}

-- What the thread of a member does next; the input is what it reads if it waits.
abbrev pub run_stage :
    Stage → ℕ → Str → Option Fields → Clock → ChatRoom → Option (ChatRoom × List Delivery)
run_stage welcoming so username input now room =
    some (waiting_thread so username room, (so, server_msg room.last_three) ∷ [])
run_stage waiting so username input now room = on_input so username input now room
run_stage (announcing ch) so username input now room =
    some (waiting_thread so username room, broadcast_msg ch room.connected)

unfoldable pub on_turn : ℕ → Option Fields → Clock → ChatRoom → Option (ChatRoom × List Delivery)
unfolding on_package server_msg broadcast_msg
on_turn so input now room = elim (lookup so room.threads) [
  | none ↦ some (room, [])
  | some t ↦ run_stage t.stage so t.username input now room
]

pub data Event : Type 0 where
  accepts : ℕ → Fields → Clock → Event
  turns : ℕ → Option Fields → Clock → Event

-- Any thread may run next. Without a listener no connection is accepted.
unfoldable pub step : Event → ChatRoom → Option (ChatRoom × List Delivery)
unfolding on_accept on_turn
step (accepts so rec now) room =
    if room.listening then some (on_accept so rec now room) else some (room, [])
step (turns so input now) room = on_turn so input now room

-- The room after any events, with all that it sent.
unfoldable pub run : List Event → ChatRoom → Option (ChatRoom × List Delivery)
unfolding step
run [] room = some (room, [])
run (e ∷ es) room = elim (step e room) [
  | none ↦ none
  | some (next, sent) ↦ elim (run es next) [
    | none ↦ none
    | some (last, more) ↦ some (last, sent ++ more)
  ]
]

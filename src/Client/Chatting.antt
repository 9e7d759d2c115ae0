-- ===== src/Client/Chatting.antt =====
-- The client's packages in the room of client/server_part.cpp, and the room's packages at the
-- client.
use np_hw.Prelude.{
  ℤ, ℕ, Bool, true, false, ◌≡◌, refl, subst, inl, inr, Option, none, some, List, [], ◌∷◌, ◌++◌, Str,
  str_eq, str_key, nat_key, lit, lookup, insert, ok, pure, at, ◌>>=◌, if◌then◌else◌, Bool-cases,
  Option-cases, erase_first, endl,
}
use np_hw.Prelude.Decimal.{stoi}
use np_hw.Server.State.{Fields, reply_to}
use np_hw.Chat.Packages.{
  ChatRecord, Clock, Delivery, room_msg, exit_room, server_msg, send_each, broadcast_msg,
  sys_record,
}
use np_hw.Chat.Room.{
  ChatRoom, Stage, welcoming, waiting, announcing, on_join, on_accept, on_leave, on_detach,
  on_request, on_package, on_turn, Event, accepts, turns, step, run, request_of, Request, leaves,
  speaks, detaches, asks_nothing, run_stage,
}
use np_hw.Client.Requests.{Client, bbs, to_uint16}
use np_hw.Client.Deeds.{
  Heard, shown, silent, back_to_bbs, closes_room, hear, set_mode, ask_close_chatroom,
}

-- The client after a package: back in the first mode if the room is left or ends.
abbrev pub goes_on : Heard → Client → Client
goes_on (shown text) client = client
goes_on silent client = client
goes_on back_to_bbs client = record client { mode = bbs }
goes_on (closes_room request target) client = record client { mode = bbs }

-- The client's thread that listens to the room takes the package without an exception, where
-- `room_data` is what the server answers, and goes on, or leaves the room and its mode.
abbrev pub IsHeard : Fields → Fields → Type 0
IsHeard room_data fields =
    (client : Client)
    → (heard : Heard) × (hear room_data fields client ≡ (ok heard, goes_on heard client))

pub hear-room_msg :
    (room_data : Fields) (ch : ChatRecord) (client : Client)
    → hear room_data (room_msg ch) client ≡ (
      ok (
          if str_eq ch.who client.username
          then silent
          else shown (ch.who ++ lit "[" ++ ch.time ++ lit "]:" ++ ch.msg ++ endl)),
      client,
    )
unfolding hear lookup insert lit str_eq ◌>>=◌ at pure
hear-room_msg room_data ch client = elim (Bool-cases (str_eq ch.who client.username)) [
  | inl own ↦ rw own refl
  | inr other ↦ rw other refl
]

abbrev pub AllHeard : Fields → List Delivery → Type 0
AllHeard room_data [] = Unit
AllHeard room_data ((so, rec) ∷ more) = IsHeard room_data rec × AllHeard room_data more

-- What a step sends, if there is one.
abbrev Sends : Fields → Option (ChatRoom × List Delivery) → Type 0
Sends room_data none = Unit
Sends room_data (some (room, sent)) = AllHeard room_data sent

module _ (room_data : Fields) (text : Str) (port : ℤ)
    (named : lookup (lit "port") room_data ≡ some text) (read : stoi text ≡ ok port) where
  room_msg-IsHeard : (ch : ChatRecord) → IsHeard room_data (room_msg ch)
  room_msg-IsHeard ch client = elim (Bool-cases (str_eq ch.who client.username)) [
    | inl own ↦ (silent, rw own at (hear-room_msg room_data ch client))
    | inr other ↦ (shown _, rw other at (hear-room_msg room_data ch client))
  ]

  server_msg-IsHeard : (last_three : List ChatRecord) → IsHeard room_data (server_msg last_three)
  unfolding hear lookup insert lit str_eq ◌>>=◌ at pure server_msg
  server_msg-IsHeard last_three client = (_, refl)

  exit_room-IsHeard : (action : Str) → IsHeard room_data (exit_room action)
  unfolding hear lookup insert lit str_eq ◌>>=◌ at pure set_mode
  exit_room-IsHeard action client = elim (Bool-cases (str_eq action (lit "close room"))) [
    | inl closing ↦ (
      closes_room (ask_close_chatroom client.username).request
          (to_uint16 port, reply_to (lit "TYPE_CLOSE_CHATROOM")),
      rw (closing, named, read) refl,
    )
    | inr other ↦ (back_to_bbs, rw other refl)
  ]

  AllHeard-append :
      (a b : List Delivery)
      → AllHeard room_data a
      → AllHeard room_data b
      → AllHeard room_data (a ++ b)
  AllHeard-append [] b h k = k
  AllHeard-append ((so, rec) ∷ a) b h k = (h.0, AllHeard-append a b h.1 k)

  send_each-AllHeard :
      (rec : Fields) (who : List ℕ) → IsHeard room_data rec → AllHeard room_data (send_each rec who)
  unfolding send_each
  send_each-AllHeard rec [] h = tt
  send_each-AllHeard rec (so ∷ who) h = (h, send_each-AllHeard rec who h)

  broadcast_msg-AllHeard :
      (ch : ChatRecord) (who : List ℕ) → AllHeard room_data (broadcast_msg ch who)
  unfolding broadcast_msg
  broadcast_msg-AllHeard ch who = send_each-AllHeard (room_msg ch) who (room_msg-IsHeard ch)

  broadcast-AllHeard :
      (ch : ChatRecord) (who : List ℕ) (more : List Delivery)
      → AllHeard room_data more
      → AllHeard room_data (broadcast_msg ch who ++ more)
  broadcast-AllHeard ch who more h =
      AllHeard-append (broadcast_msg ch who) more (broadcast_msg-AllHeard ch who) h

  on_leave-AllHeard :
      (so : ℕ) (name : Str) (now : Clock) (room : ChatRoom)
      → AllHeard room_data (on_leave so name now room).1
  unfolding on_leave
  on_leave-AllHeard so name now room = elim (Bool-cases (str_eq name room.roomname)) [
    | inl own ↦
        let rest = erase_first so room.connected in
        let ends : AllHeard room_data
            ((so, exit_room (lit "close room")) ∷ send_each (exit_room (lit "leave")) rest) =
          (exit_room-IsHeard _, send_each-AllHeard _ _ (exit_room-IsHeard _)) in
        rw own (
          broadcast-AllHeard (sys_record now (lit "the chatroom is close.")) rest
            ((so, exit_room (lit "close room")) ∷ send_each (exit_room (lit "leave")) rest) ends)
    | inr other ↦
        let ends : AllHeard room_data ((so, exit_room (lit "leave")) ∷ []) =
          (exit_room-IsHeard _, tt) in
        rw other (
          broadcast-AllHeard (sys_record now (name ++ lit " leave us."))
            (erase_first so room.connected) ((so, exit_room (lit "leave")) ∷ []) ends)
  ]

  on_detach-AllHeard :
      (so : ℕ) (name : Str) (now : Clock) (room : ChatRoom)
      → AllHeard room_data (on_detach so name now room).1
  unfolding on_detach
  on_detach-AllHeard so name now room = elim (Bool-cases (str_eq name room.roomname)) [
    | inl own ↦ rw own (exit_room-IsHeard _, tt)
    | inr other ↦ rw other (broadcast_msg-AllHeard _ _)
  ]

  on_join-AllHeard :
      (so : ℕ) (name : Str) (now : Clock) (room : ChatRoom)
      → AllHeard room_data (on_join so name now room).1
  unfolding on_join
  on_join-AllHeard so name now room = elim (Bool-cases (str_eq name room.roomname)) [
    | inl own ↦ rw own tt
    | inr other ↦ rw other (broadcast_msg-AllHeard _ _)
  ]

  on_accept-AllHeard :
      (so : ℕ) (rec : Fields) (now : Clock) (room : ChatRoom)
      → AllHeard room_data (on_accept so rec now room).1
  unfolding on_accept
  on_accept-AllHeard so rec now room = elim (Option-cases (lookup (lit "type") rec)) [
    | inl e ↦ rw (on_accept, e) tt
    | inr (type, e) ↦ elim (Bool-cases (str_eq type (lit "TYPE_JOIN_CHATROOM"))) [
      | inl joins ↦ elim (Option-cases (lookup (lit "username") rec)) [
        | inl k ↦ rw (on_accept, e, joins, k) tt
        | inr (name, k) ↦ rw (on_accept, e, joins, k) (on_join-AllHeard so name now room)
      ]
      | inr other ↦ elim (Bool-cases (str_eq type (lit "TYPE_CLOSE_CHATROOM"))) [
        | inl ends ↦ rw (on_accept, e, other, ends) tt
        | inr k ↦ rw (on_accept, e, other, k) tt
      ]
    ]
  ]

  on_request-Sends :
      (r : Request) (so : ℕ) (name : Str) (rec : Fields) (now : Clock) (room : ChatRoom)
      → Sends room_data (on_request r so name rec now room)
  on_request-Sends leaves so name rec now room = on_leave-AllHeard so name now room
  on_request-Sends speaks so name rec now room = elim (Option-cases (lookup (lit "message") rec)) [
    | inl e ↦ rw (on_request, e) tt
    | inr (message, e) ↦ rw (on_request, e) tt
  ]
  on_request-Sends detaches so name rec now room = on_detach-AllHeard so name now room
  on_request-Sends asks_nothing so name rec now room = tt

  on_package-Sends :
      (so : ℕ) (name : Str) (rec : Fields) (now : Clock) (room : ChatRoom)
      → Sends room_data (on_package so name rec now room)
  unfolding on_package
  on_package-Sends so name rec now room = elim (Option-cases (lookup (lit "type") rec)) [
    | inl e ↦ rw (on_package, e) tt
    | inr (type, e) ↦ rw (on_package, e) (on_request-Sends (request_of type) so name rec now room)
  ]

  run_stage-Sends :
      (stage : Stage) (so : ℕ) (name : Str) (input : Option Fields) (now : Clock) (room : ChatRoom)
      → Sends room_data (run_stage stage so name input now room)
  run_stage-Sends welcoming so name input now room = (server_msg-IsHeard _, tt)
  run_stage-Sends waiting so name none now room = tt
  run_stage-Sends waiting so name (some rec) now room = on_package-Sends so name rec now room
  run_stage-Sends (announcing ch) so name input now room = broadcast_msg-AllHeard ch _

  Sends-if :
      (b : Bool) (o p : Option (ChatRoom × List Delivery))
      → Sends room_data o
      → Sends room_data p
      → Sends room_data (if b then o else p)
  Sends-if true o p h k = h
  Sends-if false o p h k = k

  step-Sends : (e : Event) (room : ChatRoom) → Sends room_data (step e room)
  unfolding step on_turn
  step-Sends (accepts so rec now) room =
      Sends-if room.listening _ _ (on_accept-AllHeard so rec now room) tt
  step-Sends (turns so input now) room = elim (Option-cases (lookup so room.threads)) [
    | inl e ↦ rw (step, on_turn, e) tt
    | inr (t, e) ↦ rw (step, on_turn, e) (run_stage-Sends t.stage so t.username input now room)
  ]

  -- Whatever connections are made to a room and whatever its members send it, in any order:
  -- when a client's listening thread takes any package that the room has sent, it throws
  -- nothing, and either goes on with the client as it was, or is back in the mode for the
  -- bulletin board, as long as a client that is told to close its room gets an answer of the
  -- server that names an `int` as port.
  pub run-AllHeard :
      (es : List Event) (room last : ChatRoom) (sent : List Delivery)
      → run es room ≡ some (last, sent)
      → AllHeard room_data sent
  unfolding run
  run-AllHeard [] room last sent h =
      let nothing_sent : [] ≡ sent = cc in subst (AllHeard room_data) nothing_sent tt
  run-AllHeard (e ∷ es) room last sent h = elim (Option-cases (step e room)) [
    | inl stops ↦ absurd (let ended = rw (run, stops) at h in cc)
    | inr ((next, first), goes) ↦
        let heard : AllHeard room_data first = rw goes at (step-Sends e room) in
        elim (Option-cases (run es next)) [
          | inl stops ↦ absurd (let ended = rw (run, goes, stops) at h in cc)
          | inr ((final, more), went) ↦
              let both : some (final, first ++ more) ≡ some (last, sent) =
                rw (run, goes, went) at h in
              let all : first ++ more ≡ sent = cc in
              subst (AllHeard room_data) all
                (AllHeard-append first more heard (run-AllHeard es next final more went))
        ]
  ]

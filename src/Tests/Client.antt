-- ===== src/Tests/Client.antt =====
-- The client at concrete inputs.
use np_hw.Prelude.{
  ◌≡◌, refl, false, none, some, List, [], ◌∷◌, ◌++◌, Str, lit, str_eq, str_key, nat_key, int_key,
  lookup, insert, pos, ok, arith, endl, if◌then◌else◌,
}
use np_hw.Prelude.Search.{find}
use np_hw.Prelude.Decimal.{is_space, to_string, stoi-to_string}
use np_hw.Server.State.{Fields, assign}
use np_hw.Chat.Packages.{Clock, Delivery, server_msg, room_msg, get_time, send_each}
use np_hw.Chat.Room.{
  ChatRoom, start_server, unstarted, turns, run, waiting, welcoming, waiting_thread,
}
use np_hw.Client.Requests.{Client, bbs, chat}
use np_hw.Client.Tasks.{opens_board}
use np_hw.Client.Breaks.{br, break_lines, one_pass, break_lines-one_pass}
use np_hw.Client.Commands.{read_line, says, is_solid, is_any, is_command}
use np_hw.Client.Lines.{line_of, IsTypable, with_breaks}
use np_hw.Client.Typing.{typed-deed}
use np_hw.Client.Deeds.{deed, prints, tells_room, hear, shown, silent}
use np_hw.Client.Tasks.{ask}
use np_hw.Client.Chatting.{AllHeard, run-AllHeard}
use np_hw.Client.Speaking.{said_at, said-hear}

abbrev bob : Str
bob = lit "bob"

abbrev bob_client : Client
bob_client = record { login_token = pos 5; mode = bbs; username = [] }

break_lines-one_pass_example :
    (break_lines (lit "a<br>b") ≡ one_pass 0 (lit "a<br>b"))
    × (find br (break_lines (lit "a<br>b")) ≡ none)
break_lines-one_pass_example = break_lines-one_pass (lit "a<br>b")

abbrev board_name : Str
board_name = b'c' ∷ (b'+' ∷ [])

name-solid : IsTypable (opens_board board_name)
unfolding is_solid
name-solid = (refl, (refl, tt))

typed-deed_example :
    deed bob_client (read_line bbs (line_of (opens_board board_name)))
    ≡ prints (ask (pos 5) (with_breaks (opens_board board_name))) false
typed-deed_example = typed-deed bob_client (opens_board board_name) name-solid

abbrev clock : Clock
clock = record { tm_hour = 12; tm_min = 5 }

abbrev bob_room : ChatRoom
bob_room = record (start_server bob unstarted) {
  connected = 4 ∷ [];
  threads = (4, record { username = bob; stage = welcoming }) ∷ [];
}

abbrev welcomed : List Delivery
welcomed = (4, server_msg []) ∷ []

welcome-run :
    run (turns 4 none clock ∷ []) bob_room ≡ some (waiting_thread 4 bob bob_room, welcomed)
unfolding run lookup
welcome-run = refl

abbrev close_reply : Fields
close_reply = assign "port" (to_string (pos 9000)) []

close_reply-port : lookup (lit "port") close_reply ≡ some (to_string (pos 9000))
unfolding lookup insert lit str_eq
close_reply-port = refl

run-AllHeard_example : AllHeard close_reply welcomed
run-AllHeard_example =
    run-AllHeard close_reply (to_string (pos 9000)) (pos 9000) close_reply-port
      (stoi-to_string (pos 9000) (omega arith)) (turns 4 none clock ∷ []) bob_room
      (waiting_thread 4 bob bob_room) welcomed welcome-run

abbrev chatting : Client
chatting = record { login_token = pos 5; mode = chat; username = bob }

abbrev open_room : ChatRoom
open_room = record (start_server bob unstarted) {
  connected = 4 ∷ [];
  threads = (4, record { username = bob; stage = waiting }) ∷ [];
}

hi-said : read_line chat (lit "hi") ≡ says (lit "hi")
unfolding read_line lookup lit str_eq is_command is_space is_any
hi-said = refl

bob-waits : lookup 4 open_room.threads ≡ some (record { username = bob; stage = waiting })
unfolding lookup
bob-waits = refl

said-hear_example :
    (rec : Fields) × (last : ChatRoom) × (deed chatting (read_line chat (lit "hi"))
      ≡ tells_room rec)
    × (run (turns 4 (some rec) clock ∷ turns 4 none clock ∷ []) open_room
        ≡ some (last, send_each (room_msg (said_at bob clock (lit "hi"))) (4 ∷ [])))
    × ((room_data : Fields) (other : Client)
        → hear room_data (room_msg (said_at bob clock (lit "hi"))) other ≡ (
          ok (
              if str_eq bob other.username
              then silent
              else shown (bob ++ lit "[" ++ get_time clock ++ lit "]:" ++ lit "hi" ++ endl)),
          other,
        ))
said-hear_example = said-hear chatting 4 bob (lit "hi") clock clock open_room hi-said bob-waits

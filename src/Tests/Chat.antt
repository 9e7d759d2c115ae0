-- ===== src/Tests/Chat.antt =====
-- The chat room at concrete inputs.
use np_hw.Prelude.{
  ◌≡◌, refl, false, none, some, List, [], ◌∷◌, ◌++◌, Str, lit, str_key, nat_key, lookup, insert,
  str_eq,
}
use np_hw.Server.State.{Fields, assign, reply_to}
use np_hw.Chat.Packages.{Clock, Delivery, server_msg}
use np_hw.Chat.Room.{
  ChatRoom, start_server, unstarted, Event, accepts, turns, step, run, waiting, Thread, welcoming,
  on_room_msg, waiting_thread,
}
use np_hw.Chat.History.{newest, heard, last_three-newest}
use np_hw.Chat.Silence.{addressed}
use np_hw.Chat.Members.{IsOrderly, Reaches, here, further, Reaches-IsOrderly, Reaches-silent}

abbrev noon : Clock
noon = record { tm_hour = 12; tm_min = 5 }

abbrev ann : Str
ann = lit "ann"

abbrev ann_thread : Thread
ann_thread = record { username = ann; stage = waiting }

-- Ann is in her own room, where nothing was said.
abbrev ann_room : ChatRoom
ann_room = record (start_server ann unstarted) {
  connected = 4 ∷ [];
  threads = (4, ann_thread) ∷ [];
}

abbrev hello : Fields
hello = assign "message" (lit "hello") (reply_to (lit "TYPE_ROOM_MSG"))

abbrev greeting : List Event
greeting = turns 4 (some hello) noon ∷ []

abbrev greeted : ChatRoom
greeted = on_room_msg 4 ann (lit "hello") noon ann_room

greeting-run : run greeting ann_room ≡ some (greeted, [])
unfolding run step lookup lit str_eq insert
greeting-run = refl

last_three-newest_example : greeted.last_three ≡ newest ([] ++ heard greeting ann_room)
unfolding newest
last_three-newest_example = last_three-newest greeting ann_room greeted [] [] refl greeting-run

abbrev ann_joins : Event
ann_joins = accepts 4 (assign "username" ann (reply_to (lit "TYPE_JOIN_CHATROOM"))) noon

abbrev entered : ChatRoom
entered = record (start_server ann unstarted) {
  connected = 4 ∷ [];
  threads = (4, record { username = ann; stage = welcoming }) ∷ [];
}

entered-step : step ann_joins (start_server ann unstarted) ≡ some (entered, [])
unfolding step lookup insert lit str_eq
entered-step = refl

nobody : lookup 4 (start_server ann unstarted).threads ≡ none
unfolding lookup
nobody = refl

entered-Reaches : Reaches (start_server ann unstarted) entered
entered-Reaches = further ann_joins [] here nobody entered-step

Reaches-IsOrderly_example : IsOrderly entered
Reaches-IsOrderly_example = Reaches-IsOrderly entered-Reaches

seven-ended : lookup 7 entered.threads ≡ none
unfolding lookup
seven-ended = refl

abbrev welcome : List Event
welcome = turns 4 none noon ∷ []

abbrev welcomed : List Delivery
welcomed = (4, server_msg []) ∷ []

welcome-run : run welcome entered ≡ some (waiting_thread 4 ann entered, welcomed)
unfolding run step lookup
welcome-run = refl

Reaches-silent_example : addressed 7 welcomed ≡ false
Reaches-silent_example =
    Reaches-silent 7 welcome (waiting_thread 4 ann entered) welcomed entered-Reaches seven-ended
      (tt, tt) welcome-run

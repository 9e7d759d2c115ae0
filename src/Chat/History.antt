-- ===== src/Chat/History.antt =====
-- What `last_three` of client/server_part.cpp holds of all that was said.
use mathlib.Core.List.{append_assoc, append-nil}
use np_hw.Prelude.{
  ℕ, zero, suc, ◌-◌, ◌≡◌, refl, ap, sym, ◌∙◌, inl, inr, Bool, true, false, Option, none, some, List,
  [], ◌∷◌, ◌++◌, arith, Str, lit, str_key, nat_key, lookup, length, drop, ltb, length-append,
  length-drop, drop-append_within, if◌then◌else◌, Bool-cases, Option-cases,
}
use np_hw.Server.State.{Fields}
use np_hw.Chat.Packages.{ChatRecord, Clock, get_time, Delivery}
use np_hw.Chat.Room.{
  ChatRoom, Stage, welcoming, waiting, announcing, remember, on_join, on_accept, on_leave,
  on_room_msg, on_detach, on_package, on_turn, Request, leaves, speaks, detaches, asks_nothing,
  request_of, on_request, run_stage, Event, accepts, turns, step, run,
}

-- The last three of a list.
unfoldable pub newest : List ChatRecord → List ChatRecord
newest l = drop (length l - 3) l

drop-one-drop : (n : ℕ) (l : List ChatRecord) → drop 1 (drop n l) ≡ drop (suc n) l
drop-one-drop zero [] = refl
drop-one-drop zero (x ∷ l) = refl
drop-one-drop (suc n) [] = refl
drop-one-drop (suc n) (x ∷ l) = drop-one-drop n l

-- Taking one more into the last three gives the last three of one more.
remember-newest :
    (ch : ChatRecord) (l : List ChatRecord) → remember ch (newest l) ≡ newest (l ++ ch ∷ [])
unfolding remember newest
remember-newest ch l =
    let k = length l - 3 in
    let longer = l ++ ch ∷ [] in
    let size = length-append l (ch ∷ []) in
    let kept : drop k l ++ ch ∷ [] ≡ drop k longer =
      sym (drop-append_within k l (ch ∷ []) (omega arith)) in
    let left = length-drop k longer in
    rw kept (elim (Bool-cases (ltb 3 (length (drop k longer)))) [
      | inl more ↦
          let next : suc k ≡ length longer - 3 = ground (arith, size, left) in
          rw more (drop-one-drop k longer ∙ ap (λ n. drop n longer) next)
      | inr few ↦
          let same : k ≡ length longer - 3 = ground (arith, size, left) in
          rw few (ap (λ n. drop n longer) same)
    ])

-- What a member says by a package: the message of a room message.
abbrev spoken : Request → Str → Clock → Option Str → List ChatRecord
spoken speaks username now (some message) =
    record { who = username; time = get_time now; msg = message } ∷ []
spoken _ username now message = []

abbrev spoken_in : Option Str → Str → Clock → Option Str → List ChatRecord
spoken_in none username now message = []
spoken_in (some type) username now message = spoken (request_of type) username now message

abbrev said_by : Stage → Str → Option Fields → Clock → List ChatRecord
said_by welcoming username input now = []
said_by (announcing ch) username input now = []
said_by waiting username none now = []
said_by waiting username (some rec) now =
    spoken_in (lookup (lit "type") rec) username now (lookup (lit "message") rec)

-- What is said at an event: a thread that waits reads a package from its member.
unfoldable pub said : Event → ChatRoom → List ChatRecord
said (accepts so rec now) room = []
said (turns so input now) room = elim (lookup so room.threads) [
  | none ↦ []
  | some t ↦ said_by t.stage t.username input now
]

-- All that is said while the events happen.
unfoldable pub heard : List Event → ChatRoom → List ChatRecord
unfolding said
heard [] room = []
heard (e ∷ es) room =
    said e room ++ elim (step e room) [ none ↦ [] | some (next, sent) ↦ heard es next ]

on_join-last_three :
    (so : ℕ) (username : Str) (now : Clock) (room : ChatRoom)
    → (on_join so username now room).0.last_three ≡ room.last_three
unfolding on_join
on_join-last_three so username now room = ground arith

on_accept-last_three :
    (so : ℕ) (rec : Fields) (now : Clock) (room : ChatRoom)
    → (on_accept so rec now room).0.last_three ≡ room.last_three
unfolding on_accept
on_accept-last_three so rec now room =
    ground (arith, λ (username : Str). on_join-last_three so username now room)

on_leave-last_three :
    (so : ℕ) (username : Str) (now : Clock) (room : ChatRoom)
    → (on_leave so username now room).0.last_three ≡ room.last_three
unfolding on_leave
on_leave-last_three so username now room = ground arith

on_detach-last_three :
    (so : ℕ) (username : Str) (now : Clock) (room : ChatRoom)
    → (on_detach so username now room).0.last_three ≡ room.last_three
unfolding on_detach
on_detach-last_three so username now room = ground arith

-- A step ends with the room whose `last_three` is the last three of `l` and what was said.
abbrev Recalls : List ChatRecord → Option (ChatRoom × List Delivery) → Type 0
Recalls l none = Unit
Recalls l (some (room, sent)) = room.last_three ≡ newest l

on_request-Recalls :
    (q : Request) (so : ℕ) (username : Str) (rec : Fields) (now : Clock) (room : ChatRoom)
    (l : List ChatRecord)
    → room.last_three ≡ newest l
    → Recalls
        (l ++ spoken q username now (lookup (lit "message") rec))
        (on_request q so username rec now room)
unfolding on_room_msg
on_request-Recalls leaves so username rec now room l h =
    rw append-nil (on_leave-last_three so username now room ∙ h)
on_request-Recalls speaks so username rec now room l h =
    elim (Option-cases (lookup (lit "message") rec)) [
      | inl e ↦ rw e tt
      | inr (message, e) ↦ rw (e, h) (remember-newest _ l)
    ]
on_request-Recalls detaches so username rec now room l h =
    rw append-nil (on_detach-last_three so username now room ∙ h)
on_request-Recalls asks_nothing so username rec now room l h = rw append-nil h

on_turn-Recalls :
    (so : ℕ) (input : Option Fields) (now : Clock) (room : ChatRoom) (l : List ChatRecord)
    → room.last_three ≡ newest l
    → Recalls (l ++ said (turns so input now) room) (on_turn so input now room)
unfolding said on_turn on_package
on_turn-Recalls so input now room l h = elim (Option-cases (lookup so room.threads)) [
  | inl e ↦ rw (e, on_turn, said, append-nil) h
  | inr (t, e) ↦ rw (e, on_turn, said) (by_stage t.stage t.username input)
]
  where
    by_stage :
        (g : Stage) (username : Str) (input : Option Fields)
        → Recalls (l ++ said_by g username input now) (run_stage g so username input now room)
    by_stage welcoming username input = rw append-nil h
    by_stage (announcing ch) username input = rw append-nil h
    by_stage waiting username none = rw append-nil h
    by_stage waiting username (some rec) = elim (Option-cases (lookup (lit "type") rec)) [
      | inl e ↦ rw (e, on_package) tt
      | inr (type, e) ↦
          rw (e, on_package) (on_request-Recalls (request_of type) so username rec now room l h)
    ]

if-Recalls :
    (b : Bool) (x y : Option (ChatRoom × List Delivery)) (l : List ChatRecord)
    → Recalls l x
    → Recalls l y
    → Recalls l (if b then x else y)
if-Recalls true x y l h k = h
if-Recalls false x y l h k = k

step-Recalls :
    (e : Event) (room : ChatRoom) (l : List ChatRecord)
    → room.last_three ≡ newest l
    → Recalls (l ++ said e room) (step e room)
unfolding step said
step-Recalls (accepts so rec now) room l h = rw append-nil (
    if-Recalls room.listening (some (on_accept so rec now room)) (some (room, [])) l
      (on_accept-last_three so rec now room ∙ h) h)
step-Recalls (turns so input now) room l h = on_turn-Recalls so input now room l h

-- Whatever happens in a room that has kept the last three of `l`, in any interleaving of its
-- threads: while the process is there, `last_three` holds the last three of `l` and all that was
-- said since, in the order in which it was said.
pub last_three-newest :
    (es : List Event) (room last : ChatRoom) (sent : List Delivery) (l : List ChatRecord)
    → room.last_three ≡ newest l
    → run es room ≡ some (last, sent)
    → last.last_three ≡ newest (l ++ heard es room)
unfolding run heard
last_three-newest [] room last sent l h k = rw append-nil (ground arith)
last_three-newest (e ∷ es) room last sent l h k = elim (Option-cases (step e room)) [
  | inl dead ↦ absurd (cc (rw (dead, run) at k))
  | inr ((next, out), alive) ↦
      let now = step-Recalls e room l h in
      let known : next.last_three ≡ newest (l ++ said e room) = rw alive at now in
      elim (Option-cases (run es next)) [
        | inl dead ↦ absurd (cc (rw (alive, run, dead) at k))
        | inr ((final, more), r) ↦
            let ended : some (final, out ++ more) ≡ some (last, sent) = rw (alive, run, r) at k in
            let same : final ≡ last = cc in
            let rest = last_three-newest es next final more (l ++ said e room) known r in
            rw (← same, alive, heard, ← append_assoc) rest
      ]
]

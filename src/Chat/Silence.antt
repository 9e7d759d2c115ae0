-- ===== src/Chat/Silence.antt =====
-- Who is sent something by the room of client/server_part.cpp.
use np_hw.Prelude.{
  ℕ, ◌≡◌, refl, inl, inr, Bool, true, false, Option, none, some, List, [], ◌∷◌, ◌++◌, arith, Str,
  lit, str_eq, str_key, nat_key, nat_eq_iff, lookup, insert, lookup-insert, lookup-remove,
  erase_first, contains, contains-append, ◌==◌, if◌then◌else◌, Bool-cases, Option-cases,
}
use np_hw.Server.State.{Fields}
use np_hw.Chat.Packages.{ChatRecord, Clock, Delivery, server_msg, broadcast_msg, send_each}
use np_hw.Chat.Room.{
  ChatRoom, Thread, Stage, welcoming, waiting, announcing, without, on_join, on_accept, on_leave,
  on_room_msg, on_detach, on_package, on_turn, run_stage, Request, leaves, speaks, detaches,
  asks_nothing, request_of, on_request, Event, accepts, turns, step, run,
}

-- Something is sent to the socket.
unfoldable pub addressed : ℕ → List Delivery → Bool
addressed so [] = false
addressed so ((o, rec) ∷ rest) = if o == so then true else addressed so rest

addressed-append :
    (so : ℕ) (l r : List Delivery)
    → addressed so l ≡ false
    → addressed so r ≡ false
    → addressed so (l ++ r) ≡ false
unfolding addressed
addressed-append so [] r h k = k
addressed-append so ((o, rec) ∷ l) r h k = ground (arith, addressed-append so l r)

addressed-send_each :
    (so : ℕ) (f : Fields) (who : List ℕ)
    → contains so who ≡ false
    → addressed so (send_each f who) ≡ false
unfolding addressed contains send_each
addressed-send_each so f [] h = refl
addressed-send_each so f (o ∷ who) h = ground (arith, addressed-send_each so f who)

pub contains-erase_first :
    (a b : ℕ) (l : List ℕ) → contains a l ≡ false → contains a (erase_first b l) ≡ false
unfolding contains erase_first
contains-erase_first a b [] h = refl
contains-erase_first a b (x ∷ l) h = ground (arith, contains-erase_first a b l)

-- The socket is no member's, and no thread serves it.
pub record IsAbsent (so : ℕ) (room : ChatRoom) : Type 0 where
  pub unconnected : contains so room.connected ≡ false
  pub unserved : lookup so room.threads ≡ none

-- A step leaves the socket absent, and sends it nothing.
abbrev Spares : ℕ → Option (ChatRoom × List Delivery) → Type 0
Spares so none = Unit
Spares so (some (room, sent)) = IsAbsent so room × (addressed so sent ≡ false)

module _ (so : ℕ) (room : ChatRoom) (away : IsAbsent so room) (other : ℕ)
    (differs : (other == so) ≡ false) where
  broadcast-spared : (ch : ChatRecord) → addressed so (broadcast_msg ch room.connected) ≡ false
  unfolding broadcast_msg
  broadcast-spared ch = addressed-send_each so _ room.connected away.unconnected

  rest-spared :
      (ch : ChatRecord) → addressed so (broadcast_msg ch (erase_first other room.connected)) ≡ false
  unfolding broadcast_msg
  rest-spared ch =
      addressed-send_each so _ _ (contains-erase_first so other room.connected away.unconnected)

  own-spared : (rec : Fields) → addressed so ((other, rec) ∷ []) ≡ false
  unfolding addressed
  own-spared rec = rw differs refl

  without-IsAbsent : IsAbsent so (without other room)
  without-IsAbsent = record {
    unconnected = contains-erase_first so other room.connected away.unconnected;
    unserved = rw (lookup-remove, differs) away.unserved;
  }

  serving-IsAbsent :
      (t : Thread) → IsAbsent so (record room { threads = insert other t room.threads })
  serving-IsAbsent t = record {
    unconnected = away.unconnected;
    unserved = rw (lookup-insert, differs) away.unserved;
  }

  on_join-Spares :
      (username : Str) (now : Clock) → Spares so (some (on_join other username now room))
  unfolding on_join addressed
  on_join-Spares username now = elim (Bool-cases (str_eq username room.roomname)) [
    | inl owner ↦ rw owner (entered, refl)
    | inr member ↦ rw member (entered, broadcast-spared _)
  ]
    where
      entered : IsAbsent so (record room {
        connected = room.connected ++ other ∷ [];
        threads = insert other (record { username = username; stage = welcoming }) room.threads;
      })
      entered = record {
        unconnected =
            contains-append so room.connected (other ∷ []) away.unconnected
              (unfold contains in rw differs refl);
        unserved = rw (lookup-insert, differs) away.unserved;
      }

  on_accept-Spares : (rec : Fields) (now : Clock) → Spares so (some (on_accept other rec now room))
  unfolding on_accept addressed
  on_accept-Spares rec now = elim (Option-cases (lookup (lit "type") rec)) [
    | inl e ↦ rw (e, on_accept) (unmoved _ _, refl)
    | inr (type, e) ↦ elim (Bool-cases (str_eq type (lit "TYPE_JOIN_CHATROOM"))) [
      | inl join ↦ elim (Option-cases (lookup (lit "username") rec)) [
        | inl f ↦ rw (e, on_accept, join, f) (unmoved _ _, refl)
        | inr (username, f) ↦ rw (e, on_accept, join, f) (on_join-Spares username now)
      ]
      | inr no_join ↦ elim (Bool-cases (str_eq type (lit "TYPE_CLOSE_CHATROOM"))) [
        | inl close ↦ rw (e, on_accept, no_join, close) (unmoved _ _, refl)
        | inr other_type ↦ rw (e, on_accept, no_join, other_type) (away, refl)
      ]
    ]
  ]
    where
      unmoved : (l r : Bool) → IsAbsent so (record room { listening = l; chat_server_ready = r })
      unmoved l r = record { unconnected = away.unconnected; unserved = away.unserved }

  on_leave-Spares :
      (username : Str) (now : Clock) → Spares so (some (on_leave other username now room))
  unfolding on_leave contains
  on_leave-Spares username now = elim (Bool-cases (str_eq username room.roomname)) [
    | inl owner ↦
        let gone = without-IsAbsent in
        rw owner (
          record { unconnected = refl; unserved = gone.unserved },
          addressed-append so _ _ (rest-spared _) (
              addressed-append so (_ ∷ []) _ (own-spared _) (
                addressed-send_each so _ _
                  (contains-erase_first so other room.connected away.unconnected))),
        )
    | inr member ↦
        rw member (without-IsAbsent, addressed-append so _ _ (rest-spared _) (own-spared _))
  ]

  on_detach-Spares :
      (username : Str) (now : Clock) → Spares so (some (on_detach other username now room))
  unfolding on_detach
  on_detach-Spares username now = elim (Bool-cases (str_eq username room.roomname)) [
    | inl owner ↦ rw owner (
      record {
        unconnected = contains-erase_first so other room.connected away.unconnected;
        unserved = away.unserved;
      },
      own-spared _,
    )
    | inr member ↦ rw member (away, broadcast-spared _)
  ]

  on_request-Spares :
      (q : Request) (username : Str) (rec : Fields) (now : Clock)
      → Spares so (on_request q other username rec now room)
  unfolding on_room_msg addressed
  on_request-Spares leaves username rec now = on_leave-Spares username now
  on_request-Spares speaks username rec now = elim (Option-cases (lookup (lit "message") rec)) [
    | inl e ↦ rw e tt
    | inr (message, e) ↦
        rw e (
          record { unconnected = away.unconnected; unserved = (serving-IsAbsent _).unserved },
          refl,
        )
  ]
  on_request-Spares detaches username rec now = on_detach-Spares username now
  on_request-Spares asks_nothing username rec now = (away, refl)

  run_stage-Spares :
      (g : Stage) (username : Str) (input : Option Fields) (now : Clock)
      → Spares so (run_stage g other username input now room)
  unfolding on_package addressed
  run_stage-Spares welcoming username input now =
      (serving-IsAbsent _, own-spared (server_msg room.last_three))
  run_stage-Spares (announcing ch) username input now = (serving-IsAbsent _, broadcast-spared ch)
  run_stage-Spares waiting username none now = (without-IsAbsent, refl)
  run_stage-Spares waiting username (some rec) now = elim (Option-cases (lookup (lit "type") rec)) [
    | inl e ↦ rw (e, on_package) tt
    | inr (type, e) ↦ rw (e, on_package) (on_request-Spares (request_of type) username rec now)
  ]

-- The listener does not accept the socket.
abbrev pub IsNotAccepted : ℕ → Event → Type 0
IsNotAccepted so (accepts other rec now) = (other == so) ≡ false
IsNotAccepted so (turns other input now) = Unit

abbrev pub IsNeverAccepted : ℕ → List Event → Type 0
IsNeverAccepted so [] = Unit
IsNeverAccepted so (e ∷ es) = IsNotAccepted so e × IsNeverAccepted so es

if-Spares :
    (so : ℕ) (b : Bool) (x y : Option (ChatRoom × List Delivery))
    → Spares so x
    → Spares so y
    → Spares so (if b then x else y)
if-Spares so true x y h k = h
if-Spares so false x y h k = k

step-Spares :
    (so : ℕ) (e : Event) (room : ChatRoom)
    → IsAbsent so room
    → IsNotAccepted so e
    → Spares so (step e room)
unfolding step addressed on_turn
step-Spares so (accepts other rec now) room away differs =
    if-Spares so room.listening (some (on_accept other rec now room)) (some (room, []))
      (on_accept-Spares so room away other differs rec now) (away, refl)
step-Spares so (turns other input now) room away h = elim (Bool-cases (other == so)) [
  | inl same ↦
      let gone : lookup other room.threads ≡ none =
        rw ((nat_eq_iff other so).0 same) away.unserved in
      rw (gone, on_turn) (away, refl)
  | inr differs ↦ elim (Option-cases (lookup other room.threads)) [
    | inl e ↦ rw (e, on_turn) (away, refl)
    | inr (t, e) ↦
        rw (e, on_turn) (run_stage-Spares so room away other differs t.stage t.username input now)
  ]
]

-- A socket that is no member's and that no thread serves is sent nothing, whatever happens in the
-- room, in any interleaving of its threads, as long as the listener does not accept it.
pub run-silent :
    (so : ℕ) (es : List Event) (room last : ChatRoom) (sent : List Delivery)
    → IsAbsent so room
    → IsNeverAccepted so es
    → run es room ≡ some (last, sent)
    → IsAbsent so last × (addressed so sent ≡ false)
unfolding run
run-silent so [] room last sent away h k =
    let same : room ≡ last = cc in
    let nothing : sent ≡ [] = cc in (rw (← same) away, rw nothing (unfold addressed in refl))
run-silent so (e ∷ es) room last sent away h k = elim (Option-cases (step e room)) [
  | inl dead ↦ absurd (cc (rw (dead, run) at k))
  | inr ((next, out), alive) ↦
      let (still, quiet) : Spares so (some (next, out)) =
        rw alive at (step-Spares so e room away h.0) in
      elim (Option-cases (run es next)) [
        | inl dead ↦ absurd (cc (rw (alive, run, dead) at k))
        | inr ((final, more), r) ↦
            let (gone, later) = run-silent so es next final more still h.1 r in
            let ended : some (final, out ++ more) ≡ some (last, sent) = rw (alive, run, r) at k in
            let same : final ≡ last = cc in
            let all : out ++ more ≡ sent = cc in
            (rw (← same) gone, rw (← all) (addressed-append so out more quiet later))
      ]
]

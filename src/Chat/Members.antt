-- ===== src/Chat/Members.antt =====
-- What holds of the members of the room of client/server_part.cpp between two steps.
use np_hw.Prelude.{
  ℕ, ◌≡◌, refl, inl, inr, Bool, true, false, Option, none, some, List, [], ◌∷◌, ◌++◌, arith, Str,
  lit, str_eq, str_key, nat_key, nat_eq_iff, lookup, insert, lookup-insert, lookup-remove,
  erase_first, contains, ◌==◌, if◌then◌else◌, Bool-cases, Option-cases,
}
use np_hw.Server.State.{Fields}
use np_hw.Chat.Packages.{Clock, Delivery}
use np_hw.Chat.Room.{
  ChatRoom, Thread, Stage, welcoming, waiting, announcing, start_server, unstarted, without,
  on_join, on_accept, on_leave, on_room_msg, on_detach, on_package, on_turn, run_stage, Request,
  leaves, speaks, detaches, asks_nothing, request_of, on_request, Event, accepts, turns, step, run,
}
use np_hw.Chat.Silence.{contains-erase_first, addressed, IsNeverAccepted, run-silent}

-- Each member's socket is served by a thread, and is a member's only once.
pub record IsOrderly (room : ChatRoom) : Type 0 where
  pub served :
      (so : ℕ)
      → contains so room.connected ≡ true
      → (t : Thread) × (lookup so room.threads ≡ some t)
  pub once : (so : ℕ) → contains so (erase_first so room.connected) ≡ false

contains-append_one :
    (a b : ℕ) (l : List ℕ) → contains a (l ++ b ∷ []) ≡ (if contains a l then true else (b == a))
unfolding contains
contains-append_one a b [] = ground arith
contains-append_one a b (x ∷ l) = ground (arith, contains-append_one a b l)

once-append :
    (a b : ℕ) (l : List ℕ)
    → contains a (erase_first a l) ≡ false
    → contains b l ≡ false
    → contains a (erase_first a (l ++ b ∷ [])) ≡ false
unfolding contains erase_first
once-append a b [] h k = ground arith
once-append a b (x ∷ l) h k = ground (arith, once-append a b l, contains-append_one a b l)

once-erase :
    (a b : ℕ) (l : List ℕ)
    → contains a (erase_first a l) ≡ false
    → contains a (erase_first a (erase_first b l)) ≡ false
unfolding contains erase_first
once-erase a b [] h = refl
once-erase a b (x ∷ l) h =
    ground (arith, once-erase a b l, contains-erase_first a b l, contains-erase_first a a l)

module _ (room : ChatRoom) (v : IsOrderly room) (so : ℕ) where
  serving-IsOrderly : (t : Thread) → IsOrderly (record room { threads = insert so t room.threads })
  serving-IsOrderly t = record {
    served = λ o h.
        let (u, at_o) = v.served o h in
        elim (Bool-cases (so == o)) [
          | inl same ↦ (t, rw (lookup-insert, same) refl)
          | inr differs ↦ (u, rw (lookup-insert, differs) at_o)
        ];
    once = v.once;
  }

  erased-served :
      (o : ℕ)
      → contains o (erase_first so room.connected) ≡ true
      → (t : Thread) × (lookup o room.threads ≡ some t)
  erased-served o h = elim (Bool-cases (contains o room.connected)) [
    | inl in_room ↦ v.served o in_room
    | inr out ↦ absurd (cc (h, contains-erase_first o so room.connected out))
  ]

  detached-IsOrderly : IsOrderly (record room { connected = erase_first so room.connected })
  detached-IsOrderly = record {
    served = erased-served;
    once = λ o. once-erase o so room.connected (v.once o);
  }

  without-IsOrderly : IsOrderly (without so room)
  without-IsOrderly = record {
    served = λ o h. elim (Bool-cases (so == o)) [
      | inl same ↦
          let again : contains o (erase_first o room.connected) ≡ true =
            rw ((nat_eq_iff so o).0 same) at h in
          absurd (cc (again, v.once o))
      | inr differs ↦ let (t, at_o) = erased-served o h in (t, rw (lookup-remove, differs) at_o)
    ];
    once = λ o. once-erase o so room.connected (v.once o);
  }

  emptied-IsOrderly : IsOrderly (record (without so room) { connected = [] })
  unfolding contains erase_first
  emptied-IsOrderly = record { served = λ o h. cc; once = λ o. refl }

  entered-IsOrderly :
      (t : Thread)
      → lookup so room.threads ≡ none
      → IsOrderly (record room {
        connected = room.connected ++ so ∷ [];
        threads = insert so t room.threads;
      })
  entered-IsOrderly t fresh = record {
    served = λ o h. elim (Bool-cases (so == o)) [
      | inl same ↦ (t, rw (lookup-insert, same) refl)
      | inr differs ↦
          let in_room : contains o room.connected ≡ true =
            ground (arith, contains-append_one o so room.connected) in
          let (u, at_o) = v.served o in_room in (u, rw (lookup-insert, differs) at_o)
    ];
    once = λ o. once-append o so room.connected (v.once o) new;
  }
    where
      new : contains so room.connected ≡ false
      new = elim (Bool-cases (contains so room.connected)) [
        | inl in_room ↦ let (t, at_so) = v.served so in_room in absurd (cc (fresh, at_so))
        | inr outside ↦ outside
      ]

-- A step leaves the members in order.
abbrev IsOrderlyAfter : Option (ChatRoom × List Delivery) → Type 0
IsOrderlyAfter none = Unit
IsOrderlyAfter (some (room, sent)) = IsOrderly room

if-IsOrderlyAfter :
    (b : Bool) (x y : Option (ChatRoom × List Delivery))
    → IsOrderlyAfter x
    → IsOrderlyAfter y
    → IsOrderlyAfter (if b then x else y)
if-IsOrderlyAfter true x y h k = h
if-IsOrderlyAfter false x y h k = k

module _ (room : ChatRoom) (v : IsOrderly room) (so : ℕ) where
  on_accept-IsOrderly :
      (rec : Fields) (now : Clock)
      → lookup so room.threads ≡ none
      → IsOrderly (on_accept so rec now room).0
  unfolding on_accept on_join
  on_accept-IsOrderly rec now fresh = elim (Option-cases (lookup (lit "type") rec)) [
    | inl e ↦ rw (e, on_accept) (unmoved _ _)
    | inr (type, e) ↦ elim (Bool-cases (str_eq type (lit "TYPE_JOIN_CHATROOM"))) [
      | inl join ↦ elim (Option-cases (lookup (lit "username") rec)) [
        | inl f ↦ rw (e, on_accept, join, f) (unmoved _ _)
        | inr (username, f) ↦
            rw (e, on_accept, join, f)
              (elim (Bool-cases (str_eq username room.roomname)) [
                | inl owner ↦ rw owner (entered-IsOrderly room v so _ fresh)
                | inr member ↦ rw member (entered-IsOrderly room v so _ fresh)
              ])
      ]
      | inr no_join ↦ elim (Bool-cases (str_eq type (lit "TYPE_CLOSE_CHATROOM"))) [
        | inl close ↦ rw (e, on_accept, no_join, close) (unmoved _ _)
        | inr other_type ↦ rw (e, on_accept, no_join, other_type) v
      ]
    ]
  ]
    where
      unmoved : (l r : Bool) → IsOrderly (record room { listening = l; chat_server_ready = r })
      unmoved l r = record { served = v.served; once = v.once }

  on_leave-IsOrderly : (username : Str) (now : Clock) → IsOrderly (on_leave so username now room).0
  unfolding on_leave
  on_leave-IsOrderly username now = elim (Bool-cases (str_eq username room.roomname)) [
    | inl owner ↦ rw owner (emptied-IsOrderly room v so)
    | inr member ↦ rw member (without-IsOrderly room v so)
  ]

  on_request-IsOrderlyAfter :
      (q : Request) (username : Str) (rec : Fields) (now : Clock)
      → IsOrderlyAfter (on_request q so username rec now room)
  unfolding on_room_msg on_detach
  on_request-IsOrderlyAfter leaves username rec now = on_leave-IsOrderly username now
  on_request-IsOrderlyAfter speaks username rec now =
      elim (Option-cases (lookup (lit "message") rec)) [
        | inl e ↦ rw e tt
        | inr (message, e) ↦
            let kept = serving-IsOrderly room v so _ in
            rw e (record { served = kept.served; once = kept.once })
      ]
  on_request-IsOrderlyAfter detaches username rec now =
      elim (Bool-cases (str_eq username room.roomname)) [
        | inl owner ↦ rw owner (detached-IsOrderly room v so)
        | inr member ↦ rw member v
      ]
  on_request-IsOrderlyAfter asks_nothing username rec now = v

  run_stage-IsOrderlyAfter :
      (g : Stage) (username : Str) (input : Option Fields) (now : Clock)
      → IsOrderlyAfter (run_stage g so username input now room)
  unfolding on_package
  run_stage-IsOrderlyAfter welcoming username input now = serving-IsOrderly room v so _
  run_stage-IsOrderlyAfter (announcing ch) username input now = serving-IsOrderly room v so _
  run_stage-IsOrderlyAfter waiting username none now = without-IsOrderly room v so
  run_stage-IsOrderlyAfter waiting username (some rec) now =
      elim (Option-cases (lookup (lit "type") rec)) [
        | inl e ↦ rw (e, on_package) tt
        | inr (type, e) ↦
            rw (e, on_package) (on_request-IsOrderlyAfter (request_of type) username rec now)
      ]

-- `accept` returns a descriptor that no thread of the room uses.
abbrev pub IsFresh : Event → ChatRoom → Type 0
IsFresh (accepts so rec now) room = lookup so room.threads ≡ none
IsFresh (turns so input now) room = Unit

step-IsOrderlyAfter :
    (e : Event) (room : ChatRoom) → IsOrderly room → IsFresh e room → IsOrderlyAfter (step e room)
unfolding step on_turn
step-IsOrderlyAfter (accepts so rec now) room v fresh =
    if-IsOrderlyAfter room.listening (some (on_accept so rec now room)) (some (room, []))
      (on_accept-IsOrderly room v so rec now fresh) v
step-IsOrderlyAfter (turns so input now) room v fresh =
    elim (Option-cases (lookup so room.threads)) [
      | inl e ↦ rw (e, on_turn) v
      | inr (t, e) ↦
          rw (e, on_turn) (run_stage-IsOrderlyAfter room v so t.stage t.username input now)
    ]

-- The rooms that steps lead to.
pub data Reaches (room : ChatRoom) : ChatRoom → Type 0 where
  here : Reaches room room
  further :
      {last next : ChatRoom} (e : Event) (sent : List Delivery)
      → Reaches room last
      → IsFresh e last
      → step e last ≡ some (next, sent)
      → Reaches room next

-- In every room that one started in a new process leads to, by any steps of its threads in any
-- order, with `accept` returning descriptors that no thread uses: each member's socket is served by
-- a thread, and is in `connected` only once.
pub Reaches-IsOrderly :
    {name : Str} {room : ChatRoom} → Reaches (start_server name unstarted) room → IsOrderly room
unfolding contains erase_first
Reaches-IsOrderly here = record { served = λ so h. cc; once = λ so. refl }
Reaches-IsOrderly (further {last} e sent r fresh s) =
    rw s at (step-IsOrderlyAfter e last (Reaches-IsOrderly r) fresh)

-- In every room that one started in a new process leads to, by any steps of its threads in any
-- order, with `accept` returning descriptors that no thread uses: a socket that no thread serves is
-- sent nothing, whatever happens next, in any order, until the listener accepts it again.
pub Reaches-silent :
    {name : Str} {room : ChatRoom} (so : ℕ) (es : List Event) (last : ChatRoom)
    (sent : List Delivery)
    → Reaches (start_server name unstarted) room
    → lookup so room.threads ≡ none
    → IsNeverAccepted so es
    → run es room ≡ some (last, sent)
    → addressed so sent ≡ false
Reaches-silent {room} so es last sent r ended h k =
    (run-silent so es room last sent (record { unconnected = out; unserved = ended }) h k).1
  where
    out : contains so room.connected ≡ false
    out = elim (Bool-cases (contains so room.connected)) [
      | inl in_room ↦
          let (t, at_so) = (Reaches-IsOrderly r).served so in_room in absurd (cc (ended, at_so))
      | inr outside ↦ outside
    ]

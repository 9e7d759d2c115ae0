-- ===== src/Wire/Udp/Arrivals.antt =====
-- What `UDP_socket::insert_check` of socket.cpp does to the entry of one message.
use np_hw.Prelude.{
  ℕ, ◌≡◌, refl, ap, sym, ◌∙◌, inl, inr, true, false, Option, none, some, List, [], ◌∷◌, ◌++◌,
  if◌then◌else◌, pos, int_eq, int_eq_iff, lookup, lookup-insert, same_refl, ◌==◌, Bool-cases,
  Option-cases,
}
use np_hw.Wire.Udp.Packet.{Packet}
use np_hw.Wire.Udp.Table.{
  MsgKey, msg_key, Unfinished, Table, packet_id_ack, extend_entry, start_entry, insert_check,
  Arrival, after_arrivals, int_lt,
}

-- The packets of one message among all that arrive.
unfoldable pub packets_under : MsgKey → List Arrival → List Packet
packets_under key [] = []
packets_under key (a ∷ rest) =
    let more = packets_under key rest in if a.key == key then a.packet ∷ more else more

start_entry-other :
    (other key : MsgKey) (p : Packet) (now : ℕ) (m : Table)
    → (other == key) ≡ false
    → lookup key (start_entry other p now m).0 ≡ lookup key m
unfolding start_entry
start_entry-other other key p now m h = elim (Bool-cases (int_eq p.id (pos 0))) [
  | inl e ↦ rw (e, start_entry, lookup-insert, h) refl
  | inr e ↦ rw (e, start_entry) refl
]

extend_entry-other :
    (other key : MsgKey) (p : Packet) (now : ℕ) (u : Unfinished) (m : Table)
    → (other == key) ≡ false
    → lookup key (extend_entry other p now u m).0 ≡ lookup key m
unfolding extend_entry
extend_entry-other other key p now u m h = elim (Bool-cases (int_eq p.id u.next_id)) [
  | inl e ↦ rw (e, extend_entry, lookup-insert, h) refl
  | inr e ↦ elim (Bool-cases (int_lt u.next_id p.id)) [
    | inl l ↦ rw (e, extend_entry, l) refl
    | inr l ↦ rw (e, extend_entry, l) refl
  ]
]

-- A packet of another message changes nothing for this one.
pub insert_check-other :
    (other key : MsgKey) (p : Packet) (now : ℕ) (m : Table)
    → (other == key) ≡ false
    → lookup key (insert_check other p now m).0 ≡ lookup key m
unfolding insert_check
insert_check-other other key p now m h = elim (Bool-cases (int_eq p.id packet_id_ack)) [
  | inl e ↦ rw (e, insert_check) refl
  | inr e ↦ elim (Option-cases (lookup other m)) [
    | inl o ↦ rw (e, o, insert_check) (start_entry-other other key p now m h)
    | inr (u, o) ↦ rw (e, o, insert_check) (extend_entry-other other key p now u m h)
  ]
]

-- The entry, if there is one, holds `prefix` and waits for the packet `index`.
abbrev pub IsAwaiting : ℕ → List ℕ → Option Unfinished → Type 0
IsAwaiting index prefix none = (index ≡ 0) × (prefix ≡ [])
IsAwaiting index prefix (some u) = (u.next_id ≡ pos index) × (u.content ≡ prefix)

pub insert_check-awaited :
    (key : MsgKey) (p : Packet) (now index : ℕ) (prefix : List ℕ) (m : Table)
    → p.id ≡ pos index
    → IsAwaiting index prefix (lookup key m)
    → lookup key (insert_check key p now m).0
      ≡ some (record { next_id = p.next_id; last_received = now; content = prefix ++ p.content })
unfolding insert_check extend_entry start_entry
insert_check-awaited key p now index prefix m e h =
    let no_ack : int_eq p.id packet_id_ack ≡ false = unfold int_eq in rw e refl in
    elim (Option-cases (lookup key m)) [
      | inl o ↦
          let w : (index ≡ 0) × (prefix ≡ []) = rw o at h in
          let first : int_eq p.id (pos 0) ≡ true = (int_eq_iff p.id (pos 0)).1 (e ∙ ap pos w.0) in
          rw (no_ack, o, insert_check, first, start_entry, lookup-insert, same_refl key, w.1) refl
      | inr (u, o) ↦
          let w : (u.next_id ≡ pos index) × (u.content ≡ prefix) = rw o at h in
          let next : int_eq p.id u.next_id ≡ true = (int_eq_iff p.id u.next_id).1 (e ∙ sym w.0) in
          rw (no_ack, o, insert_check, next, extend_entry, lookup-insert, same_refl key, w.1) refl
    ]

pub insert_check-same :
    (other key : MsgKey) (p q : Packet) (now : ℕ) (m : Table)
    → other ≡ key
    → p ≡ q
    → lookup key (insert_check other p now m).0 ≡ lookup key (insert_check key q now m).0
insert_check-same other key p q now m h e = rw (h, e) refl

pub cons-inv : {A : Type 0} (x y : A) (xs ys : List A) → x ∷ xs ≡ y ∷ ys → (x ≡ y) × (xs ≡ ys)
cons-inv x y xs ys e = (cc, cc)

-- No packet of the message arrives.
pub after_arrivals-others :
    (key : MsgKey) (arrived : List Arrival) (m : Table)
    → packets_under key arrived ≡ []
    → lookup key (after_arrivals arrived m) ≡ lookup key m
unfolding packets_under after_arrivals
after_arrivals-others key [] m h = refl
after_arrivals-others key (a ∷ arrived) m h = elim (Bool-cases (a.key == key)) [
  | inl e ↦ absurd (cc (rw e at h))
  | inr e ↦
      after_arrivals-others key arrived _ (rw e at h)
      ∙ insert_check-other a.key key a.packet a.now m e
]

-- ===== src/Wire/Udp/Table.antt =====
-- `UDP_MSG`, `unfinished_msg` of socket.h and `UDP_socket::insert_check` of socket.cpp.
use np_hw.Prelude.{
  ℕ, ◌≡◌, Bool, true, false, ◌&&◌, none, some, List, [], ◌∷◌, ◌++◌, arith, nat_eq, ltb,
  if◌then◌else◌, ℤ, pos, negsuc, int_eq, int_eq_iff, Key, Map, lookup, insert, ◌↔◌,
}
use np_hw.Wire.Udp.Packet.{Packet}

-- The sender's address and port, and the message's number.
pub record MsgKey : Type 0 where
  pub addr : ℕ
  pub port : ℕ
  pub msgid : ℤ

unfoldable pub msg_eq : MsgKey → MsgKey → Bool
msg_eq a b = nat_eq a.addr b.addr && (nat_eq a.port b.port && int_eq a.msgid b.msgid)

pub msg_eq_iff : (a b : MsgKey) → (msg_eq a b ≡ true) ↔ (a ≡ b)
unfolding msg_eq
msg_eq_iff a b = ground (arith, int_eq_iff a.msgid b.msgid)

instance abbrev pub msg_key : Key MsgKey
msg_key = record { same = msg_eq; same_iff = msg_eq_iff }

pub record Unfinished : Type 0 where
  pub next_id : ℤ
  pub last_received : ℕ
  pub content : List ℕ

abbrev pub Table : Type 0
Table = Map MsgKey Unfinished

-- `PACKET_ID_NONEXT`, `PACKET_ID_RESEND` and `PACKET_ID_ACK`.
abbrev pub packet_id_nonext : ℤ
packet_id_nonext = negsuc 0

abbrev pub packet_id_resend : ℤ
packet_id_resend = negsuc 1

abbrev pub packet_id_ack : ℤ
packet_id_ack = negsuc 2

-- `a < b` on `int32_t`.
unfoldable pub int_lt : ℤ → ℤ → Bool
int_lt (pos a) (pos b) = ltb a b
int_lt (pos a) (negsuc b) = false
int_lt (negsuc a) (pos b) = true
int_lt (negsuc a) (negsuc b) = ltb b a

-- The packet that asks for the message again from the packet `id` on.
abbrev pub resend_request : MsgKey → ℤ → Packet
resend_request key id = record {
  msgid = key.msgid;
  id = id;
  next_id = packet_id_resend;
  flags = 0;
  content = [];
}

-- An entry for the message is there.
unfoldable pub extend_entry : MsgKey → Packet → ℕ → Unfinished → Table → Table × List Packet
unfolding int_lt
extend_entry key p now u m =
    if int_eq p.id u.next_id
    then (
      insert key
          (record { next_id = p.next_id; last_received = now; content = u.content ++ p.content }) m,
      [],
    )
    else (if int_lt u.next_id p.id then (m, resend_request key u.next_id ∷ []) else (m, []))

-- No entry for the message is there.
unfoldable pub start_entry : MsgKey → Packet → ℕ → Table → Table × List Packet
start_entry key p now m =
    if int_eq p.id (pos 0)
    then (
      insert key (record { next_id = p.next_id; last_received = now; content = p.content }) m,
      [],
    )
    else (m, resend_request key (pos 0) ∷ [])

-- The table after a packet that arrived at the time `now`, and the packets sent to `key.addr`.
unfoldable pub insert_check : MsgKey → Packet → ℕ → Table → Table × List Packet
unfolding extend_entry start_entry
insert_check key p now m = if int_eq p.id packet_id_ack then (m, []) else elim (lookup key m) [
  | some u ↦ extend_entry key p now u m
  | none ↦ start_entry key p now m
]

-- A packet with its sender and its time of arrival.
pub record Arrival : Type 0 where
  pub key : MsgKey
  pub packet : Packet
  pub now : ℕ

-- The table after any packets.
unfoldable pub after_arrivals : List Arrival → Table → Table
unfolding insert_check
after_arrivals [] m = m
after_arrivals (a ∷ rest) m = after_arrivals rest (insert_check a.key a.packet a.now m).0

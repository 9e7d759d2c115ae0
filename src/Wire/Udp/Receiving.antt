-- ===== src/Wire/Udp/Receiving.antt =====
-- `UDP_socket::recv` of socket.cpp, round by round of its loop.
use np_hw.Prelude.{
  ℕ, ◌-◌, ◌%◌, ◌≡◌, ◌∙◌, refl, Bool, true, false, ◌&&◌, Option, none, some, List, [], ◌∷◌, ◌++◌,
  inl, inr, ltb, nat_eq, if◌then◌else◌, ℤ, pos, int_eq, int_eq_iff, minus_one, lookup, Bool-cases,
}
use np_hw.Wire.Package.{Package}
use np_hw.Wire.Codec.{deserialize}
use np_hw.Wire.Udp.Packet.{Packet}
use np_hw.Wire.Udp.Table.{
  MsgKey, msg_key, msg_eq, msg_eq_iff, Unfinished, Table, packet_id_nonext, packet_id_ack,
  resend_request, insert_check, Arrival,
}
use np_hw.Wire.Udp.Sending.{Outgoing, addressed}

-- The entry of the table that is complete, the table without it, and what is sent on the way.
pub record Scan : Type 0 where
  pub found : Option (MsgKey × Unfinished)
  pub table : Table
  pub sent : List Outgoing

-- More than 100 milliseconds after the last packet, in milliseconds.
abbrev pub is_stale : ℕ → Unfinished → Bool
is_stale now u = ltb 100 (now - u.last_received)

abbrev pub passed : ℕ → MsgKey → Unfinished → Scan → Scan
passed now key u rest =
    if is_stale now u
    then record {
      found = rest.found;
      table = (key, record u { last_received = now }) ∷ rest.table;
      sent = (key, resend_request key u.next_id) ∷ rest.sent;
    }
    else record rest { table = (key, u) ∷ rest.table }

-- The `for` loop over the unfinished messages, up to the first that is complete, which it erases.
-- It asks again for those that nothing has come of for some time.
unfoldable pub recv_scan : ℕ → Table → Scan
recv_scan now [] = record { found = none; table = []; sent = [] }
recv_scan now ((key, u) ∷ m) =
    let rest = recv_scan now m in
    if int_eq u.next_id packet_id_nonext
    then record { found = some (key, u); table = m; sent = [] }
    else passed now key u rest

-- The local variables `next_id` and `flags`, which hold anything until a packet has come.
pub record Locals : Type 0 where
  pub next_id : ℤ
  pub flags : ℕ

-- What `poll` gives, and `recvpacket` after it.
pub data Polled : Type 0 where
  expires fails : Polled
  arrives : Arrival → Polled

pub data Received : Type 0 where
  continues : Locals → Table → Received
  ends : ℤ → Table → Received
  completes : MsgKey → Option Package → Table → Received

abbrev ack_packet : MsgKey → Packet
ack_packet key = record {
  msgid = key.msgid;
  id = packet_id_ack;
  next_id = packet_id_ack;
  flags = 0;
  content = [];
}

-- Three acknowledgements, if the last packet of this call was a message's last and asks for one.
abbrev pub acknowledgements : Locals → MsgKey → List Outgoing
acknowledgements locals key =
    if int_eq locals.next_id packet_id_nonext && nat_eq (locals.flags % 2) 1
    then (key, ack_packet key) ∷ ((key, ack_packet key) ∷ ((key, ack_packet key) ∷ []))
    else []

-- The end of a round without a complete message: `while (retry)`.
abbrev pub unless_once : Bool → Locals → Table → Received
unless_once true locals table = continues locals table
unless_once false locals table = ends (pos 0) table

unfoldable pub recv_poll : Bool → Polled → Locals → Table → Received × List Outgoing
unfolding insert_check
recv_poll retry expires locals table = (unless_once retry locals table, [])
recv_poll retry fails locals table = (ends minus_one table, [])
recv_poll retry (arrives a) locals table =
    let (next, asks) = insert_check a.key a.packet a.now table in
    (
      unless_once retry (record { next_id = a.packet.next_id; flags = a.packet.flags }) next,
      addressed a.key asks,
    )

abbrev also_sent : List Outgoing → Received × List Outgoing → Received × List Outgoing
also_sent sent (r, more) = (r, sent ++ more)

-- One round of `recv` into the package `data`.
unfoldable pub recv_round : Bool → ℕ → Polled → Package → Locals → Table → Received × List Outgoing
unfolding recv_scan recv_poll
recv_round retry now polled data_out locals table =
    let scan = recv_scan now table in
    elim scan.found [
      | some (key, u) ↦ (
        completes key (deserialize u.content data_out) scan.table,
        scan.sent ++ acknowledgements locals key,
      )
      | none ↦ also_sent scan.sent (recv_poll retry polled locals scan.table)
    ]

-- No other message than that under `key` is complete.
abbrev pub OnlyComplete : MsgKey → Table → Type 0
OnlyComplete key [] = Unit
OnlyComplete key ((k, u) ∷ m) = (u.next_id ≡ packet_id_nonext → k ≡ key) × OnlyComplete key m

passed-found :
    (now : ℕ) (key : MsgKey) (u : Unfinished) (rest : Scan)
    → (passed now key u rest).found ≡ rest.found
passed-found now key u rest = elim (Bool-cases (is_stale now u)) [
  | inl e ↦ rw e refl
  | inr e ↦ rw e refl
]

pub recv_scan-found :
    (now : ℕ) (key : MsgKey) (u : Unfinished) (m : Table)
    → lookup key m ≡ some u
    → u.next_id ≡ packet_id_nonext
    → OnlyComplete key m
    → (recv_scan now m).found ≡ some (key, u)
unfolding recv_scan lookup
recv_scan-found now key u [] there complete only = absurd (cc)
recv_scan-found now key u ((k, v) ∷ m) there complete only =
    elim (Bool-cases (int_eq v.next_id packet_id_nonext)) [
      | inl full ↦
          let same : k ≡ key = only.0 ((int_eq_iff v.next_id packet_id_nonext).0 full) in
          let match_it : msg_eq k key ≡ true = (msg_eq_iff k key).1 same in
          let first : some v ≡ some u = rw match_it at there in
          rw full (let held : v ≡ u = cc in rw (same, held) refl)
      | inr open_entry ↦ elim (Bool-cases (msg_eq k key)) [
        | inl same ↦
            let first : some v ≡ some u = rw same at there in
            let closed : int_eq u.next_id packet_id_nonext ≡ true =
              (int_eq_iff u.next_id packet_id_nonext).1 complete in
            absurd (let held : v ≡ u = cc in cc)
        | inr other ↦
            let later : lookup key m ≡ some u = rw other at there in
            rw open_entry (
              passed-found now k v (recv_scan now m)
              ∙ recv_scan-found now key u m later complete only.1)
      ]
    ]

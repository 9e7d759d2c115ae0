-- ===== src/Wire/Udp/Sending.antt =====
-- `UDP_socket::send` of socket.cpp, round by round of its loops.
use np_hw.Prelude.{
  ℕ, zero, suc, ◌*◌, Bool, true, false, List, [], ◌∷◌, ◌++◌, length, take, drop, leb, if◌then◌else◌,
  ℤ, pos, negsuc, int_eq, minus_one,
}
use np_hw.Wire.Udp.Packet.{Packet}
use np_hw.Wire.Udp.Table.{
  MsgKey, msg_eq, Table, packet_id_nonext, packet_id_resend, packet_id_ack, insert_check,
}
use np_hw.Prelude.Ints.{to_int}
use np_hw.Wire.Udp.Send.{max_udp_msg_size, counted_bytes}

-- What `recvpacket` gives: nothing yet, an error, or a packet with its sender, its message's number
-- and its time.
pub data Back : Type 0 where
  silence failure : Back
  incoming : MsgKey → Packet → ℕ → Back

-- What one round of a loop meets: whether `sendpacket` succeeds, what comes back, and whether more
-- than 200 milliseconds have gone by.
pub record Round : Type 0 where
  pub sends : Bool
  pub back : Back
  pub late : Bool

-- The local variables, and the table of unfinished messages.
pub record Sender : Type 0 where
  pub index : ℤ
  pub packet_id : ℤ
  pub packet_next_id : ℤ
  pub success : Bool
  pub table : Table

-- Where `send` stands: in the loop over the packets, in the loop that waits, in the outer loop with
-- neither of them entered, back with a value, or about to read before the buffer.
pub data Progress : Type 0 where
  sending waiting spinning : Sender → Progress
  returned : ℤ → Table → Progress
  astray : Progress

-- A packet and where it goes.
abbrev pub Outgoing : Type 0
Outgoing = MsgKey × Packet

abbrev pub addressed : MsgKey → List Packet → List Outgoing
addressed key [] = []
addressed key (p ∷ ps) = (key, p) ∷ addressed key ps

-- `n++`
abbrev pub inc : ℤ → ℤ
inc (pos n) = pos (suc n)
inc (negsuc zero) = pos 0
inc (negsuc (suc n)) = negsuc n

-- `MAX_UDP_MSG_SIZE * index`, a product of two `int`s, and the bytes from there on.
unfoldable pub offset_of : ℕ → ℤ
unfolding to_int
offset_of index = to_int (pos (index * max_udp_msg_size))

abbrev left_at : ℤ → List ℕ → List ℕ
left_at (pos offset) bytes = drop offset bytes
left_at (negsuc n) bytes = []

abbrev pub left_from : ℕ → List ℕ → List ℕ
left_from index bytes = left_at (offset_of index) (counted_bytes bytes)

abbrev pub begun : Table → Sender
begun table = record {
  index = pos 0;
  packet_id = pos 0;
  packet_next_id = pos 1;
  success = false;
  table = table;
}

-- `dest` is the receiver with the number of the message.
module _ (dest : MsgKey) (retry : Bool) (bytes : List ℕ) where
  abbrev pub flags_of : ℕ
  flags_of = if retry then 1 else 0

  abbrev after_pass : Bool → Bool → Sender → Progress
  after_pass true true s = returned (pos 0) s.table
  after_pass true false s = waiting s
  after_pass false success s = spinning s

  -- Whether `serial_len` is greater than the offset.
  abbrev from_offset : ℤ → Sender → Progress
  from_offset (negsuc n) s = astray
  from_offset (pos offset) s =
      if leb 1 (length (drop offset (counted_bytes bytes)))
      then sending s
      else after_pass retry s.success s

  abbrev pub from_index : ℤ → Sender → Progress
  from_index (negsuc n) s = astray
  from_index (pos i) s = from_offset (offset_of i) s

  -- The tests of the loops, with these variables.
  abbrev pub settle : Sender → Progress
  settle s = from_index s.index s

  -- `packet_next_id` when the packet is sent.
  abbrev next_id_of : List ℕ → Sender → ℤ
  next_id_of rest s =
      if leb (length rest) max_udp_msg_size then packet_id_nonext else s.packet_next_id

  abbrev pub packet_at : List ℕ → Sender → Packet
  packet_at rest s = record {
    msgid = dest.msgid;
    id = s.packet_id;
    next_id = next_id_of rest s;
    flags = flags_of;
    content = take max_udp_msg_size rest;
  }

  abbrev pub advance : List ℕ → Sender → Sender
  advance rest s = record s {
    index = inc s.index;
    packet_id = inc s.packet_id;
    packet_next_id = inc (next_id_of rest s);
  }

  -- A packet of the receiver that names another one sends the loop back to it.
  abbrev pub back_to : ℤ → Sender → Sender
  back_to id s = record s { index = id; packet_id = id; packet_next_id = inc id }

  abbrev acknowledged : Packet → Sender → Sender
  acknowledged p s = if int_eq p.id packet_id_ack then record s { success = true } else s

  -- A packet of another message.
  abbrev stored : MsgKey → Packet → ℕ → Sender → Sender
  stored key p now s = record s { table = (insert_check key p now s.table).0 }

  abbrev requests : MsgKey → Packet → ℕ → Sender → List Outgoing
  requests key p now s = addressed key (insert_check key p now s.table).1

  -- What comes back beside a packet that was sent.
  abbrev on_back : Back → List ℕ → Sender → Progress × List Outgoing
  on_back silence rest s = (settle (advance rest s), [])
  on_back failure rest s = (returned minus_one s.table, [])
  on_back (incoming key p now) rest s =
      if msg_eq key dest
      then (if int_eq p.next_id packet_id_resend
          then (settle (back_to p.id s), [])
          else (settle (advance rest (acknowledged p s)), []))
      else (settle (advance rest (stored key p now s)), requests key p now s)

  abbrev sent_one : Packet → Progress × List Outgoing → Progress × List Outgoing
  sent_one p (next, out) = (next, (dest, p) ∷ out)

  abbrev on_sent : Bool → Back → List ℕ → Sender → Progress × List Outgoing
  on_sent true back rest s = on_back back rest s
  on_sent false back rest s = (settle (advance rest s), [])

  -- A round of the loop over the packets.
  unfoldable pub send_round : Round → List ℕ → Sender → Progress × List Outgoing
  unfolding insert_check msg_eq
  send_round r rest s =
      if r.sends
      then sent_one (packet_at rest s) (on_sent retry r.back rest s)
      else (returned minus_one s.table, [])

  abbrev unless_late : Bool → Sender → Progress
  unless_late true s = returned (pos 0) s.table
  unless_late false s = waiting s

  -- A round of the loop that waits. After the time limit it is a success too.
  unfoldable pub wait_round : Bool → Back → Sender → Progress × List Outgoing
  unfolding insert_check msg_eq
  wait_round late silence s = (unless_late late s, [])
  wait_round late failure s = (returned minus_one s.table, [])
  wait_round late (incoming key p now) s =
      if msg_eq key dest
      then (if int_eq p.id packet_id_ack
          then (returned (pos 0) s.table, [])
          else (settle (back_to p.id s), []))
      else (unless_late late (stored key p now s), requests key p now s)

  abbrev pub from_sending : Round → ℤ → Sender → Progress × List Outgoing
  from_sending r (negsuc n) s = (astray, [])
  from_sending r (pos i) s = send_round r (left_from i bytes) s

  unfoldable pub send_step : Round → Progress → Progress × List Outgoing
  unfolding send_round wait_round
  send_step r (sending s) = from_sending r s.index s
  send_step r (waiting s) = wait_round r.late r.back s
  send_step r (spinning s) = (spinning s, [])
  send_step r (returned code table) = (returned code table, [])
  send_step r astray = (astray, [])

  -- All rounds, with all that was sent.
  unfoldable pub send_rounds : List Round → Progress → Progress × List Outgoing
  unfolding send_step
  send_rounds [] here = (here, [])
  send_rounds (r ∷ rs) here =
      let (next, out) = send_step r here in
      let (last, more) = send_rounds rs next in (last, out ++ more)

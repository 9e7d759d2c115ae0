-- ===== src/Wire/Udp/Returning.antt =====
-- When `UDP_socket::send` of socket.cpp returns.
use np_hw.Prelude.{
  ℕ, zero, suc, ◌+◌, ◌*◌, ◌≤◌, ◌<◌, ◌≡◌, refl, ap, sym, ◌∙◌, ◌^◌, length-drop, inl, inr, true,
  false, List, [], ◌∷◌, arith, length, drop, leb, ℤ, pos, Bool-cases,
}
use np_hw.Wire.Udp.Packet.{Packet}
use np_hw.Wire.Udp.Table.{MsgKey, Table}
use np_hw.Prelude.Ints.{to_int-small}
use np_hw.Wire.Udp.Send.{max_udp_msg_size, send_pass, packets_of, counted_bytes-small}
use np_hw.Wire.Udp.Reassembly.{send_pass-cons, send_pass-empty, last_round, further_round}
use np_hw.Wire.Udp.Sending.{
  silence, Round, Sender, Progress, sending, waiting, returned, Outgoing, addressed, left_from,
  begun, settle, send_round, wait_round, send_step, send_rounds, advance, packet_at, offset_of,
}

-- A round in which a packet is sent and nothing comes back, and one after the time limit.
abbrev pub quiet : Round
quiet = record { sends = true; back = silence; late = false }

abbrev pub overdue : Round
overdue = record { sends = true; back = silence; late = true }

-- A silent network: a round for each packet, some while nothing comes, and the time limit.
abbrev pub silent_rounds : ℕ → List Round
silent_rounds zero = overdue ∷ []
silent_rounds (suc n) = quiet ∷ silent_rounds n

abbrev pub pass_rounds : List Packet → List Round → List Round
pass_rounds [] rs = rs
pass_rounds (p ∷ ps) rs = quiet ∷ pass_rounds ps rs

abbrev no_bytes : List ℕ
no_bytes = []

drop-nothing : (n : ℕ) → drop n no_bytes ≡ []
drop-nothing zero = refl
drop-nothing (suc n) = refl

drop-sum : (a b c : ℕ) (xs : List ℕ) → c ≡ a + b → drop c xs ≡ drop b (drop a xs)
drop-sum zero b c xs h = let same : c ≡ b = omega arith in ap (λ n. drop n xs) same
drop-sum (suc a) b zero xs h = absurd (omega arith)
drop-sum (suc a) b (suc c) [] h = sym (drop-nothing b)
drop-sum (suc a) b (suc c) (x ∷ xs) h = drop-sum a b c xs (omega arith)

packets_of-send_pass :
    (msgid : ℤ) (flags : ℕ) (bytes : List ℕ)
    → length bytes < 2 ^ 31
    → packets_of msgid flags bytes ≡ send_pass (suc (length bytes)) msgid flags 0 bytes
unfolding packets_of
packets_of-send_pass msgid flags bytes h = rw (counted_bytes-small bytes h) refl

offset_of-small : (i : ℕ) → i * max_udp_msg_size < 2 ^ 31 → offset_of i ≡ pos (i * max_udp_msg_size)
unfolding offset_of
offset_of-small i h = to_int-small (i * max_udp_msg_size) h

module _ (dest : MsgKey) (bytes : List ℕ) (fits : length bytes + 1024 < 2 ^ 31) where
  waiting-returned :
      (n : ℕ) (s : Sender)
      → send_rounds dest true bytes (silent_rounds n) (waiting s) ≡ (returned (pos 0) s.table, [])
  unfolding send_rounds send_step wait_round
  waiting-returned zero s = refl
  waiting-returned (suc n) s = rw (waiting-returned n s) refl

  -- The variables at the packet `i`, where nothing has come back.
  abbrev at_packet : ℕ → ℤ → Table → Sender
  at_packet i next table = record {
    index = pos i;
    packet_id = pos i;
    packet_next_id = next;
    success = false;
    table = table;
  }

  abbrev rest_at : ℕ → List ℕ
  rest_at i = left_from i bytes

  rest-drop :
      (i : ℕ) → i * max_udp_msg_size < 2 ^ 31 → rest_at i ≡ drop (i * max_udp_msg_size) bytes
  rest-drop i h = rw (offset_of-small i h, counted_bytes-small bytes (omega (arith, fits))) refl

  -- Where some bytes are left, the next offset is an `int` too.
  next_offset :
      (i : ℕ)
      → i * max_udp_msg_size < 2 ^ 31
      → 1 ≤ length (rest_at i)
      → suc i * max_udp_msg_size < 2 ^ 31
  next_offset i h more =
      let left : 1 ≤ length (drop (i * max_udp_msg_size) bytes) = rw (rest-drop i h) at more in
      let size = length-drop (i * max_udp_msg_size) bytes in omega (arith, fits, left, size)

  further-rest :
      (i : ℕ)
      → i * max_udp_msg_size < 2 ^ 31
      → 1 ≤ length (rest_at i)
      → rest_at (suc i) ≡ drop max_udp_msg_size (rest_at i)
  further-rest i h more =
      rest-drop (suc i) (next_offset i h more)
      ∙ drop-sum (i * max_udp_msg_size) max_udp_msg_size (suc i * max_udp_msg_size) bytes
          (omega arith)
      ∙ ap (drop max_udp_msg_size) (sym (rest-drop i h))

  -- One more packet and what the rounds after it give.
  then_rounds : Progress × List Outgoing → Packet → Progress × List Outgoing
  then_rounds (last, more) p = (last, (dest, p) ∷ more)

  quiet-round :
      (i : ℕ) (table : Table) (rs : List Round)
      → send_rounds dest true bytes (quiet ∷ rs) (sending (at_packet i (pos (suc i)) table))
        ≡ then_rounds
            (send_rounds dest true bytes rs (
              settle dest true bytes
                (advance dest true bytes (rest_at i) (at_packet i (pos (suc i)) table))))
            (packet_at dest true bytes (rest_at i) (at_packet i (pos (suc i)) table))
  unfolding send_rounds send_step send_round then_rounds
  quiet-round i table rs = refl

  settle-ended :
      (s : Sender) (i : ℕ)
      → i * max_udp_msg_size < 2 ^ 31
      → s.index ≡ pos i
      → s.success ≡ false
      → length (rest_at i) ≡ 0
      → settle dest true bytes s ≡ waiting s
  settle-ended s i inside at_i unanswered none_left =
      let nothing : leb 1 (length (rest_at i)) ≡ false = ground arith in
      rw (at_i, offset_of-small i inside, rw (offset_of-small i inside) at nothing, unanswered) refl

  settle-further :
      (i : ℕ) (table : Table)
      → suc i * max_udp_msg_size < 2 ^ 31
      → leb (length (rest_at i)) max_udp_msg_size ≡ false
      → 1 ≤ length (rest_at (suc i))
      → settle dest true bytes
          (advance dest true bytes (rest_at i) (at_packet i (pos (suc i)) table))
        ≡ sending (at_packet (suc i) (pos (suc (suc i))) table)
  settle-further i table inside long left =
      let more : leb 1 (length (rest_at (suc i))) ≡ true = ground arith in
      rw (long, offset_of-small (suc i) inside, rw (offset_of-small (suc i) inside) at more) refl

  pass-returned :
      (fuel i n : ℕ) (table : Table)
      → i * max_udp_msg_size < 2 ^ 31
      → 1 ≤ length (rest_at i)
      → length (rest_at i) < fuel
      → send_rounds dest true bytes
          (pass_rounds (send_pass fuel dest.msgid 1 i (rest_at i)) (silent_rounds n))
          (sending (at_packet i (pos (suc i)) table))
        ≡ (returned (pos 0) table, addressed dest (send_pass fuel dest.msgid 1 i (rest_at i)))
  unfolding then_rounds
  pass-returned zero i n table inside more h = absurd (omega arith)
  pass-returned (suc fuel) i n table inside more h =
      let next = next_offset i inside more in
      let further = further-rest i inside more in
      elim (Bool-cases (leb (length (rest_at i)) max_udp_msg_size)) [
        | inl last ↦
            let (ended, whole) = last_round max_udp_msg_size (rest_at i) last in
            let no_more : length (rest_at (suc i)) ≡ 0 = rw further ended in
            let s = at_packet i (pos (suc i)) table in
            rw
              (
                send_pass-cons fuel dest.msgid 1 i (rest_at i) more,
                send_pass-empty fuel dest.msgid 1 (suc i) (drop max_udp_msg_size (rest_at i)) ended,
                quiet-round i table (silent_rounds n),
                settle-ended (advance dest true bytes (rest_at i) s) (suc i) next refl refl no_more,
                waiting-returned n (advance dest true bytes (rest_at i) s),
              )
              refl
        | inr long ↦
            let (left, few) =
              further_round fuel max_udp_msg_size (rest_at i) (omega arith) long h in
            let onwards =
              rw further at
                (pass-returned fuel (suc i) n table next (rw further left) (rw further few)) in
            let left_more : 1 ≤ length (rest_at (suc i)) = rw further left in
            rw
              (
                send_pass-cons fuel dest.msgid 1 i (rest_at i) more,
                quiet-round i table (
                    pass_rounds
                      (send_pass fuel dest.msgid 1 (suc i) (drop max_udp_msg_size (rest_at i)))
                      (silent_rounds n)),
                settle-further i table next long left_more,
                onwards,
              )
              refl
      ]

  -- Sending a message that is not empty and of fewer than 2 ^ 31 - 1024 bytes, with retries, over a
  -- network that is silent: after one round for each packet and some in which nothing comes, `send`
  -- returns 0 at its time limit. It has sent the packets of one pass, in order, each once, and its
  -- table is as it was.
  pub send-returns :
      (n : ℕ) (table : Table)
      → 1 ≤ length bytes
      → send_rounds dest true bytes
          (pass_rounds (packets_of dest.msgid 1 bytes) (silent_rounds n))
          (settle dest true bytes (begun table))
        ≡ (returned (pos 0) table, addressed dest (packets_of dest.msgid 1 bytes))
  send-returns n table more =
      let whole : rest_at 0 ≡ bytes = rest-drop 0 (omega arith) in
      let some_left : leb 1 (length (rest_at 0)) ≡ true = rw whole (ground arith) in
      let start : settle dest true bytes (begun table) ≡ sending (begun table) =
        rw (offset_of-small 0 (omega arith), rw (offset_of-small 0 (omega arith)) at some_left)
          refl in
      let passed =
        pass-returned (suc (length bytes)) 0 n table (omega arith) (rw whole more)
          (rw whole (omega arith)) in
      rw (packets_of-send_pass dest.msgid 1 bytes (omega (arith, fits)), start) (rw whole at passed)

-- ===== src/Wire/Udp/Send.antt =====
-- The packets that `UDP_socket::send` of socket.cpp makes of a message, one pass from the first
-- byte to the last, and what it is to be one of them.
use np_hw.Prelude.Ints.{to_int, to_int-small}
use np_hw.Prelude.{
  negsuc, take-whole, ◌^◌, length-drop, ℕ, zero, suc, ◌<◌, ◌≡◌, refl, true, List, [], ◌∷◌, ◌++◌,
  arith, length, take, drop, nat_eq, leb, if◌then◌else◌, ℤ, pos, take-append-drop,
}
use np_hw.Wire.Udp.Packet.{Packet}
use np_hw.Wire.Udp.Table.{packet_id_nonext}

abbrev pub max_udp_msg_size : ℕ
max_udp_msg_size = 1024

-- The bytes that `serial_len` counts, which is the size as an `int32_t`: none if it is negative.
abbrev counted_by : ℤ → List ℕ → List ℕ
counted_by (pos n) bytes = take n bytes
counted_by (negsuc n) bytes = []

unfoldable pub counted_bytes : List ℕ → List ℕ
unfolding to_int
counted_bytes bytes = counted_by (to_int (pos (length bytes))) bytes

pub counted_bytes-small : (bytes : List ℕ) → length bytes < 2 ^ 31 → counted_bytes bytes ≡ bytes
unfolding counted_bytes
counted_bytes-small bytes h =
    rw (to_int-small (length bytes) h, take-whole (length bytes) bytes (omega arith)) refl

-- The inner loop of `send` on the bytes from `index * MAX_UDP_MSG_SIZE` on, while no packet comes
-- back, with fuel for its rounds.
unfoldable pub send_pass : ℕ → ℤ → ℕ → ℕ → List ℕ → List Packet
send_pass zero msgid flags index rest = []
send_pass (suc fuel) msgid flags index rest =
    let more = send_pass fuel msgid flags (suc index) (drop max_udp_msg_size rest) in
    if leb 1 (length rest)
    then record {
      msgid = msgid;
      id = pos index;
      next_id = if leb (length rest) max_udp_msg_size then packet_id_nonext else pos (suc index);
      flags = flags;
      content = take max_udp_msg_size rest;
    }
      ∷ more
    else []

-- Each round takes at least one byte, so this is fuel enough. It is what the code does while the
-- product `MAX_UDP_MSG_SIZE * (index + 1)` is an `int`, that is for fewer than 2 ^ 31 - 1024 bytes.
unfoldable pub packets_of : ℤ → ℕ → List ℕ → List Packet
unfolding send_pass counted_bytes
packets_of msgid flags bytes =
    let counted = counted_bytes bytes in send_pass (suc (length counted)) msgid flags 0 counted

unfoldable pub contents : List Packet → List ℕ
contents [] = []
contents (p ∷ ps) = p.content ++ contents ps

contents-send_pass :
    (fuel : ℕ) (msgid : ℤ) (flags index : ℕ) (rest : List ℕ)
    → length rest < fuel
    → contents (send_pass fuel msgid flags index rest) ≡ rest
unfolding contents send_pass
contents-send_pass zero msgid flags index rest h = absurd (omega arith)
contents-send_pass (suc fuel) msgid flags index [] h = refl
contents-send_pass (suc fuel) msgid flags index (b ∷ rest) h =
    let some_left : leb 1 (length (b ∷ rest)) ≡ true = ground arith in
    let later : contents (send_pass fuel msgid flags (suc index) (drop max_udp_msg_size (b ∷ rest)))
        ≡ drop max_udp_msg_size (b ∷ rest) =
      contents-send_pass fuel msgid flags (suc index) (drop max_udp_msg_size (b ∷ rest))
        (omega (arith, length-drop max_udp_msg_size (b ∷ rest))) in
    rw (some_left, later, take-append-drop max_udp_msg_size (b ∷ rest))

-- The packets of one pass of `send` hold all bytes of the message, in order, if it is not too long.
pub contents-packets_of :
    (msgid : ℤ) (flags : ℕ) (bytes : List ℕ)
    → length bytes < 2 ^ 31
    → contents (packets_of msgid flags bytes) ≡ bytes
unfolding packets_of
contents-packets_of msgid flags bytes h =
    rw (counted_bytes-small bytes h)
      (contents-send_pass (suc (length bytes)) msgid flags 0 bytes (omega arith))

-- The id that follows that of the packet `i` of `n`.
abbrev pub next_after : ℕ → ℕ → ℤ
next_after n i = if nat_eq (suc i) n then packet_id_nonext else pos (suc i)

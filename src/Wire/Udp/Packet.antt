-- ===== src/Wire/Udp/Packet.antt =====
-- `encode_UDP_packet` and `decode_UDP_packet` of socket.cpp.
use mathlib.Core.List.{append_assoc}
use np_hw.Prelude.{
  ℕ, ◌+◌, ◌-◌, ◌%◌, ◌^◌, ◌≤◌, ◌<◌, ◌≡◌, refl, ap, sym, ◌∙◌, true, Option, none, some, List, ◌++◌, ℤ,
  pos, negsuc, arith, length, take, drop, ltb, leb, if◌then◌else◌, length-append, take-append_left,
  drop-append_left,
}
use np_hw.Prelude.Decimal.{IsInt}
use np_hw.Wire.Bytes.{le_bytes, of_le_bytes, length-le_bytes, of_le_bytes-le_bytes, range_of}

pub record Packet : Type 0 where
  pub msgid : ℤ
  pub id : ℤ
  pub next_id : ℤ
  pub flags : ℕ
  pub content : List ℕ

abbrev pub header_size : ℕ
header_size = 21

-- An `int32_t` as its bit pattern, and back.
unfoldable pub pattern_of : ℤ → ℕ
pattern_of (pos n) = n
pattern_of (negsuc n) = 4294967295 - n

unfoldable pub of_pattern : ℕ → ℤ
of_pattern w = if ltb w 2147483648 then pos w else negsuc (4294967295 - w)

of_pattern-pattern_of : (z : ℤ) → IsInt z → of_pattern (pattern_of z) ≡ z
unfolding pattern_of of_pattern
of_pattern-pattern_of (pos n) h = ground arith
of_pattern-pattern_of (negsuc n) h = ground arith

pattern_of-lt : (z : ℤ) → IsInt z → pattern_of z < 4294967296
unfolding pattern_of
pattern_of-lt (pos n) h = omega arith
pattern_of-lt (negsuc n) h = omega arith

abbrev pub int_bytes : ℤ → List ℕ
int_bytes z = le_bytes 4 (pattern_of z)

abbrev pub of_int_bytes : List ℕ → ℤ
of_int_bytes l = of_pattern (of_le_bytes l)

of_int_bytes-int_bytes : (z : ℤ) → IsInt z → of_int_bytes (int_bytes z) ≡ z
of_int_bytes-int_bytes z h =
    ap of_pattern
      (of_le_bytes-le_bytes 4 (pattern_of z) (unfold range_of in omega (arith, pattern_of-lt z h)))
    ∙ of_pattern-pattern_of z h

unfoldable pub encode_packet : Packet → List ℕ
unfolding pattern_of
encode_packet p =
    le_bytes 8 (header_size + length p.content)
    ++ (int_bytes p.msgid
        ++ (int_bytes p.id ++ (int_bytes p.next_id ++ (le_bytes 1 p.flags ++ p.content))))

-- What the header's fields and the bytes behind it make; `none` is a copy from behind the buffer.
-- The size that the packet states is believed, and one below the header's wraps around.
unfoldable pub unpack : List ℕ → List ℕ → List ℕ → List ℕ → List ℕ → List ℕ → Option Packet
unfolding of_pattern
unpack size msgid id next_id flags rest =
    let msg_size = (of_le_bytes size + 2 ^ 64 - header_size) % 2 ^ 64 in
    if leb msg_size (length rest)
    then some (record {
      msgid = of_int_bytes msgid;
      id = of_int_bytes id;
      next_id = of_int_bytes next_id;
      flags = of_le_bytes flags;
      content = take msg_size rest;
    })
    else none

-- `buffer` is the memory from `packet_in` on.
unfoldable pub decode_packet : List ℕ → Option Packet
unfolding unpack
decode_packet buffer =
    let l0 = drop 8 buffer in
    let l1 = drop 4 l0 in
    let l2 = drop 4 l1 in
    let l3 = drop 4 l2 in
    if leb header_size (length buffer)
    then unpack (take 8 buffer) (take 4 l0) (take 4 l1) (take 4 l2) (take 1 l3) (drop 1 l3)
    else none

-- A packet that `sendpacket` can send.
pub record IsPacket (p : Packet) : Type 0 where
  pub msgid_int : IsInt p.msgid
  pub id_int : IsInt p.id
  pub next_id_int : IsInt p.next_id
  pub flags_byte : p.flags < 256
  pub content_fits : length p.content ≤ 1024

take_le : (k n : ℕ) (rest : List ℕ) → take k (le_bytes k n ++ rest) ≡ le_bytes k n
take_le k n rest = take-append_left k (le_bytes k n) rest (sym (length-le_bytes k n))

drop_le : (k n : ℕ) (rest : List ℕ) → drop k (le_bytes k n ++ rest) ≡ rest
drop_le k n rest = drop-append_left k (le_bytes k n) rest (sym (length-le_bytes k n))

unpack_fields :
    (a b c d e buffer l0 l1 l2 l3 rest : List ℕ)
    → leb header_size (length buffer) ≡ true
    → take 8 buffer ≡ a
    → drop 8 buffer ≡ l0
    → take 4 l0 ≡ b
    → drop 4 l0 ≡ l1
    → take 4 l1 ≡ c
    → drop 4 l1 ≡ l2
    → take 4 l2 ≡ d
    → drop 4 l2 ≡ l3
    → take 1 l3 ≡ e
    → drop 1 l3 ≡ rest
    → decode_packet buffer ≡ unpack a b c d e rest
unfolding decode_packet
unpack_fields a b c d e buffer l0 l1 l2 l3 rest enough ta d0 tb d1 tc d2 td d3 te dr =
    rw (enough, ta, d0, tb, d1, tc, d2, td, d3, te, dr) refl

-- A buffer that begins with a header is taken apart at the header's fields.
decode_packet-append :
    (size msgid id next_id flags : ℕ) (rest : List ℕ)
    → decode_packet (
        le_bytes 8 size
        ++ (le_bytes 4 msgid
            ++ (le_bytes 4 id ++ (le_bytes 4 next_id ++ (le_bytes 1 flags ++ rest)))))
      ≡ unpack
          (le_bytes 8 size)
          (le_bytes 4 msgid)
          (le_bytes 4 id)
          (le_bytes 4 next_id)
          (le_bytes 1 flags)
          rest
decode_packet-append size msgid id next_id flags rest =
    let l3 = le_bytes 1 flags ++ rest in
    let l2 = le_bytes 4 next_id ++ l3 in
    let l1 = le_bytes 4 id ++ l2 in
    let l0 = le_bytes 4 msgid ++ l1 in
    let enough : leb header_size (length (le_bytes 8 size ++ l0)) ≡ true = ground (
      arith,
      length-append (le_bytes 8 size) l0,
      length-append (le_bytes 4 msgid) l1,
      length-append (le_bytes 4 id) l2,
      length-append (le_bytes 4 next_id) l3,
      length-append (le_bytes 1 flags) rest,
      length-le_bytes 8 size,
      length-le_bytes 4 msgid,
      length-le_bytes 4 id,
      length-le_bytes 4 next_id,
      length-le_bytes 1 flags,
    ) in
    unpack_fields _ _ _ _ _ (le_bytes 8 size ++ l0) l0 l1 l2 l3 rest enough (take_le 8 size l0)
      (drop_le 8 size l0) (take_le 4 msgid l1) (drop_le 4 msgid l1) (take_le 4 id l2)
      (drop_le 4 id l2) (take_le 4 next_id l3) (drop_le 4 next_id l3) (take_le 1 flags rest)
      (drop_le 1 flags rest)

encode_packet-append :
    (p : Packet) (garbage : List ℕ)
    → encode_packet p ++ garbage
      ≡ le_bytes 8 (header_size + length p.content)
        ++ (int_bytes p.msgid
            ++ (int_bytes p.id
                ++ (int_bytes p.next_id ++ (le_bytes 1 p.flags ++ (p.content ++ garbage)))))
unfolding encode_packet
encode_packet-append p garbage = simp append_assoc

unpack-packet :
    (p : Packet) (garbage : List ℕ)
    → IsPacket p
    → unpack
        (le_bytes 8 (header_size + length p.content))
        (int_bytes p.msgid)
        (int_bytes p.id)
        (int_bytes p.next_id)
        (le_bytes 1 p.flags)
        (p.content ++ garbage)
      ≡ some p
unfolding unpack
unpack-packet p garbage h =
    let stated : of_le_bytes (le_bytes 8 (header_size + length p.content))
        ≡ header_size + length p.content =
      of_le_bytes-le_bytes 8 _ (unfold range_of in omega (arith, h.content_fits)) in
    let size : (header_size + length p.content + 2 ^ 64 - header_size) % 2 ^ 64 ≡ length p.content =
      omega (arith, h.content_fits) in
    let fits : leb (length p.content) (length (p.content ++ garbage)) ≡ true =
      ground (arith, length-append p.content garbage) in
    let flag : of_le_bytes (le_bytes 1 p.flags) ≡ p.flags =
      of_le_bytes-le_bytes 1 p.flags (unfold range_of in omega (arith, h.flags_byte)) in
    let all : take (length p.content) (p.content ++ garbage) ≡ p.content =
      take-append_left (length p.content) p.content garbage refl in
    rw (stated, size, fits, all, flag)
      (ground (
        arith,
        of_int_bytes-int_bytes p.msgid h.msgid_int,
        of_int_bytes-int_bytes p.id h.id_int,
        of_int_bytes-int_bytes p.next_id h.next_id_int,
      ))

-- A packet whose numbers are `int`s, whose flags are a byte and whose content has at most 1024
-- bytes comes back from a buffer that begins with it, whatever stands behind it.
pub decode_packet-encode_packet :
    (p : Packet) (garbage : List ℕ)
    → IsPacket p
    → decode_packet (encode_packet p ++ garbage) ≡ some p
decode_packet-encode_packet p garbage h =
    ap decode_packet (encode_packet-append p garbage)
    ∙ decode_packet-append (header_size + length p.content) (pattern_of p.msgid) (pattern_of p.id)
        (pattern_of p.next_id) p.flags (p.content ++ garbage)
    ∙ unpack-packet p garbage h

-- ===== src/Tests/Wire.antt =====
-- The wire formats at concrete inputs.
use np_hw.Prelude.Ints.{to_int}
use np_hw.Prelude.{
  ◌+◌, ◌^◌, ◌<◌, true, refl, insert, ℕ, ◌≡◌, refl, none, some, List, [], ◌∷◌, ◌++◌, Str, pos, Map,
  str_key, lookup, length, take, int_eq, arith,
}
use np_hw.Wire.Package.{Package, empty_package, FieldsAreText, HasDistinctKeys}
use np_hw.Wire.Bytes.{le_bytes}
use np_hw.Wire.Codec.{serialize, deserialize, packet_size}
use np_hw.Wire.Codec.RoundTrip.{
  length-serialize, deserialize-serialize, deserialize-serialize_no_fields, or_else,
}
use np_hw.Wire.Udp.Sending.{send_rounds, settle, begun, returned, addressed}
use np_hw.Wire.Udp.Returning.{silent_rounds, pass_rounds, send-returns}
use np_hw.Wire.Udp.Receiving.{expires, completes, recv_round, OnlyComplete}
use np_hw.Wire.Udp.Packet.{
  Packet, encode_packet, decode_packet, IsPacket, decode_packet-encode_packet,
}
use np_hw.Wire.Udp.Table.{
  Table, insert_check, after_arrivals, MsgKey, msg_key, msg_eq, Unfinished, packet_id_nonext,
  Arrival, after_arrivals,
}
use np_hw.Wire.Udp.Send.{send_pass, packets_of, counted_bytes}
use np_hw.Wire.Udp.Arrivals.{packets_under}
use np_hw.Wire.Delivery.{recv_round-after_arrivals}

-- The fields `k` and `kn`, with a payload of three bytes, one of them a separator.
abbrev later_fields : Map Str Str
later_fields = (107 ∷ (110 ∷ []), 55 ∷ []) ∷ []

abbrev small_package : Package
small_package = record {
  payload = 1 ∷ (253 ∷ (3 ∷ []));
  fields = (107 ∷ [], 118 ∷ []) ∷ later_fields;
}

length-serialize_example : length (serialize small_package) ≡ packet_size small_package
length-serialize_example = length-serialize small_package (unfold length in omega arith)

small_package-text : FieldsAreText small_package.fields
small_package-text = (
  (omega arith, tt),
  (omega arith, tt),
  ((omega arith, (omega arith, tt)), (omega arith, tt), tt),
)

small_package-distinct : HasDistinctKeys small_package.fields
small_package-distinct = (((λ e. cc), tt), (tt, tt))

deserialize-serialize_example :
    (q : Package) × (deserialize (serialize small_package) empty_package ≡ some q)
    × (q.payload ≡ small_package.payload)
    × ((j : Str)
        → lookup j q.fields
          ≡ or_else (lookup j small_package.fields) (lookup j empty_package.fields))
deserialize-serialize_example =
    deserialize-serialize (107 ∷ []) (118 ∷ []) later_fields (1 ∷ (253 ∷ (3 ∷ []))) empty_package
      small_package-text small_package-distinct (unfold length in omega arith)

deserialize-serialize_no_fields_example :
    deserialize (serialize (record { payload = 65 ∷ (66 ∷ []); fields = [] })) empty_package ≡ none
deserialize-serialize_no_fields_example =
    deserialize-serialize_no_fields (65 ∷ (66 ∷ [])) empty_package (omega arith, (omega arith, tt))

-- The second and last packet of the message 7.
abbrev last_packet : Packet
last_packet = record {
  msgid = pos 7;
  id = pos 1;
  next_id = packet_id_nonext;
  flags = 1;
  content = 5 ∷ (6 ∷ []);
}

last_packet-IsPacket : IsPacket last_packet
unfolding length
last_packet-IsPacket = record {
  msgid_int = omega arith;
  id_int = omega arith;
  next_id_int = omega arith;
  flags_byte = omega arith;
  content_fits = omega arith;
}

decode_packet-encode_packet_example :
    decode_packet (encode_packet last_packet ++ 9 ∷ []) ≡ some last_packet
decode_packet-encode_packet_example =
    decode_packet-encode_packet last_packet (9 ∷ []) last_packet-IsPacket

-- The message 7 of the sender 9:80, and a packet of another message that arrives before it.
abbrev our_key : MsgKey
our_key = record { addr = 9; port = 80; msgid = pos 7 }

abbrev stray : Arrival
stray = record {
  key = record { addr = 9; port = 80; msgid = pos 6 };
  packet = last_packet;
  now = 1;
}

abbrev arrived_with : Packet → List Arrival
arrived_with p = stray ∷ (record { key = our_key; packet = p; now = 2 } ∷ [])

abbrev whole_message : List ℕ → Packet
whole_message bytes = record {
  msgid = pos 7;
  id = pos 0;
  next_id = packet_id_nonext;
  flags = 1;
  content = bytes;
}

our_key-absent : lookup {V = Unfinished} our_key [] ≡ none
unfolding lookup
our_key-absent = refl

our_serialized :
    packets_under our_key (arrived_with (whole_message (serialize small_package)))
    ≡ packets_of (pos 7) 1 (serialize small_package)
unfolding packets_under packets_of send_pass counted_bytes to_int length take msg_eq int_eq
    serialize le_bytes
our_serialized = refl

our_fits : length (serialize small_package) + 1024 < 2 ^ 31
unfolding serialize le_bytes length
our_fits = omega arith

our_table-OnlyComplete :
    OnlyComplete our_key
      (after_arrivals (arrived_with (whole_message (serialize small_package))) [])
unfolding after_arrivals lookup insert insert_check msg_eq int_eq serialize le_bytes
our_table-OnlyComplete = ((λ e. refl), tt)

recv_round-after_arrivals_example :
    (q : Package) × (left : Table) × ((recv_round true 9 expires empty_package
        (record { next_id = pos 0; flags = 0 })
        (after_arrivals (arrived_with (whole_message (serialize small_package))) [])).0
      ≡ completes our_key (some q) left)
    × (q.payload ≡ small_package.payload)
    × ((j : Str)
        → lookup j q.fields
          ≡ or_else (lookup j small_package.fields) (lookup j empty_package.fields))
recv_round-after_arrivals_example =
    recv_round-after_arrivals (107 ∷ []) (118 ∷ []) later_fields (1 ∷ (253 ∷ (3 ∷ [])))
      empty_package our_key 1 (arrived_with (whole_message (serialize small_package))) [] true 9
      expires (record { next_id = pos 0; flags = 0 }) small_package-text small_package-distinct
      (unfold length in omega arith) our_fits our_key-absent our_serialized our_table-OnlyComplete

abbrev two_bytes : List ℕ
two_bytes = 4 ∷ (5 ∷ [])

send-returns_example :
    send_rounds our_key true two_bytes
      (pass_rounds (packets_of our_key.msgid 1 two_bytes) (silent_rounds 2))
      (settle our_key true two_bytes (begun []))
    ≡ (returned (pos 0) [], addressed our_key (packets_of our_key.msgid 1 two_bytes))
send-returns_example = send-returns our_key two_bytes (omega arith) 2 [] (omega arith)

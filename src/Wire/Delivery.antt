-- ===== src/Wire/Delivery.antt =====
-- A package from `Serialize` on one machine, through UDP packets, to `Deserialize` on another.
use np_hw.Prelude.{
  ◌+◌, ℕ, ◌^◌, ◌≤◌, ◌<◌, ◌≡◌, refl, Bool, ap, ◌∙◌, none, some, List, ◌∷◌, Str, Map, str_key, lookup,
  length, arith,
}
use np_hw.Wire.Package.{Package, FieldsAreText, HasDistinctKeys}
use np_hw.Wire.Codec.{serialize, deserialize, packet_size}
use np_hw.Wire.Codec.RoundTrip.{length-serialize, deserialize-serialize, or_else}
use np_hw.Wire.Udp.Table.{
  MsgKey, msg_key, Unfinished, Table, packet_id_nonext, Arrival, after_arrivals,
}
use np_hw.Wire.Udp.Send.{packets_of}
use np_hw.Wire.Udp.Arrivals.{packets_under}
use np_hw.Wire.Udp.Receiving.{
  Polled, Locals, completes, recv_scan, recv_round, OnlyComplete, recv_scan-found,
}
use np_hw.Wire.Udp.Reassembly.{after_arrivals-packets_of}

length-serialize_positive : (p : Package) → length p.payload < 2 ^ 32 → 1 ≤ length (serialize p)
unfolding packet_size
length-serialize_positive p h = omega (arith, length-serialize p h)

-- Let a package with at least one field, whose texts hold no separator, whose keys are distinct,
-- whose payload is smaller than 4 GB and that is serialized to fewer than 2 ^ 31 - 1024 bytes, be
-- sent in one pass as packets under a number that the receiver has no entry for. If these packets
-- arrive in order, among any packets of other messages, the receiver has a complete entry at the
-- end, from which `Deserialize` reads the payload and, at every key, the sent value, or what the
-- target held where nothing was sent.
pub deserialize-after_arrivals :
    (k v : Str) (more : Map Str Str) (payload : List ℕ) (ud : Package) (key : MsgKey) (flags : ℕ)
    (arrived : List Arrival) (m : Table)
    → FieldsAreText ((k, v) ∷ more)
    → HasDistinctKeys ((k, v) ∷ more)
    → length payload < 2 ^ 32
    → length (serialize (record { payload = payload; fields = (k, v) ∷ more })) + 1024 < 2 ^ 31
    → lookup key m ≡ none
    → packets_under key arrived
      ≡ packets_of key.msgid flags
          (serialize (record { payload = payload; fields = (k, v) ∷ more }))
    → (u : Unfinished) × (q : Package) × (lookup key (after_arrivals arrived m) ≡ some u)
      × (u.next_id ≡ packet_id_nonext)
      × (deserialize u.content ud ≡ some q)
      × (q.payload ≡ payload)
      × ((j : Str) → lookup j q.fields ≡ or_else (lookup j ((k, v) ∷ more)) (lookup j ud.fields))
deserialize-after_arrivals k v more payload ud key flags arrived m text distinct small fits absent
      e =
    let p : Package = record { payload = payload; fields = (k, v) ∷ more } in
    let (u, there, complete, content) =
      after_arrivals-packets_of key flags (serialize p) arrived m
        (length-serialize_positive p small) fits absent e in
    let (q, read, whole, fields) = deserialize-serialize k v more payload ud text distinct small in
    (u, q, there, complete, ap (λ bytes. deserialize bytes ud) content ∙ read, whole, fields)

-- Let a package with at least one field, whose texts hold no separator, whose keys are distinct,
-- whose payload is smaller than 4 GB and that is serialized to fewer than 2 ^ 31 - 1024 bytes, be
-- sent in one pass as packets under a number that the receiver has no entry for, and let these
-- packets arrive in order, among any packets of other messages, none of which is complete at the
-- end. Then the next round of `recv`, whenever it comes and whatever its variables hold, ends
-- with the sender's address and a package with the payload and, at every key, the sent value, or
-- what the target held where nothing was sent.
pub recv_round-after_arrivals :
    (k v : Str) (more : Map Str Str) (payload : List ℕ) (ud : Package) (key : MsgKey) (flags : ℕ)
    (arrived : List Arrival) (m : Table) (retry : Bool) (now : ℕ) (polled : Polled)
    (locals : Locals)
    → FieldsAreText ((k, v) ∷ more)
    → HasDistinctKeys ((k, v) ∷ more)
    → length payload < 2 ^ 32
    → length (serialize (record { payload = payload; fields = (k, v) ∷ more })) + 1024 < 2 ^ 31
    → lookup key m ≡ none
    → packets_under key arrived
      ≡ packets_of key.msgid flags
          (serialize (record { payload = payload; fields = (k, v) ∷ more }))
    → OnlyComplete key (after_arrivals arrived m)
    → (q : Package) × (left : Table) × ((recv_round retry now polled ud locals
          (after_arrivals arrived m)).0
        ≡ completes key (some q) left)
      × (q.payload ≡ payload)
      × ((j : Str) → lookup j q.fields ≡ or_else (lookup j ((k, v) ∷ more)) (lookup j ud.fields))
unfolding recv_round
recv_round-after_arrivals k v more payload ud key flags arrived m retry now polled locals text
      distinct small fits absent e only =
    let (u, q, there, complete, read, whole, fields) =
      deserialize-after_arrivals k v more payload ud key flags arrived m text distinct small fits
        absent e in
    let table = after_arrivals arrived m in
    let found = recv_scan-found now key u table there complete only in
    (q, (recv_scan now table).table, rw (recv_round, found, read) refl, whole, fields)

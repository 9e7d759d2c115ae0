-- ===== src/Wire/Codec.antt =====
-- `Serialize` and `Deserialize` of socket.cpp.
pub mod Fields
pub mod RoundTrip
use np_hw.Prelude.{
  ℕ, suc, ◌+◌, ◌%◌, ◌^◌, Bool, true, false, ◌||◌, Option, none, some, List, [], ◌∷◌, ◌++◌, Str, Map,
  str_key, insert, length, take, drop, nat_eq, leb, if◌then◌else◌,
}
use np_hw.Wire.Bytes.{le_bytes, of_le_bytes}
use np_hw.Wire.Package.{Package, key_val_sep, fields_sep, field_payload_sep}

-- The first loop of `Serialize`: the bytes that the fields take.
unfoldable pub fields_size : Map Str Str → ℕ
fields_size [] = 0
fields_size ((k, v) ∷ m) = length k + 1 + length v + 1 + fields_size m

-- The size of the allocated buffer, which `Serialize` returns. The payload's size passes through a
-- `uint32_t`.
unfoldable pub packet_size : Package → ℕ
unfolding fields_size
packet_size p = 8 + fields_size p.fields + length p.payload % 2 ^ 32

-- The second loop: each key and each value, with the separator behind it.
unfoldable pub write_fields : Map Str Str → List ℕ
write_fields [] = []
write_fields ((k, v) ∷ m) = k ++ key_val_sep ∷ v ++ fields_sep ∷ write_fields m

-- `*(memp - 1) = c`
unfoldable pub overwrite_last : ℕ → List ℕ → List ℕ
overwrite_last c [] = []
overwrite_last c (b ∷ []) = c ∷ []
overwrite_last c (b ∷ (d ∷ bs)) = b ∷ overwrite_last c (d ∷ bs)

unfoldable pub write_header : Package → List ℕ
unfolding fields_size
write_header p = le_bytes 4 (fields_size p.fields) ++ le_bytes 4 (length p.payload)

-- The bytes that `Serialize` writes.
unfoldable pub serialize : Package → List ℕ
unfolding write_fields overwrite_last write_header
serialize p =
    overwrite_last field_payload_sep (write_header p ++ write_fields p.fields) ++ p.payload

-- The variables of the loop of `Deserialize`.
pub record Reader : Type 0 where
  pub val : Bool
  pub key_s : Str
  pub val_s : Str
  pub fields : Map Str Str

abbrev pub start : Map Str Str → Reader
start m = record { val = false; key_s = []; val_s = []; fields = m }

-- One round on the byte `c`.
unfoldable pub read_byte : ℕ → Reader → Reader
read_byte c r =
    if nat_eq c fields_sep || nat_eq c field_payload_sep
    then start (insert r.key_s r.val_s r.fields)
    else (if nat_eq c key_val_sep
        then record r { val = true }
        else (if r.val
            then record r { val_s = r.val_s ++ c ∷ [] }
            else record r { key_s = r.key_s ++ c ∷ [] }))

-- The loop. It ends behind the last field, and `none` is a read past the end of the buffer.
unfoldable pub read_fields : Reader → List ℕ → Option (Map Str Str × List ℕ)
unfolding read_byte
read_fields r [] = none
read_fields r (c ∷ rest) =
    let more = read_fields (read_byte c r) rest in
    if nat_eq c field_payload_sep then some ((read_byte c r).fields, rest) else more

-- `payload.assign(data, data + payload_bytes)`
unfoldable pub read_payload : ℕ → Map Str Str × List ℕ → Option Package
read_payload n (m, rest) =
    if leb n (length rest) then some (record { payload = take n rest; fields = m }) else none

then_payload : ℕ → Option (Map Str Str × List ℕ) → Option Package
unfolding read_payload
then_payload n none = none
then_payload n (some found) = read_payload n found

-- `Deserialize` into the package `ud`, from a buffer that holds `input`; `none` is a read past its
-- end.
unfoldable pub deserialize : List ℕ → Package → Option Package
unfolding read_fields then_payload
deserialize input ud =
    let payload_bytes = of_le_bytes (take 4 (drop 4 input)) in
    if leb 8 (length input)
    then then_payload payload_bytes (read_fields (start ud.fields) (drop 8 input))
    else none

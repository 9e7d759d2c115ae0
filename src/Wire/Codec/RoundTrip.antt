-- ===== src/Wire/Codec/RoundTrip.antt =====
-- `Deserialize` of socket.cpp after `Serialize`.
use mathlib.Core.List.{append_assoc, append-nil}
use np_hw.Prelude.{
  ℕ, suc, ◌/◌, ◌%◌, ◌^◌, ◌<◌, ◌≡◌, refl, ap, ap₂, sym, ◌∙◌, true, Option, none, some, List, [], ◌∷◌,
  ◌++◌, Str, Map, str_key, str_eq, str_eq_iff, lookup, insert, lookup-insert, length, take, drop,
  arith, leb, if◌then◌else◌, length-append, take-append_left, drop-append_left,
}
use np_hw.Wire.Bytes.{le_bytes, of_le_bytes, length-le_bytes, of_le_bytes-le_bytes, range_of}
use np_hw.Wire.Package.{
  Package, key_val_sep, fields_sep, field_payload_sep, IsText, FieldsAreText, IsFresh,
  HasDistinctKeys,
}
use np_hw.Wire.Codec.{
  fields_size, packet_size, write_fields, overwrite_last, write_header, serialize, start,
  read_fields, then_payload, deserialize,
}
use np_hw.Wire.Codec.Fields.{
  overwrite_last-write_fields, read_key, insert_all, read_fields-write_fields,
}

abbrev pub or_else : Option Str → Option Str → Option Str
or_else (some v) o = some v
or_else none o = o

lookup-IsFresh : (k : Str) (m : Map Str Str) → IsFresh k m → lookup k m ≡ none
unfolding lookup
lookup-IsFresh k [] h = refl
lookup-IsFresh k ((j, v) ∷ m) h = ground (arith, lookup-IsFresh k m h.1, str_eq_iff j k)

lookup-cons :
    (j k v : Str) (m : Map Str Str)
    → lookup j ((k, v) ∷ m) ≡ (if str_eq k j then some v else lookup j m)
unfolding lookup
lookup-cons j k v m = refl

lookup-insert_all :
    (j : Str) (more m : Map Str Str)
    → HasDistinctKeys more
    → lookup j (insert_all more m) ≡ or_else (lookup j more) (lookup j m)
unfolding insert_all
lookup-insert_all j [] m h = unfold lookup in refl
lookup-insert_all j ((k, v) ∷ more) m h = ground (
  arith,
  lookup-insert_all j more (insert k v m) h.1,
  lookup-insert k j v m,
  lookup-cons j k v more,
  lookup-IsFresh k more h.0,
  str_eq_iff k j,
)

length-write_fields : (m : Map Str Str) → length (write_fields m) ≡ fields_size m
unfolding write_fields fields_size
length-write_fields [] = refl
length-write_fields ((k, v) ∷ m) = omega (
  arith,
  length-append (k ++ key_val_sep ∷ v) (fields_sep ∷ write_fields m),
  length-append k (key_val_sep ∷ v),
  length-write_fields m,
)

length-overwrite_last : (c : ℕ) (l : List ℕ) → length (overwrite_last c l) ≡ length l
unfolding overwrite_last
length-overwrite_last c [] = refl
length-overwrite_last c (b ∷ []) = refl
length-overwrite_last c (b ∷ (d ∷ bs)) = ap suc (length-overwrite_last c (d ∷ bs))

length-write_header : (p : Package) → length (write_header p) ≡ 8
unfolding write_header
length-write_header p = omega (
  arith,
  length-append (le_bytes 4 (fields_size p.fields)) (le_bytes 4 (length p.payload)),
  length-le_bytes 4 (fields_size p.fields),
  length-le_bytes 4 (length p.payload),
)

-- `Serialize` writes exactly as many bytes as it allocates and returns, if the payload is
-- smaller than 4 GB.
pub length-serialize :
    (p : Package) → length p.payload < 2 ^ 32 → length (serialize p) ≡ packet_size p
unfolding serialize packet_size
length-serialize p h =
    let front = write_header p ++ write_fields p.fields in
    omega (
      arith,
      length-append (overwrite_last field_payload_sep front) p.payload,
      length-overwrite_last field_payload_sep front,
      length-append (write_header p) (write_fields p.fields),
      length-write_header p,
      length-write_fields p.fields,
    )

-- The payload is all that follows the fields.
read_whole :
    (payload : List ℕ) (m : Map Str Str)
    → then_payload (length payload) (some (m, payload))
      ≡ some (record { payload = payload; fields = m })
unfolding then_payload
read_whole payload m =
    let longer : take (length payload) (payload ++ []) ≡ payload =
      take-append_left (length payload) payload [] refl in
    let all : take (length payload) payload ≡ payload =
      ap (take (length payload)) (sym (append-nil payload)) ∙ longer in
    let fits : leb (length payload) (length payload) ≡ true = ground arith in rw (fits, all) refl

deserialize-append :
    (a b body : List ℕ) (ud : Package)
    → length a ≡ 4
    → length b ≡ 4
    → deserialize (a ++ (b ++ body)) ud
      ≡ then_payload (of_le_bytes b) (read_fields (start ud.fields) body)
unfolding deserialize
deserialize-append a b body ud ha hb =
    let both = length-append a b in
    let whole = length-append (a ++ b) body in
    let regroup = append_assoc a b body in
    let enough : leb 8 (length (a ++ (b ++ body))) ≡ true = ground (arith, whole, both, regroup) in
    let sizes : take 4 (drop 4 (a ++ (b ++ body))) ≡ b =
      ap (take 4) (drop-append_left 4 a (b ++ body) (omega arith))
      ∙ take-append_left 4 b body (omega arith) in
    let content : drop 8 (a ++ (b ++ body)) ≡ body =
      ap (drop 8) (sym regroup) ∙ drop-append_left 8 (a ++ b) body (omega (arith, both)) in
    rw (enough, sizes, content) refl

serialize-eq :
    (k v : Str) (more : Map Str Str) (payload : List ℕ)
    → serialize (record { payload = payload; fields = (k, v) ∷ more })
      ≡ le_bytes 4 (fields_size ((k, v) ∷ more))
        ++ (le_bytes 4 (length payload)
            ++ (overwrite_last field_payload_sep (write_fields ((k, v) ∷ more)) ++ payload))
unfolding serialize
serialize-eq k v more payload =
    let sizes = le_bytes 4 (fields_size ((k, v) ∷ more)) ++ le_bytes 4 (length payload) in
    ap (λ l. l ++ payload) (overwrite_last-write_fields field_payload_sep sizes k v more)
    ∙ simp append_assoc

-- A package with at least one field, whose texts hold no separator, whose keys are distinct and
-- whose payload is smaller than 4 GB, comes back: `Deserialize` stays in the buffer, and yields
-- the payload and, at every key, the sent value, or what the target held where nothing was
-- sent.
pub deserialize-serialize :
    (k v : Str) (more : Map Str Str) (payload : List ℕ) (ud : Package)
    → FieldsAreText ((k, v) ∷ more)
    → HasDistinctKeys ((k, v) ∷ more)
    → length payload < 2 ^ 32
    → (q : Package) × (deserialize
          (serialize (record { payload = payload; fields = (k, v) ∷ more }))
          ud
        ≡ some q)
      × (q.payload ≡ payload)
      × ((j : Str) → lookup j q.fields ≡ or_else (lookup j ((k, v) ∷ more)) (lookup j ud.fields))
deserialize-serialize k v more payload ud text distinct small = (
  record { payload = payload; fields = insert_all ((k, v) ∷ more) ud.fields },
  ap (λ l. deserialize l ud) (serialize-eq k v more payload)
      ∙ deserialize-append (le_bytes 4 (fields_size ((k, v) ∷ more))) (le_bytes 4 (length payload))
          _ ud (length-le_bytes 4 _) (length-le_bytes 4 (length payload))
      ∙ ap₂ then_payload (of_le_bytes-le_bytes 4 (length payload) (unfold range_of in small))
          (read_fields-write_fields k v more ud.fields payload text)
      ∙ read_whole payload (insert_all ((k, v) ∷ more) ud.fields),
  refl,
  λ j. lookup-insert_all j ((k, v) ∷ more) ud.fields distinct,
)

-- A package without fields, whose payload holds no separator, does not come back: on the bytes
-- that `Serialize` writes `Deserialize` reads past the end of the buffer.
pub deserialize-serialize_no_fields :
    (payload : Str) (ud : Package)
    → IsText payload
    → deserialize (serialize (record { payload = payload; fields = [] })) ud ≡ none
deserialize-serialize_no_fields payload ud text =
    let n = length payload in
    let b = (n % 256) ∷ ((n / 256 % 256) ∷ ((n / 256 / 256 % 256) ∷ (field_payload_sep ∷ []))) in
    let opened : serialize (record { payload = payload; fields = [] })
        ≡ (0 ∷ (0 ∷ (0 ∷ (0 ∷ [])))) ++ (b ++ payload) =
      unfold serialize le_bytes fields_size in refl in
    let past_end : read_fields (start ud.fields) (payload ++ []) ≡ none =
      read_key payload [] [] ud.fields [] text ∙ (unfold read_fields in refl) in
    ap (λ l. deserialize l ud) opened
    ∙ deserialize-append (0 ∷ (0 ∷ (0 ∷ (0 ∷ [])))) b payload ud refl refl
    ∙ ap (then_payload (of_le_bytes b)) (rw append-nil at past_end)
    ∙ (unfold then_payload in refl)

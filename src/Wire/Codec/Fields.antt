-- ===== src/Wire/Codec/Fields.antt =====
-- The fields of a package, from `Serialize` of socket.cpp to the loop of `Deserialize`.
use mathlib.Core.List.{append_assoc, append-nil}
use np_hw.Prelude.{
  ℕ, ◌<◌, ◌≡◌, refl, ap, sym, ◌∙◌, true, false, some, List, [], ◌∷◌, ◌++◌, Str, Map, str_key,
  insert, arith, if◌then◌else◌,
}
use np_hw.Wire.Package.{key_val_sep, fields_sep, field_payload_sep, IsText, FieldsAreText}
use np_hw.Wire.Codec.{write_fields, overwrite_last, Reader, start, read_byte, read_fields}

overwrite_last-append :
    (c : ℕ) (xs : List ℕ) (y : ℕ) (ys : List ℕ)
    → overwrite_last c (xs ++ y ∷ ys) ≡ xs ++ overwrite_last c (y ∷ ys)
unfolding overwrite_last
overwrite_last-append c [] y ys = refl
overwrite_last-append c (x ∷ []) y ys = refl
overwrite_last-append c (x ∷ (z ∷ xs)) y ys = ap (◌∷◌ x) (overwrite_last-append c (z ∷ xs) y ys)

-- The last separator of at least one field is the one that is overwritten.
pub overwrite_last-write_fields :
    (c : ℕ) (xs : List ℕ) (k v : Str) (m : Map Str Str)
    → overwrite_last c (xs ++ write_fields ((k, v) ∷ m))
      ≡ xs ++ overwrite_last c (write_fields ((k, v) ∷ m))
unfolding write_fields
overwrite_last-write_fields c xs k v m =
    let front = k ++ key_val_sep ∷ v in
    ap (overwrite_last c) (sym (append_assoc xs front (fields_sep ∷ write_fields m)))
    ∙ overwrite_last-append c (xs ++ front) fields_sep (write_fields m)
    ∙ append_assoc xs front (overwrite_last c (fields_sep ∷ write_fields m))
    ∙ ap (◌++◌ xs) (sym (overwrite_last-append c front fields_sep (write_fields m)))

-- A byte of text is added to the key or to the value.
read_fields-text :
    (c : ℕ) (r : Reader) (rest : List ℕ)
    → c < 253
    → read_fields r (c ∷ rest)
      ≡ read_fields
          (if r.val
            then record r { val_s = r.val_s ++ c ∷ [] }
            else record r { key_s = r.key_s ++ c ∷ [] })
          rest
unfolding read_fields read_byte
read_fields-text c r rest h = ground arith

-- The loop runs through a key, and through a value.
pub read_key :
    (w key_s val_s : Str) (m : Map Str Str) (rest : List ℕ)
    → IsText w
    → read_fields (record { val = false; key_s = key_s; val_s = val_s; fields = m }) (w ++ rest)
      ≡ read_fields (record { val = false; key_s = key_s ++ w; val_s = val_s; fields = m }) rest
read_key [] key_s val_s m rest h = rw append-nil refl
read_key (c ∷ w) key_s val_s m rest h =
    read_fields-text c _ (w ++ rest) h.0
    ∙ read_key w (key_s ++ c ∷ []) val_s m rest h.1
    ∙ rw append_assoc refl

read_val :
    (w key_s val_s : Str) (m : Map Str Str) (rest : List ℕ)
    → IsText w
    → read_fields (record { val = true; key_s = key_s; val_s = val_s; fields = m }) (w ++ rest)
      ≡ read_fields (record { val = true; key_s = key_s; val_s = val_s ++ w; fields = m }) rest
read_val [] key_s val_s m rest h = rw append-nil refl
read_val (c ∷ w) key_s val_s m rest h =
    read_fields-text c _ (w ++ rest) h.0
    ∙ read_val w key_s (val_s ++ c ∷ []) m rest h.1
    ∙ rw append_assoc refl

at_key_val_sep :
    (k : Str) (m : Map Str Str) (rest : List ℕ)
    → read_fields (record { val = false; key_s = k; val_s = []; fields = m }) (key_val_sep ∷ rest)
      ≡ read_fields (record { val = true; key_s = k; val_s = []; fields = m }) rest
unfolding read_fields read_byte
at_key_val_sep k m rest = refl

at_fields_sep :
    (k v : Str) (m : Map Str Str) (rest : List ℕ)
    → read_fields (record { val = true; key_s = k; val_s = v; fields = m }) (fields_sep ∷ rest)
      ≡ read_fields (start (insert k v m)) rest
unfolding read_fields read_byte
at_fields_sep k v m rest = refl

at_payload_sep :
    (k v : Str) (m : Map Str Str) (rest : List ℕ)
    → read_fields
        (record { val = true; key_s = k; val_s = v; fields = m })
        (field_payload_sep ∷ rest)
      ≡ some (insert k v m, rest)
unfolding read_fields read_byte
at_payload_sep k v m rest = refl

-- One field, up to the separator behind it.
read_field :
    (k v : Str) (m : Map Str Str) (rest : List ℕ)
    → IsText k
    → IsText v
    → read_fields (start m) ((k ++ key_val_sep ∷ v) ++ rest)
      ≡ read_fields (record { val = true; key_s = k; val_s = v; fields = m }) rest
read_field k v m rest hk hv =
    ap (read_fields (start m)) (append_assoc k (key_val_sep ∷ v) rest)
    ∙ read_key k [] [] m (key_val_sep ∷ (v ++ rest)) hk
    ∙ at_key_val_sep k m (v ++ rest)
    ∙ read_val v k [] m rest hv

unfoldable pub insert_all : Map Str Str → Map Str Str → Map Str Str
insert_all [] m = m
insert_all ((k, v) ∷ more) m = insert_all more (insert k v m)

overwritten_one :
    (k v : Str) (rest : List ℕ)
    → overwrite_last field_payload_sep (write_fields ((k, v) ∷ [])) ++ rest
      ≡ (k ++ key_val_sep ∷ v) ++ field_payload_sep ∷ rest
unfolding write_fields overwrite_last
overwritten_one k v rest =
    ap (λ l. l ++ rest)
      (overwrite_last-append field_payload_sep (k ++ key_val_sep ∷ v) fields_sep [])
    ∙ append_assoc (k ++ key_val_sep ∷ v) (field_payload_sep ∷ []) rest

overwritten_more :
    (k v j w : Str) (m : Map Str Str) (rest : List ℕ)
    → overwrite_last field_payload_sep (write_fields ((k, v) ∷ ((j, w) ∷ m))) ++ rest
      ≡ (k ++ key_val_sep ∷ v)
        ++ fields_sep ∷ (overwrite_last field_payload_sep (write_fields ((j, w) ∷ m)) ++ rest)
overwritten_more k v j w m rest =
    let front = k ++ key_val_sep ∷ v in
    let tail = write_fields ((j, w) ∷ m) in
    let opened : write_fields ((k, v) ∷ ((j, w) ∷ m)) ≡ front ++ fields_sep ∷ tail =
      unfold write_fields in refl in
    ap (λ l. overwrite_last field_payload_sep l ++ rest) opened
    ∙ ap (λ l. l ++ rest)
        (overwrite_last-append field_payload_sep front fields_sep tail
          ∙ ap (◌++◌ front) (overwrite_last-write_fields field_payload_sep (fields_sep ∷ []) j w m))
    ∙ append_assoc front (fields_sep ∷ overwrite_last field_payload_sep tail) rest

pub read_fields-write_fields :
    (k v : Str) (more m : Map Str Str) (rest : List ℕ)
    → FieldsAreText ((k, v) ∷ more)
    → read_fields
        (start m)
        (overwrite_last field_payload_sep (write_fields ((k, v) ∷ more)) ++ rest)
      ≡ some (insert_all ((k, v) ∷ more) m, rest)
unfolding insert_all
read_fields-write_fields k v [] m rest h =
    ap (read_fields (start m)) (overwritten_one k v rest)
    ∙ read_field k v m (field_payload_sep ∷ rest) h.0 h.1
    ∙ at_payload_sep k v m rest
read_fields-write_fields k v ((j, w) ∷ more) m rest h =
    ap (read_fields (start m)) (overwritten_more k v j w more rest)
    ∙ read_field k v m _ h.0 h.1
    ∙ at_fields_sep k v m _
    ∙ read_fields-write_fields j w more (insert k v m) rest h.2

-- ===== src/Wire/Package.antt =====
-- `struct Data_package` of socket.h, and the separators of socket.cpp.
use np_hw.Prelude.{Bool, true, ◌&&◌, ltb, arith, ℕ, ◌<◌, ◌≡◌, List, [], ◌∷◌, Str, Map, str_key}

pub record Package : Type 0 where
  pub payload : List ℕ
  pub fields : Map Str Str

abbrev pub empty_package : Package
empty_package = record { payload = []; fields = [] }

-- `(char)-1`, `(char)-2` and `(char)-3` as bytes.
abbrev pub key_val_sep : ℕ
key_val_sep = 255

abbrev pub fields_sep : ℕ
fields_sep = 254

abbrev pub field_payload_sep : ℕ
field_payload_sep = 253

-- Text without separators, as every UTF-8 text is.
abbrev pub IsText : Str → Type 0
IsText [] = Unit
IsText (c ∷ s) = (c < 253) × IsText s

unfoldable pub all_text : Str → Bool
all_text [] = true
all_text (c ∷ s) = ltb c 253 && all_text s

pub all_text-IsText : (s : Str) → all_text s ≡ true → IsText s
unfolding all_text
all_text-IsText [] h = tt
all_text-IsText (c ∷ s) h = (ground (arith, h), all_text-IsText s (ground (arith, h)))

abbrev pub FieldsAreText : Map Str Str → Type 0
FieldsAreText [] = Unit
FieldsAreText ((k, v) ∷ m) = IsText k × IsText v × FieldsAreText m

-- The keys of a map are distinct.
abbrev pub IsFresh : Str → Map Str Str → Type 0
IsFresh k [] = Unit
IsFresh k ((j, v) ∷ m) = ¬ (k ≡ j) × IsFresh k m

abbrev pub HasDistinctKeys : Map Str Str → Type 0
HasDistinctKeys [] = Unit
HasDistinctKeys ((k, v) ∷ m) = IsFresh k m × HasDistinctKeys m

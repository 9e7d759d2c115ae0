-- ===== src/Prelude/Search.antt =====
-- `std::string::find`, and `splitstr` of server/server.cpp.
use mathlib.Core.List.{append_assoc}
use np_hw.Prelude.{
  ℕ, zero, suc, ◌+◌, ◌≤◌, ◌<◌, ◌≡◌, refl, ap, sym, ◌∙◌, Bool, true, false, ◌&&◌, Option, none, some,
  List, [], ◌∷◌, ◌++◌, arith, Str, str_eq, nat_eq, if◌then◌else◌, length, take, drop, leb,
  length-append, take-append_left, drop-append_left,
}

unfoldable pub starts_with : Str → Str → Bool
starts_with [] s = true
starts_with (p ∷ ps) [] = false
starts_with (p ∷ ps) (c ∷ s) = nat_eq p c && starts_with ps s

abbrev pub one_further : Option ℕ → Option ℕ
one_further none = none
one_further (some n) = some (suc n)

-- The first position at which `sep` stands in `s`.
unfoldable pub find : Str → Str → Option ℕ
unfolding starts_with
find sep [] = if starts_with sep [] then some 0 else none
find sep (c ∷ s) =
    let further = one_further (find sep s) in if starts_with sep (c ∷ s) then some 0 else further

abbrev pub is_some : Option ℕ → Bool
is_some none = false
is_some (some n) = true

-- The loop of `splitstr` on what stands from `old_pos` on, with fuel for its rounds.
split_rest : ℕ → Str → Str → List Str
unfolding find
split_rest zero sep rest = []
split_rest (suc fuel) sep rest = elim (find sep rest) [
  | none ↦ if leb 1 (length rest) then rest ∷ [] else []
  | some pos ↦
      let left = take pos rest in
      let more = split_rest fuel sep (drop (pos + length sep) rest) in
      if str_eq left sep then more else left ∷ more
]

-- A separator is not empty, so each round but the last takes at least one byte off.
unfoldable pub splitstr : Str → Str → List Str
unfolding split_rest
splitstr a seperator = split_rest (suc (length a)) seperator a

-- A word holds no space.
abbrev pub IsWord : Str → Type 0
IsWord [] = Unit
IsWord (c ∷ s) = ¬ (c ≡ b' ') × IsWord s

abbrev pub space : Str
space = b' ' ∷ []

find-word : (w rest : Str) → IsWord w → find space (w ++ b' ' ∷ rest) ≡ some (length w)
unfolding find
find-word [] rest h = refl
find-word (c ∷ w) rest h = ground (arith, find-word w rest h.1)

find-last_word : (w : Str) → IsWord w → find space w ≡ none
unfolding find
find-last_word [] h = refl
find-last_word (c ∷ w) h = ground (arith, find-last_word w h.1)

IsWord-ne_space : (w : Str) → IsWord w → str_eq w space ≡ false
unfolding str_eq
IsWord-ne_space [] h = refl
IsWord-ne_space (c ∷ w) h = ground arith

split_rest-word :
    (fuel : ℕ) (w rest : Str)
    → IsWord w
    → split_rest (suc fuel) space (w ++ b' ' ∷ rest) ≡ w ∷ split_rest fuel space rest
unfolding split_rest
split_rest-word fuel w rest h =
    let left : take (length w) (w ++ b' ' ∷ rest) ≡ w = take-append_left (length w) w _ refl in
    let right : drop (length w + 1) (w ++ b' ' ∷ rest) ≡ rest =
      ap (drop (length w + 1)) (sym (append_assoc w space rest))
      ∙ drop-append_left (length w + 1) (w ++ space) rest (omega (arith, length-append w space)) in
    rw (find-word w rest h, split_rest, left, right, IsWord-ne_space w h) refl

split_rest-last_word :
    (fuel : ℕ) (c : ℕ) (w : Str)
    → IsWord (c ∷ w)
    → split_rest (suc fuel) space (c ∷ w) ≡ (c ∷ w) ∷ []
unfolding split_rest
split_rest-last_word fuel c w h = rw (find-last_word (c ∷ w) h, split_rest) (ground arith)

-- The words of a message, as the client joins them by spaces.
abbrev pub joined_words : Str → List Str → Str
joined_words w [] = w
joined_words w (v ∷ vs) = w ++ b' ' ∷ joined_words v vs

abbrev pub AreWords : List Str → Type 0
AreWords [] = Unit
AreWords (w ∷ ws) = IsWord w × ¬ (w ≡ []) × AreWords ws

split_rest-joined :
    (fuel : ℕ) (w : Str) (ws : List Str)
    → AreWords (w ∷ ws)
    → length ws < fuel
    → split_rest fuel space (joined_words w ws) ≡ w ∷ ws
split_rest-joined zero w ws h f = absurd (omega arith)
split_rest-joined (suc fuel) [] [] h f = absurd (h.1 refl)
split_rest-joined (suc fuel) (c ∷ w) [] h f = split_rest-last_word fuel c w h.0
split_rest-joined (suc fuel) w (v ∷ vs) h f =
    split_rest-word fuel w (joined_words v vs) h.0
    ∙ ap (◌∷◌ w) (split_rest-joined fuel v vs h.2 (omega arith))

length-joined : (w : Str) (ws : List Str) → length ws ≤ length (joined_words w ws)
length-joined w [] = omega arith
length-joined w (v ∷ vs) =
    omega (arith, length-append w (b' ' ∷ joined_words v vs), length-joined v vs)

-- `splitstr` at spaces gives back the words that were joined by single spaces, if none is empty
-- and none holds a space.
pub splitstr-joined :
    (w : Str) (ws : List Str) → AreWords (w ∷ ws) → splitstr (joined_words w ws) space ≡ w ∷ ws
unfolding splitstr
splitstr-joined w ws h =
    split_rest-joined (suc (length (joined_words w ws))) w ws h (omega (arith, length-joined w ws))

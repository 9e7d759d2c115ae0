-- ===== src/Client/Patterns.antt =====
-- `std::regex_match` for the patterns of client/client.cpp: literal text, a choice of two texts,
-- and repeated classes of characters, matched greedily and with backtracking.
pub mod Matching
pub mod Exact
use np_hw.Prelude.{
  AllOf, ℕ, Bool, true, false, ◌&&◌, ◌≡◌, refl, ap, ◌⊎◌, inl, inr, Option, none, some, List, [],
  ◌∷◌, ◌++◌, arith, Str, nat_eq, if◌then◌else◌, Bool-cases, Option-cases,
}

-- A pattern from its first piece on. The flag of a repetition says whether it is in parentheses.
pub data Pattern : Type 0 where
  whole : Pattern
  literal : Str → Pattern → Pattern
  choice : Str → Str → Pattern → Pattern
  any_of some_of : (ℕ → Bool) → Bool → Pattern → Pattern

-- What follows `word`, if the text begins with it.
unfoldable pub strip : Str → Str → Option Str
strip [] s = some s
strip (p ∷ ps) [] = none
strip (p ∷ ps) (c ∷ s) = let rest = strip ps s in if nat_eq p c then rest else none

abbrev pub Match : Type 0
Match = Option (List Str)

-- The captures that follow a repetition, beside the text that the repetition took.
abbrev pub Split : Type 0
Split = Option (Str × List Str)

abbrev pub taking_none : Match → Split
taking_none none = none
taking_none (some caps) = some ([], caps)

abbrev taking : ℕ → Split → Split
taking c none = none
taking c (some (word, caps)) = some (c ∷ word, caps)

abbrev or_else : Split → Split → Split
or_else none other = other
or_else (some found) other = some found

-- The longest run of the class after which the rest of the pattern matches.
unfoldable pub longest : (ℕ → Bool) → (Str → Match) → Str → Split
longest test next [] = taking_none (next [])
longest test next (c ∷ s) =
    let more = taking c (longest test next s) in
    let stop = taking_none (next (c ∷ s)) in if test c then or_else more stop else stop

unfoldable pub longest_some : (ℕ → Bool) → (Str → Match) → Str → Split
unfolding longest
longest_some test next [] = none
longest_some test next (c ∷ s) = if test c then taking c (longest test next s) else none

abbrev pub kept : Bool → Str → List Str → List Str
kept true word caps = word ∷ caps
kept false word caps = caps

abbrev pub keep : Bool → Split → Match
keep captured none = none
keep captured (some (word, caps)) = some (kept captured word caps)

abbrev pub after : Option Str → (Str → Match) → Match
after none next = none
after (some rest) next = next rest

abbrev pub chosen : Str → Match → Match → Match
chosen word none other = other
chosen word (some caps) other = some (word ∷ caps)

abbrev pub named : Str → Match → Match
named word none = none
named word (some caps) = some (word ∷ caps)

-- The captures of the first match in the order of the backtracking.
unfoldable pub regex_match : Pattern → Str → Match
unfolding strip longest longest_some
regex_match whole [] = some []
regex_match whole (c ∷ s) = none
regex_match (literal word p) s = after (strip word s) (regex_match p)
regex_match (choice a b p) s =
    chosen a (after (strip a s) (regex_match p)) (named b (after (strip b s) (regex_match p)))
regex_match (any_of test captured p) s = keep captured (longest test (regex_match p) s)
regex_match (some_of test captured p) s = keep captured (longest_some test (regex_match p) s)

-- A way to cut a text into the pieces of a pattern.
abbrev pub Splits : Pattern → Str → List Str → Type 0
Splits whole s caps = (s ≡ []) × (caps ≡ [])
Splits (literal word p) s caps = (rest : Str) × (s ≡ word ++ rest) × Splits p rest caps
Splits (choice a b p) s caps =
    (word : Str) × (rest : Str) × (more : List Str) × ((word ≡ a) ⊎ (word ≡ b))
    × (s ≡ word ++ rest)
    × Splits p rest more
    × (caps ≡ word ∷ more)
Splits (any_of test captured p) s caps =
    (word : Str) × (rest : Str) × (more : List Str) × AllOf test word
    × (s ≡ word ++ rest)
    × Splits p rest more
    × (caps ≡ kept captured word more)
Splits (some_of test captured p) s caps =
    (first : ℕ) × (word : Str) × (rest : Str) × (more : List Str) × AllOf test (first ∷ word)
    × (s ≡ first ∷ (word ++ rest))
    × Splits p rest more
    × (caps ≡ kept captured (first ∷ word) more)

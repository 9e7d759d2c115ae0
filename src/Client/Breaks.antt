-- ===== src/Client/Breaks.antt =====
-- The line breaks of a post's content, in `startClient` of client/client.cpp.
use np_hw.Prelude.{
  ℕ, zero, suc, ◌+◌, ◌≤◌, ◌<◌, ◌≡◌, ◌∙◌, refl, ap, sym, subst, true, false, inl, inr, none, some,
  [], ◌∷◌, ◌++◌, arith, Str, nat_eq, if◌then◌else◌, length, take, drop, Bool-cases, Option-cases,
  length-append, length-drop, length-take_within,
}
use np_hw.Prelude.Search.{starts_with, find}

abbrev pub br : Str
br = b'<' ∷ b'b' ∷ b'r' ∷ b'>' ∷ []

abbrev newline : ℕ
newline = 10

-- `content.replace(pos, strlen("<br>"), "\n")`
abbrev pub replace_at : ℕ → Str → Str
replace_at pos s = take pos s ++ newline ∷ drop (pos + 4) s

-- The loop that looks for the text from the beginning after each replacement, with fuel for its
-- rounds.
unfoldable pub replace_breaks : ℕ → Str → Str
unfolding find
replace_breaks zero s = s
replace_breaks (suc fuel) s = elim (find br s) [
  | none ↦ s
  | some pos ↦ replace_breaks fuel (replace_at pos s)
]

-- A round makes the text shorter, so the loop has fewer rounds than the text has bytes.
unfoldable pub break_lines : Str → Str
unfolding replace_breaks
break_lines s = replace_breaks (suc (length s)) s

-- One pass from left to right, which skips bytes of the text that it has replaced.
unfoldable pub one_pass : ℕ → Str → Str
unfolding starts_with
one_pass skip [] = []
one_pass (suc skip) (c ∷ s) = one_pass skip s
one_pass zero (c ∷ s) =
    let replaced = newline ∷ one_pass 3 s in
    let copied = c ∷ one_pass zero s in if starts_with br (c ∷ s) then replaced else copied

one_pass-drop : (n : ℕ) (s : Str) → one_pass n s ≡ one_pass zero (drop n s)
unfolding one_pass
one_pass-drop zero s = refl
one_pass-drop (suc n) [] = refl
one_pass-drop (suc n) (c ∷ s) = one_pass-drop n s

one_pass-none : (s : Str) → find br s ≡ none → one_pass zero s ≡ s
unfolding one_pass find
one_pass-none [] h = refl
one_pass-none (c ∷ s) h = elim (Bool-cases (starts_with br (c ∷ s))) [
  | inl here ↦ absurd (let found = rw here at h in cc)
  | inr other ↦ elim (Option-cases (find br s)) [
    | inl e ↦ rw (other, one_pass-none s e) refl
    | inr (pos, e) ↦ absurd (let found = rw (other, e) at h in cc)
  ]
]

abbrev OneLine : Str → Type 0
OneLine [] = Unit
OneLine (c ∷ s) = (nat_eq c newline ≡ false) × OneLine s

-- A text that does not begin a text does not begin it after a line break was put in either.
starts_with-cut :
    (p s rest : Str) (n : ℕ)
    → OneLine p
    → starts_with p s ≡ false
    → starts_with p (take n s ++ newline ∷ rest) ≡ false
unfolding starts_with
starts_with-cut [] s rest n line h = absurd (cc)
starts_with-cut (p ∷ ps) s rest zero line h = rw (line.0) refl
starts_with-cut (p ∷ ps) [] rest (suc n) line h = rw (line.0) refl
starts_with-cut (p ∷ ps) (c ∷ s) rest (suc n) line h = elim (Bool-cases (nat_eq p c)) [
  | inl e ↦ rw e (starts_with-cut ps s rest n line.1 (rw e at h))
  | inr e ↦ rw e refl
]

replace_at-suc : (q c : ℕ) (s : Str) → replace_at (suc q) (c ∷ s) ≡ c ∷ replace_at q s
replace_at-suc q c s =
    let further : suc q + 4 ≡ suc (q + 4) = omega arith in
    ap (λ n. c ∷ (take q s ++ newline ∷ drop n (c ∷ s))) further

one_pass-replace :
    (s : Str) (pos : ℕ) → find br s ≡ some pos → one_pass zero s ≡ one_pass zero (replace_at pos s)
unfolding one_pass find
one_pass-replace [] pos h = absurd (cc)
one_pass-replace (c ∷ s) pos h = elim (Bool-cases (starts_with br (c ∷ s))) [
  | inl here ↦
      let start : zero ≡ pos = let found = rw here at h in cc in
      subst (λ n. one_pass zero (c ∷ s) ≡ one_pass zero (replace_at n (c ∷ s))) start
        (rw here (ap (λ t. newline ∷ t) (one_pass-drop 3 s)))
  | inr other ↦ elim (Option-cases (find br s)) [
    | inl e ↦ absurd (let found = rw (other, e) at h in cc)
    | inr (q, e) ↦
        let later : suc q ≡ pos = let found = rw (other, e) at h in cc in
        let rest = replace_at q s in
        let apart : starts_with br (c ∷ rest) ≡ false =
          starts_with-cut br (c ∷ s) (drop (q + 4) s) (suc q) (refl, (refl, (refl, (refl, tt))))
            other in
        let left : one_pass zero (c ∷ s) ≡ c ∷ one_pass zero s = rw other refl in
        let right : one_pass zero (c ∷ rest) ≡ c ∷ one_pass zero rest = rw apart refl in
        subst (λ n. one_pass zero (c ∷ s) ≡ one_pass zero (replace_at n (c ∷ s))) later
          (left
            ∙ (ap (λ t. c ∷ t) (one_pass-replace s q e)
                ∙ (sym right ∙ ap (one_pass zero) (sym (replace_at-suc q c s)))))
  ]
]

starts_with-bound : (p s : Str) → starts_with p s ≡ true → length p ≤ length s
unfolding starts_with
starts_with-bound [] s h = omega arith
starts_with-bound (p ∷ ps) [] h = absurd (cc)
starts_with-bound (p ∷ ps) (c ∷ s) h = elim (Bool-cases (nat_eq p c)) [
  | inl e ↦ let more = starts_with-bound ps s (rw e at h) in omega arith
  | inr e ↦ absurd (let no = rw e at h in cc)
]

find-bound : (s : Str) (pos : ℕ) → find br s ≡ some pos → pos + 4 ≤ length s
unfolding find
find-bound [] pos h = absurd (cc)
find-bound (c ∷ s) pos h = elim (Bool-cases (starts_with br (c ∷ s))) [
  | inl here ↦
      let start : zero ≡ pos = let found = rw here at h in cc in
      let room : length br ≤ length (c ∷ s) = starts_with-bound br (c ∷ s) here in omega arith
  | inr other ↦ elim (Option-cases (find br s)) [
    | inl e ↦ absurd (let found = rw (other, e) at h in cc)
    | inr (q, e) ↦
        let later : suc q ≡ pos = let found = rw (other, e) at h in cc in
        let room = find-bound s q e in omega arith
  ]
]

replace_at-shorter :
    (s : Str) (pos : ℕ) → find br s ≡ some pos → length (replace_at pos s) < length s
replace_at-shorter s pos h =
    let room = find-bound s pos h in
    omega (
      arith,
      length-append (take pos s) (newline ∷ drop (pos + 4) s),
      length-take_within pos s (omega arith),
      length-drop (pos + 4) s,
    )

replace_breaks-one_pass :
    (fuel : ℕ) (s : Str) → length s < fuel → replace_breaks fuel s ≡ one_pass zero s
unfolding replace_breaks
replace_breaks-one_pass zero s h = absurd (omega arith)
replace_breaks-one_pass (suc fuel) s h = elim (Option-cases (find br s)) [
  | inl e ↦ rw (replace_breaks, e) (sym (one_pass-none s e))
  | inr (pos, e) ↦
      let shorter = replace_at-shorter s pos e in
      rw (replace_breaks, e)
        (replace_breaks-one_pass fuel (replace_at pos s) (omega arith)
          ∙ sym (one_pass-replace s pos e))
]

replace_breaks-none :
    (fuel : ℕ) (s : Str) → length s < fuel → find br (replace_breaks fuel s) ≡ none
unfolding replace_breaks
replace_breaks-none zero s h = absurd (omega arith)
replace_breaks-none (suc fuel) s h = elim (Option-cases (find br s)) [
  | inl e ↦ rw (replace_breaks, e) e
  | inr (pos, e) ↦
      let shorter = replace_at-shorter s pos e in
      rw (replace_breaks, e) (replace_breaks-none fuel (replace_at pos s) (omega arith))
]

-- The loop over a post's content ends before its fuel does: it replaces every `<br>` that a pass
-- from left to right meets, and no `<br>` is left.
pub break_lines-one_pass :
    (s : Str) → (break_lines s ≡ one_pass zero s) × (find br (break_lines s) ≡ none)
unfolding break_lines
break_lines-one_pass s = (
  replace_breaks-one_pass (suc (length s)) s (omega arith),
  replace_breaks-none (suc (length s)) s (omega arith),
)

-- ===== src/Client/Patterns/Matching.antt =====
-- `regex_match` against the ways to cut a text into the pieces of a pattern.
use np_hw.Prelude.{
  AllOf, ℕ, Bool, ◌≡◌, ◌∙◌, sym, subst, refl, ap, ◌⊎◌, inl, inr, Option, none, some, List, [], ◌∷◌,
  ◌++◌, arith, Str, nat_eq, Bool-cases, Option-cases,
}
use np_hw.Client.Patterns.{
  Pattern, whole, literal, choice, any_of, some_of, strip, Match, Split, longest, longest_some,
  kept, regex_match, Splits, taking_none, keep, after, chosen, named,
}

strip-append : (word rest : Str) → strip word (word ++ rest) ≡ some rest
unfolding strip
strip-append [] rest = refl
strip-append (c ∷ word) rest = ground (arith, strip-append word rest)

strip-inv : (word s rest : Str) → strip word s ≡ some rest → s ≡ word ++ rest
unfolding strip
strip-inv [] s rest h = cc
strip-inv (p ∷ ps) [] rest h = absurd (cc)
strip-inv (p ∷ ps) (c ∷ s) rest h = elim (Bool-cases (nat_eq p c)) [
  | inl e ↦ let same : p ≡ c = ground arith in let more = strip-inv ps s rest (rw e at h) in cc
  | inr e ↦ absurd (let no = rw e at h in cc)
]

-- A run and the rest that the continuation matched.
abbrev Run : (ℕ → Bool) → (Str → Match) → Str → Str → List Str → Type 0
Run test next s word caps =
    (rest : Str) × AllOf test word × (s ≡ word ++ rest) × (next rest ≡ some caps)

module _ (test : ℕ → Bool) (next : Str → Match) where
  stop-Run :
      (s word : Str) (caps : List Str)
      → taking_none (next s) ≡ some (word, caps)
      → Run test next s word caps
  stop-Run s word caps h = elim (Option-cases (next s)) [
    | inl e ↦ absurd (let no = rw e at h in cc)
    | inr (more, e) ↦
        let empty : [] ≡ word = let same = rw e at h in cc in
        let caught : more ≡ caps = let same = rw e at h in cc in
        subst (λ w. Run test next s w caps) empty (s, tt, refl, e ∙ ap some caught)
  ]

  longest-Run :
      (s word : Str) (caps : List Str)
      → longest test next s ≡ some (word, caps)
      → Run test next s word caps
  unfolding longest
  longest-Run [] word caps h = stop-Run [] word caps h
  longest-Run (c ∷ s) word caps h = elim (Bool-cases (test c)) [
    | inr fails ↦ stop-Run (c ∷ s) word caps (rw fails at h)
    | inl fits ↦ elim (Option-cases (longest test next s)) [
      | inl short ↦ stop-Run (c ∷ s) word caps (rw (fits, short) at h)
      | inr ((w, more), long) ↦
          let found : some (c ∷ w, more) ≡ some (word, caps) = rw (fits, long) at h in
          let (r, all, cut, matched) = longest-Run s w more long in
          let grown : c ∷ w ≡ word = cc in
          let caught : more ≡ caps = cc in
          subst (λ v. Run test next (c ∷ s) v caps) grown
            (r, (fits, all), ap (λ t. c ∷ t) cut, matched ∙ ap some caught)
    ]
  ]

  longest-stop :
      (s : Str) (caps : List Str)
      → next s ≡ some caps
      → (found : Str × List Str) × (longest test next s ≡ some found)
  unfolding longest
  longest-stop [] caps h = (([], caps), rw h refl)
  longest-stop (c ∷ s) caps h = elim (Bool-cases (test c)) [
    | inr fails ↦ (([], caps), rw (fails, h) refl)
    | inl fits ↦ elim (Option-cases (longest test next s)) [
      | inl short ↦ (([], caps), rw (fits, short, h) refl)
      | inr ((w, more), long) ↦ ((c ∷ w, more), rw (fits, long) refl)
    ]
  ]

  -- A text that a run cuts off is matched by some run, the longest.
  longest-some :
      (word rest : Str) (caps : List Str)
      → AllOf test word
      → next rest ≡ some caps
      → (found : Str × List Str) × (longest test next (word ++ rest) ≡ some found)
  unfolding longest
  longest-some [] rest caps all h = longest-stop rest caps h
  longest-some (c ∷ word) rest caps all h =
      let ((w, more), long) = longest-some word rest caps all.1 h in
      ((c ∷ w, more), rw (longest, all.0, long) refl)

  longest_some-Run :
      (s word : Str) (caps : List Str)
      → longest_some test next s ≡ some (word, caps)
      → (first : ℕ) × (more rest : Str) × AllOf test (first ∷ more)
        × (s ≡ first ∷ (more ++ rest))
        × (next rest ≡ some caps)
        × (first ∷ more ≡ word)
  unfolding longest_some
  longest_some-Run [] word caps h = absurd (cc)
  longest_some-Run (c ∷ s) word caps h = elim (Bool-cases (test c)) [
    | inr fails ↦ absurd (let none_found = rw fails at h in cc)
    | inl fits ↦ elim (Option-cases (longest test next s)) [
      | inl short ↦ absurd (let none_found = rw (fits, short) at h in cc)
      | inr ((w, more), long) ↦
          let found : some (c ∷ w, more) ≡ some (word, caps) = rw (fits, long) at h in
          let (r, all, cut, matched) = longest-Run s w more long in
          let caught : more ≡ caps = cc in
          (c, w, r, (fits, all), ap (λ t. c ∷ t) cut, matched ∙ ap some caught, cc)
    ]
  ]

  longest_some-some :
      (first : ℕ) (word rest : Str) (caps : List Str)
      → AllOf test (first ∷ word)
      → next rest ≡ some caps
      → (found : Str × List Str) × (longest_some test next (first ∷ (word ++ rest)) ≡ some found)
  unfolding longest_some
  longest_some-some first word rest caps all h =
      let ((w, more), long) = longest-some word rest caps all.1 h in
      ((first ∷ w, more), rw (all.0, long) refl)

after-inv :
    (o : Option Str) (next : Str → Match) (caps : List Str)
    → after o next ≡ some caps
    → (rest : Str) × (o ≡ some rest) × (next rest ≡ some caps)
after-inv none next caps h = absurd (cc)
after-inv (some rest) next caps h = (rest, refl, h)

keep-inv :
    (captured : Bool) (o : Split) (caps : List Str)
    → keep captured o ≡ some caps
    → (word : Str) × (more : List Str) × (o ≡ some (word, more)) × (caps ≡ kept captured word more)
keep-inv captured none caps h = absurd (cc)
keep-inv captured (some (word, more)) caps h = (word, more, refl, cc)

chosen-inv :
    (word : Str) (m other : Match) (caps : List Str)
    → chosen word m other ≡ some caps
    → ((more : List Str) × (m ≡ some more) × (caps ≡ word ∷ more)) ⊎ (other ≡ some caps)
chosen-inv word none other caps h = inr h
chosen-inv word (some more) other caps h = inl (more, refl, cc)

named-inv :
    (word : Str) (m : Match) (caps : List Str)
    → named word m ≡ some caps
    → (more : List Str) × (m ≡ some more) × (caps ≡ word ∷ more)
named-inv word none caps h = absurd (cc)
named-inv word (some more) caps h = (more, refl, cc)

regex_match-Splits :
    (p : Pattern) (s : Str) (caps : List Str) → regex_match p s ≡ some caps → Splits p s caps
unfolding regex_match
regex_match-Splits whole [] caps h = (refl, cc)
regex_match-Splits whole (c ∷ s) caps h = absurd (cc)
regex_match-Splits (literal word p) s caps h =
    let (rest, e, matched) = after-inv (strip word s) (regex_match p) caps h in
    (rest, strip-inv word s rest e, regex_match-Splits p rest caps matched)
regex_match-Splits (choice a b p) s caps h =
    elim (chosen-inv a (after (strip a s) (regex_match p))
      (named b (after (strip b s) (regex_match p))) caps h) [
        | inl (more, e, made) ↦
            let (rest, cut, matched) = after-inv (strip a s) (regex_match p) more e in
            (
              a,
              rest,
              more,
              inl refl,
              strip-inv a s rest cut,
              regex_match-Splits p rest more matched,
              made,
            )
        | inr other ↦
            let (more, e, made) = named-inv b (after (strip b s) (regex_match p)) caps other in
            let (rest, cut, matched) = after-inv (strip b s) (regex_match p) more e in
            (
              b,
              rest,
              more,
              inr refl,
              strip-inv b s rest cut,
              regex_match-Splits p rest more matched,
              made,
            )
      ]
regex_match-Splits (any_of test captured p) s caps h =
    let (word, more, e, made) = keep-inv captured _ caps h in
    let (rest, all, cut, matched) = longest-Run test (regex_match p) s word more e in
    (word, rest, more, all, cut, regex_match-Splits p rest more matched, made)
regex_match-Splits (some_of test captured p) s caps h =
    let (word, more, e, made) = keep-inv captured _ caps h in
    let (first, run, rest, all, cut, matched, same) =
      longest_some-Run test (regex_match p) s word more e in
    let sure : caps ≡ kept captured (first ∷ run) more =
      made ∙ ap (λ w. kept captured w more) (sym same) in
    (first, run, rest, more, all, cut, regex_match-Splits p rest more matched, sure)

Splits-regex_match :
    (p : Pattern) (s : Str) (caps : List Str)
    → Splits p s caps
    → (found : List Str) × (regex_match p s ≡ some found)
unfolding regex_match
Splits-regex_match whole s caps (empty, made) = ([], rw (empty, regex_match) refl)
Splits-regex_match (literal word p) s caps (rest, cut, parts) =
    let (found, matched) = Splits-regex_match p rest caps parts in
    (found, rw (regex_match, cut, strip-append word rest, after) matched)
Splits-regex_match (choice a b p) s caps (word, rest, more, inl here, cut, parts, made) =
    let (found, matched) = Splits-regex_match p rest more parts in
    let opened : strip a s ≡ some rest = rw (cut, here) (strip-append a rest) in
    (a ∷ found, rw (regex_match, opened, after, matched) refl)
Splits-regex_match (choice a b p) s caps (word, rest, more, inr here, cut, parts, made) =
    let (found, matched) = Splits-regex_match p rest more parts in
    let opened : strip b s ≡ some rest = rw (cut, here) (strip-append b rest) in
    elim (Option-cases (after (strip a s) (regex_match p))) [
      | inl e ↦ (b ∷ found, rw (regex_match, e, opened, after, matched) refl)
      | inr (other, e) ↦ (a ∷ other, rw (regex_match, e) refl)
    ]
Splits-regex_match (any_of test captured p) s caps (word, rest, more, all, cut, parts, made) =
    let (found, matched) = Splits-regex_match p rest more parts in
    let ((w, tail), long) = longest-some test (regex_match p) word rest found all matched in
    (kept captured w tail, rw (regex_match, cut, long) refl)
Splits-regex_match (some_of test captured p) s caps
      (first, word, rest, more, all, cut, parts, made) =
    let (found, matched) = Splits-regex_match p rest more parts in
    let ((w, tail), long) =
      longest_some-some test (regex_match p) first word rest found all matched in
    (kept captured w tail, rw (regex_match, cut, long) refl)

-- The matcher finds a match of a text exactly if the text can be cut into the pieces of the
-- pattern, and the captures that it returns are those of such a cut.
pub regex_match_iff :
    (p : Pattern) (s : Str)
    → ((caps : List Str) → regex_match p s ≡ some caps → Splits p s caps)
      × ((caps : List Str) → Splits p s caps → (found : List Str) × (regex_match p s ≡ some found))
regex_match_iff p s = (regex_match-Splits p s, Splits-regex_match p s)

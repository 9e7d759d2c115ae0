-- ===== src/Client/Patterns/Exact.antt =====
-- Texts of which the greedy matcher takes a known part.
use np_hw.Prelude.{
  ℕ, Bool, false, ◌≡◌, refl, inl, inr, none, some, List, [], ◌∷◌, ◌++◌, Str, AllOf, nat_eq,
  Bool-cases, Option-cases,
}
use np_hw.Prelude.Search.{starts_with, find}
use np_hw.Client.Patterns.{strip, Match, longest, longest_some, after}

module _ (test : ℕ → Bool) (next : Str → Match) (caps : List Str) where
  -- A run of the class to the end.
  pub longest-all :
      (s : Str) → AllOf test s → next [] ≡ some caps → longest test next s ≡ some (s, caps)
  unfolding longest
  longest-all [] all h = rw h refl
  longest-all (c ∷ s) all h = rw (all.0, longest-all s all.1 h) refl

  -- A run that a character outside the class ends.
  pub longest-word :
      (word : Str) (c : ℕ) (rest : Str)
      → AllOf test word
      → test c ≡ false
      → next (c ∷ rest) ≡ some caps
      → longest test next (word ++ c ∷ rest) ≡ some (word, caps)
  unfolding longest
  longest-word [] c rest all stop h = rw (stop, h) refl
  longest-word (d ∷ word) c rest all stop h =
      rw (longest, all.0, longest-word word c rest all.1 stop h) refl

  -- A run after which the rest matches, and later no more.
  pub longest-last :
      (word : Str) (c : ℕ) (rest : Str)
      → AllOf test word
      → longest test next rest ≡ none
      → next (c ∷ rest) ≡ some caps
      → longest test next (word ++ c ∷ rest) ≡ some (word, caps)
  unfolding longest
  longest-last [] c rest all stop h = elim (Bool-cases (test c)) [
    | inl e ↦ rw (e, stop, h) refl
    | inr e ↦ rw (e, h) refl
  ]
  longest-last (d ∷ word) c rest all stop h =
      rw (longest, all.0, longest-last word c rest all.1 stop h) refl

  pub longest_some-all :
      (first : ℕ) (word : Str)
      → AllOf test (first ∷ word)
      → next [] ≡ some caps
      → longest_some test next (first ∷ word) ≡ some (first ∷ word, caps)
  unfolding longest_some
  longest_some-all first word all h = rw (all.0, longest-all word all.1 h) refl

  pub longest_some-word :
      (first : ℕ) (word : Str) (c : ℕ) (rest : Str)
      → AllOf test (first ∷ word)
      → test c ≡ false
      → next (c ∷ rest) ≡ some caps
      → longest_some test next (first ∷ (word ++ c ∷ rest)) ≡ some (first ∷ word, caps)
  unfolding longest_some
  longest_some-word first word c rest all stop h =
      rw (all.0, longest-word word c rest all.1 stop h) refl

  pub longest_some-last :
      (first : ℕ) (word : Str) (c : ℕ) (rest : Str)
      → AllOf test (first ∷ word)
      → longest test next rest ≡ none
      → next (c ∷ rest) ≡ some caps
      → longest_some test next (first ∷ (word ++ c ∷ rest)) ≡ some (first ∷ word, caps)
  unfolding longest_some
  longest_some-last first word c rest all stop h =
      rw (all.0, longest-last word c rest all.1 stop h) refl

strip-none : (p s : Str) → starts_with p s ≡ false → strip p s ≡ none
unfolding strip starts_with
strip-none [] s h = absurd (cc)
strip-none (p ∷ ps) [] h = refl
strip-none (p ∷ ps) (c ∷ s) h = elim (Bool-cases (nat_eq p c)) [
  | inl e ↦ rw (e, strip-none ps s (rw e at h)) refl
  | inr e ↦ rw e refl
]

-- Where a separator does not stand, no run can end before it.
pub longest-none :
    (test : ℕ → Bool) (sep : Str) (next : Str → Match) (s : Str)
    → find sep s ≡ none
    → longest test (λ r. after (strip sep r) next) s ≡ none
unfolding longest find
longest-none test sep next [] h = elim (Bool-cases (starts_with sep [])) [
  | inl here ↦ absurd (let found = rw here at h in cc)
  | inr other ↦ rw (strip-none sep [] other) refl
]
longest-none test sep next (c ∷ s) h = elim (Bool-cases (starts_with sep (c ∷ s))) [
  | inl here ↦ absurd (let found = rw here at h in cc)
  | inr other ↦ elim (Option-cases (find sep s)) [
    | inl e ↦ elim (Bool-cases (test c)) [
      | inl fits ↦ rw (fits, longest-none test sep next s e, strip-none sep (c ∷ s) other) refl
      | inr fails ↦ rw (fails, strip-none sep (c ∷ s) other) refl
    ]
    | inr (pos, e) ↦ absurd (let found = rw (other, e) at h in cc)
  ]
]

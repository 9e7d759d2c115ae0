-- ===== src/Prelude/Lists.antt =====
-- Lists over the native numbers.
use Prim.Native.Nat.{ℕ, zero, suc, ◌+◌, ◌-◌, ◌≤◌}
use mathlib.Core.Path.{◌≡◌, refl, ap}
use mathlib.Core.Logic.{◌⊎◌, inl, inr}
use mathlib.Core.Bool.{Bool, true, false}
use mathlib.Core.Option.{Option, none, some}
use mathlib.Core.List.{List, [], ◌∷◌, ◌++◌}
use native.Mathlib.Omega.{arith}
use np_hw.Prelude.Tests.{if◌then◌else◌, nat_eq, nat_eq_iff, Bool-cases, Key, ◌==◌}

module _ {ℓ} {A : Type ℓ} where
  abbrev pub length : List A → ℕ
  length [] = 0
  length (x ∷ xs) = suc (length xs)

  abbrev pub get_elem? : List A → ℕ → Option A
  get_elem? [] i = none
  get_elem? (x ∷ xs) zero = some x
  get_elem? (x ∷ xs) (suc i) = get_elem? xs i

  abbrev pub set : List A → ℕ → A → List A
  set [] i v = []
  set (x ∷ xs) zero v = v ∷ xs
  set (x ∷ xs) (suc i) v = x ∷ set xs i v

  abbrev pub take : ℕ → List A → List A
  take zero xs = []
  take (suc n) [] = []
  take (suc n) (x ∷ xs) = x ∷ take n xs

  abbrev pub drop : ℕ → List A → List A
  drop zero xs = xs
  drop (suc n) [] = []
  drop (suc n) (x ∷ xs) = drop n xs

  abbrev pub replicate : ℕ → A → List A
  replicate zero a = []
  replicate (suc n) a = a ∷ replicate n a

  -- The elements that pass a test.
  abbrev pub keep : (A → Bool) → List A → List A
  keep p [] = []
  keep p (x ∷ xs) = if p x then x ∷ keep p xs else keep p xs

  -- Every element passes the test.
  abbrev pub AllOf : (A → Bool) → List A → Type 0
  AllOf test [] = Unit
  AllOf test (x ∷ xs) = (test x ≡ true) × AllOf test xs

  pub AllOf-append :
      (test : A → Bool) (xs ys : List A) → AllOf test xs → AllOf test ys → AllOf test (xs ++ ys)
  AllOf-append test [] ys h k = k
  AllOf-append test (x ∷ xs) ys h k = (h.0, AllOf-append test xs ys h.1 k)

  pub AllOf-weaken :
      (test weaker : A → Bool) (xs : List A)
      → ((x : A) → test x ≡ true → weaker x ≡ true)
      → AllOf test xs
      → AllOf weaker xs
  AllOf-weaken test weaker [] w h = tt
  AllOf-weaken test weaker (x ∷ xs) w h = (w x h.0, AllOf-weaken test weaker xs w h.1)

  pub length-append : (xs ys : List A) → length (xs ++ ys) ≡ length xs + length ys
  length-append [] ys = omega arith
  length-append (x ∷ xs) ys = omega (arith, length-append xs ys)

  pub length-drop : (n : ℕ) (xs : List A) → length (drop n xs) ≡ length xs - n
  length-drop zero xs = omega arith
  length-drop (suc n) [] = omega arith
  length-drop (suc n) (x ∷ xs) = omega (arith, length-drop n xs)

  pub take-append-drop : (n : ℕ) (xs : List A) → take n xs ++ drop n xs ≡ xs
  take-append-drop zero xs = refl
  take-append-drop (suc n) [] = refl
  take-append-drop (suc n) (x ∷ xs) = ap (◌∷◌ x) (take-append-drop n xs)

  pub take-append_left : (n : ℕ) (xs ys : List A) → n ≡ length xs → take n (xs ++ ys) ≡ xs
  take-append_left zero [] ys h = refl
  take-append_left zero (x ∷ xs) ys h = absurd (omega arith)
  take-append_left (suc n) [] ys h = absurd (omega arith)
  take-append_left (suc n) (x ∷ xs) ys h = ap (◌∷◌ x) (take-append_left n xs ys (omega arith))

  pub drop-append_left : (n : ℕ) (xs ys : List A) → n ≡ length xs → drop n (xs ++ ys) ≡ ys
  drop-append_left zero [] ys h = refl
  drop-append_left zero (x ∷ xs) ys h = absurd (omega arith)
  drop-append_left (suc n) [] ys h = absurd (omega arith)
  drop-append_left (suc n) (x ∷ xs) ys h = drop-append_left n xs ys (omega arith)

  pub take-append_within : (n : ℕ) (xs ys : List A) → n ≤ length xs → take n (xs ++ ys) ≡ take n xs
  take-append_within zero xs ys h = refl
  take-append_within (suc n) [] ys h = absurd (omega arith)
  take-append_within (suc n) (x ∷ xs) ys h = ap (◌∷◌ x) (take-append_within n xs ys (omega arith))

  pub drop-append_within :
      (n : ℕ) (xs ys : List A) → n ≤ length xs → drop n (xs ++ ys) ≡ drop n xs ++ ys
  drop-append_within zero xs ys h = refl
  drop-append_within (suc n) [] ys h = absurd (omega arith)
  drop-append_within (suc n) (x ∷ xs) ys h = drop-append_within n xs ys (omega arith)

  pub length-take_within : (n : ℕ) (xs : List A) → n ≤ length xs → length (take n xs) ≡ n
  length-take_within zero xs h = refl
  length-take_within (suc n) [] h = absurd (omega arith)
  length-take_within (suc n) (x ∷ xs) h = ap suc (length-take_within n xs (omega arith))

  pub take-whole : (n : ℕ) (l : List A) → length l ≤ n → take n l ≡ l
  take-whole zero [] h = refl
  take-whole zero (x ∷ l) h = absurd (omega arith)
  take-whole (suc n) [] h = refl
  take-whole (suc n) (x ∷ l) h = ap (◌∷◌ x) (take-whole n l (omega arith))

  pub get_elem?-append_end :
      (xs : List A) (a : A) (i : ℕ) → i ≡ length xs → get_elem? (xs ++ a ∷ []) i ≡ some a
  get_elem?-append_end [] a zero h = refl
  get_elem?-append_end [] a (suc i) h = absurd (omega arith)
  get_elem?-append_end (x ∷ xs) a zero h = absurd (omega arith)
  get_elem?-append_end (x ∷ xs) a (suc i) h = get_elem?-append_end xs a i (omega arith)

  -- Appending one element adds it at the end, and changes no other position.
  pub get_elem?-append_one :
      (xs : List A) (a : A) (i : ℕ)
      → get_elem? (xs ++ a ∷ []) i ≡ (if nat_eq i (length xs) then some a else get_elem? xs i)
  get_elem?-append_one [] a zero = refl
  get_elem?-append_one [] a (suc i) = ground arith
  get_elem?-append_one (x ∷ xs) a zero = ground arith
  get_elem?-append_one (x ∷ xs) a (suc i) = ground (arith, get_elem?-append_one xs a i)

  -- A write at a position that exists changes that position only.
  pub get_elem?-set :
      (xs : List A) (i j : ℕ) (a b : A)
      → get_elem? xs i ≡ some b
      → get_elem? (set xs i a) j ≡ (if nat_eq i j then some a else get_elem? xs j)
  get_elem?-set [] i j a b h = cc
  get_elem?-set (x ∷ xs) zero zero a b h = refl
  get_elem?-set (x ∷ xs) zero (suc j) a b h = ground arith
  get_elem?-set (x ∷ xs) (suc i) zero a b h = ground arith
  get_elem?-set (x ∷ xs) (suc i) (suc j) a b h = ground (arith, get_elem?-set xs i j a b h)

  pub get_elem?-set_inv :
      (xs : List A) (i j : ℕ) (a b c : A)
      → get_elem? xs i ≡ some c
      → get_elem? (set xs i a) j ≡ some b
      → ((i ≡ j) × (a ≡ b)) ⊎ ((nat_eq i j ≡ false) × (get_elem? xs j ≡ some b))
  get_elem?-set_inv xs i j a b c g h = elim (Bool-cases (nat_eq i j)) [
    | inl e ↦ inl ((nat_eq_iff i j).0 e, ground (arith, get_elem?-set xs i j a c g))
    | inr e ↦ inr (e, rw (get_elem?-set xs i j a c g, e) at h)
  ]

  pub get_elem?-append_left :
      (xs ys : List A) (i : ℕ) (a : A) → get_elem? xs i ≡ some a → get_elem? (xs ++ ys) i ≡ some a
  get_elem?-append_left [] ys i a h = cc
  get_elem?-append_left (x ∷ xs) ys zero a h = h
  get_elem?-append_left (x ∷ xs) ys (suc i) a h = get_elem?-append_left xs ys i a h

  pub get_elem?-append_inv :
      (xs : List A) (a b : A) (i : ℕ)
      → get_elem? (xs ++ a ∷ []) i ≡ some b
      → ((i ≡ length xs) × (a ≡ b)) ⊎ (get_elem? xs i ≡ some b)
  get_elem?-append_inv xs a b i h = elim (Bool-cases (nat_eq i (length xs))) [
    | inl e ↦ inl ((nat_eq_iff i (length xs)).0 e, ground (arith, get_elem?-append_one xs a i))
    | inr e ↦ inr (rw (get_elem?-append_one xs a i, e) at h)
  ]

  pub keep_nothing : (p : A → Bool) (xs : List A) → ((a : A) → p a ≡ false) → keep p xs ≡ []
  keep_nothing p [] h = refl
  keep_nothing p (x ∷ xs) h = ground (arith, h x, keep_nothing p xs h)

  pub get_elem?_out : (xs : List A) (i : ℕ) → length xs ≤ i → get_elem? xs i ≡ none
  get_elem?_out [] i h = refl
  get_elem?_out (x ∷ xs) zero h = absurd (omega arith)
  get_elem?_out (x ∷ xs) (suc i) h = get_elem?_out xs i (omega arith)

  pub keep-append : (p : A → Bool) (xs ys : List A) → keep p (xs ++ ys) ≡ keep p xs ++ keep p ys
  keep-append p [] ys = refl
  keep-append p (x ∷ xs) ys = ground (arith, keep-append p xs ys)

module _ {ℓ} {A : Type ℓ} ⦃key : Key A⦄ where
  -- `for (it = v.begin(); ...) if (*it == a) { v.erase(it); break; }`
  unfoldable pub erase_first : A → List A → List A
  erase_first a [] = []
  erase_first a (x ∷ xs) = if x == a then xs else x ∷ erase_first a xs

  unfoldable pub contains : A → List A → Bool
  contains a [] = false
  contains a (x ∷ xs) = if x == a then true else contains a xs

  pub erase_first-append_left :
      (a : A) (xs ys : List A)
      → contains a ys ≡ false
      → erase_first a (xs ++ ys) ≡ erase_first a xs ++ ys
  unfolding erase_first contains
  erase_first-append_left a [] [] h = refl
  erase_first-append_left a [] (y ∷ ys) h = ground (arith, erase_first-append_left a [] ys)
  erase_first-append_left a (x ∷ xs) ys h = ground (arith, erase_first-append_left a xs ys)

  pub erase_first-append_right :
      (a : A) (xs ys : List A)
      → contains a xs ≡ false
      → erase_first a (xs ++ ys) ≡ xs ++ erase_first a ys
  unfolding erase_first contains
  erase_first-append_right a [] ys h = refl
  erase_first-append_right a (x ∷ xs) ys h = ground (arith, erase_first-append_right a xs ys)

  pub contains-append :
      (a : A) (xs ys : List A)
      → contains a xs ≡ false
      → contains a ys ≡ false
      → contains a (xs ++ ys) ≡ false
  unfolding contains
  contains-append a [] ys h k = k
  contains-append a (x ∷ xs) ys h k = ground (arith, contains-append a xs ys)

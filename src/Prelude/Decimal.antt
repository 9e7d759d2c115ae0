-- ===== src/Prelude/Decimal.antt =====
-- `std::to_string` and `std::stoi` on `int`.
use np_hw.Prelude.{
  ℕ, zero, suc, ◌+◌, ◌-◌, ◌*◌, ◌/◌, ◌%◌, ◌^◌, ◌≤◌, ◌<◌, ◌≡◌, refl, ap, subst, ◌∙◌, Bool, true,
  false, ◌&&◌, ◌||◌, Option, none, some, [], ◌∷◌, ◌++◌, arith, inl, inr, ltb, ltb→lt, leb, nat_eq,
  if◌then◌else◌, Str, AllOf, AllOf-append, ℤ, pos, negsuc, Result, ok, throws, invalid_argument,
  out_of_range, Bool-cases,
}
use mathlib.Core.List.{append_assoc, append-nil}

-- Decimal digits, with fuel: `to_decimal` gives enough.
decimal : ℕ → ℕ → Str
decimal zero n = []
decimal (suc fuel) n =
    let rest = decimal fuel (n / 10) in
    if ltb n 10 then (48 + n) ∷ [] else rest ++ (48 + n % 10) ∷ []

pub to_decimal : ℕ → Str
unfolding decimal
to_decimal n = decimal (suc n) n

unfoldable pub to_string : ℤ → Str
unfolding to_decimal
to_string (pos n) = to_decimal n
to_string (negsuc n) = b'-' ∷ to_decimal (suc n)

unfoldable pub is_space : ℕ → Bool
is_space c = nat_eq c 32 || (leb 9 c && leb c 13)

unfoldable pub is_digit : ℕ → Bool
is_digit c = leb 48 c && leb c 57

skip_space : Str → Str
unfolding is_space
skip_space [] = []
skip_space (c ∷ s) = if is_space c then skip_space s else c ∷ s

-- The value of the leading digits, `none` if there are none.
read_digits : ℕ → Bool → Str → Option ℕ
unfolding is_digit
read_digits acc seen [] = if seen then some acc else none
read_digits acc seen (c ∷ s) =
    let rest = read_digits (acc * 10 + (c - 48)) true s in
    if is_digit c then rest else (if seen then some acc else none)

-- The range of a 32-bit `int`.
abbrev pub IsInt : ℤ → Type 0
IsInt (pos n) = n < 2147483648
IsInt (negsuc n) = n < 2147483648

negate : ℕ → ℤ
negate zero = pos 0
negate (suc n) = negsuc n

in_range : Bool → Option ℕ → Result ℤ
unfolding negate
in_range minus none = throws invalid_argument
in_range false (some n) = if ltb n 2147483648 then ok (pos n) else throws out_of_range
in_range true (some n) = if leb n 2147483648 then ok (negate n) else throws out_of_range

signed : Str → Result ℤ
unfolding read_digits in_range
signed [] = throws invalid_argument
signed (c ∷ s) =
    if nat_eq c b'-'
    then in_range true (read_digits 0 false s)
    else (if nat_eq c b'+'
        then in_range false (read_digits 0 false s)
        else in_range false (read_digits 0 false (c ∷ s)))

unfoldable pub stoi : Str → Result ℤ
unfolding signed skip_space
stoi s = signed (skip_space s)

-- `strtol(s, nullptr, 10)` for a `long` of 64 bits: 0 without a number, and the end of the range
-- beyond it.
saturated : Bool → Option ℕ → ℤ
unfolding negate
saturated minus none = pos 0
saturated false (some n) = if ltb n (2 ^ 63) then pos n else pos (2 ^ 63 - 1)
saturated true (some n) = if leb n (2 ^ 63) then negate n else negsuc (2 ^ 63 - 1)

signed_long : Str → ℤ
unfolding read_digits saturated
signed_long [] = pos 0
signed_long (c ∷ s) =
    if nat_eq c b'-'
    then saturated true (read_digits 0 false s)
    else (if nat_eq c b'+'
        then saturated false (read_digits 0 false s)
        else saturated false (read_digits 0 false (c ∷ s)))

unfoldable pub strtol : Str → ℤ
unfolding signed_long skip_space
strtol s = signed_long (skip_space s)

read_digits-cons :
    (acc m d : ℕ) (seen : Bool) (rest : Str)
    → d < 10
    → m ≡ acc * 10 + d
    → read_digits acc seen ((48 + d) ∷ rest) ≡ read_digits m true rest
unfolding read_digits
read_digits-cons acc m d seen rest h e =
    let value : acc * 10 + (48 + d - 48) ≡ m = omega arith in
    let low : leb 48 (48 + d) ≡ true = ground arith in
    let high : leb (48 + d) 57 ≡ true = ground arith in rw (low, high, value)

-- Reading back what was printed, whatever follows it.
read_digits-decimal :
    (fuel n : ℕ) (seen : Bool) (rest : Str)
    → n < fuel
    → read_digits 0 seen (decimal fuel n ++ rest) ≡ read_digits n true rest
unfolding decimal
read_digits-decimal zero n seen rest h = absurd (omega arith)
read_digits-decimal (suc fuel) n seen rest h = elim (Bool-cases (ltb n 10)) [
  | inl small ↦ rw small (read_digits-cons 0 n n seen rest (ltb→lt n 10 small) (omega arith))
  | inr large ↦
      rw (large, append_assoc)
        (read_digits-decimal fuel (n / 10) seen ((48 + n % 10) ∷ rest) (ground arith)
          ∙ read_digits-cons (n / 10) n (n % 10) true rest (omega arith) (omega arith))
]

-- A printed number is not empty, and begins with no space and no sign.
decimal-cons : (fuel n : ℕ) → (c : ℕ) × (s : Str) × (decimal (suc fuel) n ≡ c ∷ s) × (48 ≤ c)
unfolding decimal
decimal-cons zero n = elim (Bool-cases (ltb n 10)) [
  | inl small ↦ (48 + n, [], rw small, omega arith)
  | inr large ↦ (48 + n % 10, [], rw large, omega arith)
]
decimal-cons (suc fuel) n = elim (Bool-cases (ltb n 10)) [
  | inl small ↦ (48 + n, [], rw small, omega arith)
  | inr large ↦
      let (c, s, e, h) = decimal-cons fuel (n / 10) in
      (c, s ++ (48 + n % 10) ∷ [], rw large (ap (λ t. t ++ (48 + n % 10) ∷ []) e), h)
]

stoi-digit :
    (c : ℕ) (s : Str) → 48 ≤ c → stoi (c ∷ s) ≡ in_range false (read_digits 0 false (c ∷ s))
unfolding stoi
stoi-digit c s h = ground arith

read_digits-to_decimal : (n : ℕ) (seen : Bool) → read_digits 0 seen (to_decimal n) ≡ some n
unfolding to_decimal
read_digits-to_decimal n seen =
    let whole : read_digits 0 seen (decimal (suc n) n ++ []) ≡ some n =
      read_digits-decimal (suc n) n seen [] (omega arith) ∙ (unfold read_digits in refl) in
    rw append-nil at whole

stoi-to_decimal : (n : ℕ) → stoi (to_decimal n) ≡ in_range false (some n)
unfolding to_decimal
stoi-to_decimal n =
    let (c, s, e, h) = decimal-cons n n in
    let read : read_digits 0 false (to_decimal n) ≡ some n = read_digits-to_decimal n false in
    rw e (stoi-digit c s h ∙ ap (in_range false) (rw e at read))

stoi-minus : (s : Str) → stoi (b'-' ∷ s) ≡ in_range true (read_digits 0 false s)
unfolding stoi
stoi-minus s = refl

-- Printing an `int` and parsing it back gives the same number.
pub stoi-to_string : (z : ℤ) → IsInt z → stoi (to_string z) ≡ ok z
unfolding to_string in_range
stoi-to_string (pos n) h = stoi-to_decimal n ∙ ground arith
stoi-to_string (negsuc n) h =
    stoi-minus (to_decimal (suc n))
    ∙ ap (in_range true) (read_digits-to_decimal (suc n) false)
    ∙ ground arith

decimal-AllOf : (fuel n : ℕ) → AllOf is_digit (decimal fuel n)
unfolding decimal is_digit
decimal-AllOf zero n = tt
decimal-AllOf (suc fuel) n = elim (Bool-cases (ltb n 10)) [
  | inl small ↦ let low : is_digit (48 + n) ≡ true = ground arith in rw small (low, tt)
  | inr large ↦
      let low : is_digit (48 + n % 10) ≡ true = ground arith in
      rw large (AllOf-append is_digit _ _ (decimal-AllOf fuel (n / 10)) (low, tt))
]

-- A printed natural number is not empty, and consists of digits.
pub to_decimal-AllOf :
    (n : ℕ)
    → (first : ℕ) × (more : Str) × (to_decimal n ≡ first ∷ more) × AllOf is_digit (first ∷ more)
unfolding to_decimal
to_decimal-AllOf n =
    let (c, s, e, h) = decimal-cons n n in
    (c, s, e, subst (AllOf is_digit) e (decimal-AllOf (suc n) n))

-- A number above the range of `int` is not parsed.
pub stoi-large : (n : ℕ) → 2147483648 ≤ n → stoi (to_string (pos n)) ≡ throws out_of_range
unfolding to_string in_range
stoi-large n h = stoi-to_decimal n ∙ ground arith

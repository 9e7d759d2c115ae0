-- ===== src/Prelude/Ints.antt =====
-- The `int` of the machines the program runs on: 32 bits, two's complement.
use np_hw.Prelude.{
  ℕ, suc, ◌+◌, ◌-◌, ◌%◌, ◌^◌, ◌<◌, ◌≤◌, ◌≡◌, refl, true, arith, ℤ, pos, negsuc, ltb, if◌then◌else◌,
}

-- The conversion of a wider integer to an `int`, which keeps its low 32 bits.
unfoldable pub to_int : ℤ → ℤ
to_int (pos n) =
    let low = n % 2 ^ 32 in if ltb low (2 ^ 31) then pos low else negsuc (2 ^ 32 - 1 - low)
to_int (negsuc n) =
    let low = n % 2 ^ 32 in if ltb low (2 ^ 31) then negsuc low else pos (2 ^ 32 - 1 - low)

pub to_int-small : (n : ℕ) → n < 2 ^ 31 → to_int (pos n) ≡ pos n
unfolding to_int
to_int-small n h =
    let same : n % 2 ^ 32 ≡ n = omega (arith, h) in
    let below : ltb n (2 ^ 31) ≡ true = ground (arith, h) in rw (same, below) refl

-- `++` on an `int` whose 32 bits, read as a number, are `n`.
unfoldable pub int_suc : ℕ → ℕ
int_suc n = (n + 1) % 2 ^ 32

pub int_suc-small : (n : ℕ) → n + 1 < 2 ^ 31 → int_suc n ≡ suc n
unfolding int_suc
int_suc-small n h = omega (arith, h)

pub int_suc-bound : (n : ℕ) → int_suc n ≤ suc n
unfolding int_suc
int_suc-bound n = omega arith

-- ===== src/Wire/Bytes.antt =====
-- Integers in memory as `mempcpy` sees them on the little-endian machines the program runs on.
use np_hw.Prelude.{
  ℕ, zero, suc, ◌+◌, ◌*◌, ◌/◌, ◌%◌, ◌<◌, ◌≡◌, refl, ap, List, [], ◌∷◌, arith, length,
}

-- The `k` low bytes of `n`, lowest first.
unfoldable pub le_bytes : ℕ → ℕ → List ℕ
le_bytes zero n = []
le_bytes (suc k) n = (n % 256) ∷ le_bytes k (n / 256)

unfoldable pub of_le_bytes : List ℕ → ℕ
of_le_bytes [] = 0
of_le_bytes (b ∷ bs) = b + 256 * of_le_bytes bs

pub length-le_bytes : (k n : ℕ) → length (le_bytes k n) ≡ k
unfolding le_bytes
length-le_bytes zero n = refl
length-le_bytes (suc k) n = ap suc (length-le_bytes k (n / 256))

-- How many values `k` bytes have.
unfoldable pub range_of : ℕ → ℕ
range_of zero = 1
range_of (suc k) = 256 * range_of k

-- What `k` bytes hold of a number, if it fits.
pub of_le_bytes-le_bytes : (k n : ℕ) → n < range_of k → of_le_bytes (le_bytes k n) ≡ n
unfolding le_bytes of_le_bytes range_of
of_le_bytes-le_bytes zero n h = omega arith
of_le_bytes-le_bytes (suc k) n h = omega (arith, of_le_bytes-le_bytes k (n / 256) (omega arith))

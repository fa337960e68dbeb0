-- ===== src/Base/Words.antt =====
-- Go's uint64 arithmetic, which wraps, over numbers below 2 ^ 64.
use toh.Base.{ℕ, ◌+◌, ◌-◌, ◌%◌, ◌^◌, ◌<◌, Bool, ◌&&◌, arith, ltb}

abbrev pub modulus64 : ℕ
modulus64 = 2 ^ 64

unfoldable pub add64 : ℕ → ℕ → ℕ
add64 a b = (a + b) % modulus64

-- `-` on ℕ stops at 0, so the modulus is added first.
unfoldable pub sub64 : ℕ → ℕ → ℕ
sub64 a b = (a + modulus64 - b) % modulus64

-- `w > 0` for an int64 with the bit pattern `w`.
unfoldable pub positive64 : ℕ → Bool
positive64 w = ltb 0 w && ltb w (2 ^ 63)

add64-lt : (a b : ℕ) → add64 a b < modulus64
unfolding add64
add64-lt a b = omega arith

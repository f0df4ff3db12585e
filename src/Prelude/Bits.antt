-- ===== src/Prelude/Bits.antt =====
-- `|` and `&` of the native numbers, one binary digit at a time, and at the masks of the sources.
use Prim.Native.Nat.{
  ℕ, zero, suc, ◌+◌, ◌*◌, ◌/◌, ◌%◌, ◌≤◌, ◌<◌, min, max, bit_and, bit_or, digits, bit_and-bitwise,
  bit_or-bitwise,
}
use mathlib.Core.Path.{◌≡◌, refl}
use native.Mathlib.Omega.{arith}

-- Fuel above the first argument is not read.
module _ (z : ℕ → ℕ) (f : ℕ → ℕ → ℕ) where
  digits_enough : (n a b k : ℕ) → a ≤ n → n ≤ k → digits z f k a b ≡ digits z f n a b
  digits_enough zero zero b zero p q = refl
  digits_enough zero zero b (suc k) p q = refl
  digits_enough zero (suc a) b k p q = absurd (omega arith)
  digits_enough (suc n) a b zero p q = absurd (omega arith)
  digits_enough (suc n) zero b (suc k) p q = refl
  digits_enough (suc n) (suc a) b (suc k) p q =
      rw (digits_enough n (suc a / 2) (b / 2) k (omega arith) (omega arith))

-- The lowest digit apart from the others.
pub bit_or-double : (a b : ℕ) → bit_or a b ≡ 2 * bit_or (a / 2) (b / 2) + max (a % 2) (b % 2)
bit_or-double zero b = omega (arith, bit_or-bitwise 0 b, bit_or-bitwise 0 (b / 2))
bit_or-double (suc a) b = omega (
  arith,
  bit_or-bitwise (suc a) b,
  bit_or-bitwise (suc a / 2) (b / 2),
  digits_enough (λ y. y) max (suc a / 2) (suc a / 2) (b / 2) a (omega arith) (omega arith),
)

pub bit_and-double : (a b : ℕ) → bit_and a b ≡ 2 * bit_and (a / 2) (b / 2) + min (a % 2) (b % 2)
bit_and-double zero b = omega (arith, bit_and-bitwise 0 b, bit_and-bitwise 0 (b / 2))
bit_and-double (suc a) b = omega (
  arith,
  bit_and-bitwise (suc a) b,
  bit_and-bitwise (suc a / 2) (b / 2),
  digits_enough (λ y. 0) min (suc a / 2) (suc a / 2) (b / 2) a (omega arith) (omega arith),
)

bit_or-zero_below : (n a : ℕ) → a ≤ n → bit_or a 0 ≡ a
bit_or-zero_below n zero h = bit_or-bitwise 0 0
bit_or-zero_below zero (suc a) h = absurd (omega arith)
bit_or-zero_below (suc n) (suc a) h =
    omega (arith, bit_or-double (suc a) 0, bit_or-zero_below n (suc a / 2) (omega arith))

pub bit_or-zero : (a : ℕ) → bit_or a 0 ≡ a
bit_or-zero a = bit_or-zero_below a a (omega arith)

bit_and-zero_below : (n a : ℕ) → a ≤ n → bit_and a 0 ≡ 0
bit_and-zero_below n zero h = bit_and-bitwise 0 0
bit_and-zero_below zero (suc a) h = absurd (omega arith)
bit_and-zero_below (suc n) (suc a) h =
    omega (arith, bit_and-double (suc a) 0, bit_and-zero_below n (suc a / 2) (omega arith))

pub bit_and-zero : (a : ℕ) → bit_and a 0 ≡ 0
bit_and-zero a = bit_and-zero_below a a (omega arith)

-- One step of `(q << k) | r`.
bit_or-twice : (q r : ℕ) → bit_or (2 * q) r ≡ 2 * bit_or q (r / 2) + r % 2
bit_or-twice q r = ground (arith, bit_or-double (2 * q) r)

bit_or-nibble : (q r : ℕ) → bit_or (16 * q) r ≡ 16 * bit_or q (r / 16) + r % 16
bit_or-nibble q r = ground (
  arith,
  bit_or-twice (8 * q) r,
  bit_or-twice (4 * q) (r / 2),
  bit_or-twice (2 * q) (r / 4),
  bit_or-twice q (r / 8),
)

-- `(q << 8) | r` of a byte `r` is a sum.
pub bit_or_byte : (q r : ℕ) → r < 256 → bit_or (q * 256) r ≡ q * 256 + r
bit_or_byte q r h =
    ground (arith, bit_or-nibble (16 * q) r, bit_or-nibble q (r / 16), bit_or-zero q)

bit_or_comm_below : (n a b : ℕ) → a + b ≤ n → bit_or a b ≡ bit_or b a
bit_or_comm_below zero zero zero h = refl
bit_or_comm_below zero (suc a) b h = absurd (omega arith)
bit_or_comm_below zero zero (suc b) h = absurd (omega arith)
bit_or_comm_below (suc n) a b h =
    omega (
      arith,
      bit_or-double a b,
      bit_or-double b a,
      bit_or_comm_below n (a / 2) (b / 2) (omega arith),
    )

pub bit_or_comm : (a b : ℕ) → bit_or a b ≡ bit_or b a
bit_or_comm a b = bit_or_comm_below (a + b) a b (omega arith)

bit_and-nibble : (a m : ℕ) → bit_and a (16 * m + 15) ≡ 16 * bit_and (a / 16) m + a % 16
bit_and-nibble a m = ground (
  arith,
  bit_and-double a (16 * m + 15),
  bit_and-double (a / 2) (8 * m + 7),
  bit_and-double (a / 4) (4 * m + 3),
  bit_and-double (a / 8) (2 * m + 1),
)

-- The lowest three bytes.
pub bit_and_low24 : (a : ℕ) → bit_and a 0xFFFFFF ≡ a % 0x1000000
bit_and_low24 a = omega (
  arith,
  bit_and-nibble a 0xFFFFF,
  bit_and-nibble (a / 16) 0xFFFF,
  bit_and-nibble (a / 16 / 16) 0xFFF,
  bit_and-nibble (a / 16 / 16 / 16) 0xFF,
  bit_and-nibble (a / 16 / 16 / 16 / 16) 0xF,
  bit_and-nibble (a / 16 / 16 / 16 / 16 / 16) 0,
  bit_and-zero (a / 16 / 16 / 16 / 16 / 16 / 16),
)

-- ===== src/Prelude/Int.antt =====
-- `int` values that may be negative, and the casts that the sources make.
use Prim.Native.Nat.{ℕ, zero, suc, ◌-◌}
use cvra_bootloader.Prelude.Words.{u8}

-- `negsuc n` is -(n + 1).
pub data ℤ : Type 0 where
  pos : ℕ → ℤ
  negsuc : ℕ → ℤ

abbrev pub neg : ℕ → ℤ
neg zero = pos 0
neg (suc n) = negsuc n

-- `(uint8_t) i`
abbrev pub to_u8 : ℤ → ℕ
to_u8 (pos n) = u8 n
to_u8 (negsuc n) = 255 - u8 n

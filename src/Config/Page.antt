-- ===== src/Config/Page.antt =====
-- The page that config_write of config.c makes.
use cvra_bootloader.Prelude.{
  ℕ, zero, suc, ◌+◌, ◌*◌, ◌/◌, ◌^◌, ◌≤◌, ◌<◌, ◌≡◌, ◌∙◌, if◌then◌else◌, false, refl, ap₂, true, List,
  ◌++◌, arith, bit_or, ltb, ◌==◌, ◌||◌,
}
use cvra_bootloader.Prelude.Bits.{bit_or-double, bit_or-zero, bit_or_byte}
use cvra_bootloader.Prelude.Words.{u8, u32, ◌<<<◌, ◌>>>◌, be32}
use cvra_bootloader.Platform.{Platform, read_bytes}
use cvra_bootloader.Config.{
  Config, config_read_crc, config_calculate_crc, config_is_valid, config_write,
}

bit_or-nothing_below : (n a : ℕ) → a ≤ n → bit_or 0 a ≡ a
bit_or-nothing_below n zero h = bit_or-zero 0
bit_or-nothing_below zero (suc a) h = absurd (omega arith)
bit_or-nothing_below (suc n) (suc a) h =
    omega (arith, bit_or-double 0 (suc a), bit_or-nothing_below n (suc a / 2) (omega arith))

bit_or-twice : (q r : ℕ) → bit_or (2 * q) (2 * r) ≡ 2 * bit_or q r
bit_or-twice q r = ground (arith, bit_or-double (2 * q) (2 * r))

bit_or-halves : (a b q r : ℕ) → a ≡ 2 * q → b ≡ 2 * r → bit_or a b ≡ 2 * bit_or q r
bit_or-halves a b q r e e' = ap₂ bit_or e e' ∙ bit_or-twice q r

bit_or-shift8 : (a b q r : ℕ) → a ≡ 256 * q → b ≡ 256 * r → bit_or a b ≡ 256 * bit_or q r
bit_or-shift8 a b q r e e' = omega (
  arith,
  bit_or-halves a b (128 * q) (128 * r) (omega arith) (omega arith),
  bit_or-halves (128 * q) (128 * r) (64 * q) (64 * r) (omega arith) (omega arith),
  bit_or-halves (64 * q) (64 * r) (32 * q) (32 * r) (omega arith) (omega arith),
  bit_or-halves (32 * q) (32 * r) (16 * q) (16 * r) (omega arith) (omega arith),
  bit_or-halves (16 * q) (16 * r) (8 * q) (8 * r) (omega arith) (omega arith),
  bit_or-halves (8 * q) (8 * r) (4 * q) (4 * r) (omega arith) (omega arith),
  bit_or-halves (4 * q) (4 * r) (2 * q) (2 * r) (omega arith) (omega arith),
  bit_or-halves (2 * q) (2 * r) q r (omega arith) (omega arith),
)

bit_or-nothing : (a : ℕ) → bit_or 0 a ≡ a
bit_or-nothing a = bit_or-nothing_below a a (omega arith)

-- Four bytes, the highest first.
bit_or-word :
    (a b c d : ℕ)
    → b < 256
    → c < 256
    → d < 256
    → bit_or (bit_or (bit_or (a * 2 ^ 24) (b * 2 ^ 16)) (c * 2 ^ 8)) (d * 2 ^ 0)
      ≡ ((a * 256 + b) * 256 + c) * 256 + d
bit_or-word a b c d hb hc hd =
    let ab : bit_or (a * 2 ^ 24) (b * 2 ^ 16) ≡ (a * 256 + b) * 2 ^ 16 = omega (
      arith,
      bit_or-shift8 (a * 2 ^ 24) (b * 2 ^ 16) (a * 2 ^ 16) (b * 2 ^ 8) (omega arith) (omega arith),
      bit_or-shift8 (a * 2 ^ 16) (b * 2 ^ 8) (a * 256) b (omega arith) (omega arith),
      bit_or_byte a b hb,
    ) in
    let abc : bit_or ((a * 256 + b) * 2 ^ 16) (c * 2 ^ 8) ≡ ((a * 256 + b) * 256 + c) * 2 ^ 8 =
      omega (
        arith,
        bit_or-shift8 ((a * 256 + b) * 2 ^ 16) (c * 2 ^ 8) ((a * 256 + b) * 256) c (omega arith)
            (omega arith),
        bit_or_byte (a * 256 + b) c hc,
      ) in
    let abcd : bit_or (((a * 256 + b) * 256 + c) * 256) d ≡ ((a * 256 + b) * 256 + c) * 256 + d =
      bit_or_byte ((a * 256 + b) * 256 + c) d hd in
    rw (ab, abc) (ap₂ bit_or (omega arith) (omega arith) ∙ abcd)

-- config_read_crc reads back the four bytes of a word.
config_read_crc-be32 : (x : ℕ) (rest : List ℕ) → x < 2 ^ 32 → config_read_crc (be32 x ++ rest) ≡ x
unfolding config_read_crc
config_read_crc-be32 x rest h = ground (
  arith,
  bit_or-nothing (u32 (u8 (x >>> 24) <<< 24)),
  bit_or-word (u8 (x >>> 24)) (u8 (x >>> 16)) (u8 (x >>> 8)) (u8 (x >>> 0)) (omega arith)
      (omega arith) (omega arith),
)

in_bounds :
    (a b page lo hi : ℕ)
    → a ≡ b
    → lo ≤ page
    → page ≤ hi
    → (if ltb page lo || ltb hi page then false else a == b) ≡ true
in_bounds a b page lo hi e h h' = ground arith

module _ (p : Platform) where
  -- A page that config_write made is valid where it stands in flash memory, whatever the buffer held
  -- before, if a checksum is below 2^32 and the address lies in flash memory.
  pub config_write-config_is_valid :
      (buffer : List ℕ) (config : Config) (n page_size page : ℕ) (flash : p.Flash)
      → ((init : ℕ) (bytes : List ℕ) → p.crc32 init bytes < 2 ^ 32)
      → p.flash_begin ≤ page
      → page ≤ p.flash_end
      → read_bytes (p.byte_at flash) page page_size ≡ config_write p buffer config n
      → config_is_valid p flash page page_size ≡ true
  unfolding config_is_valid config_write config_calculate_crc
  config_write-config_is_valid buffer config n page_size page flash crc lo hi e =
      rw (e, config_read_crc-be32 _ _ (crc 0 _))
        (in_bounds _ _ page p.flash_begin p.flash_end refl lo hi)

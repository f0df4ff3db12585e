-- ===== src/Flash/Stm32f4/Sectors.antt =====
-- The sectors of the STM32F4's flash memory: the code against the table of the reference manual.
use cvra_bootloader.Prelude.{
  dec_lt, ℕ, ◌+◌, ◌-◌, ◌*◌, ◌≤◌, ◌<◌, ◌≡◌, true, arith, ltb, if◌then◌else◌,
}
use cvra_bootloader.Prelude.Bits.{bit_and_low24}
use cvra_bootloader.Flash.Stm32f4.{
  Hardware, flash_address_is_valid, flash_address_to_sector, flash_get_sector_size,
}

-- The table: four sectors of 16 kilobytes, one of 64, and then sectors of 128.
abbrev pub sector_start : ℕ → ℕ
sector_start n =
    if ltb n 4
    then 0x08000000 + n * 0x4000
    else if ltb n 5
    then 0x08010000
    else 0x08020000 + (n - 5) * 0x20000

abbrev pub sector_size : ℕ → ℕ
sector_size n = if ltb n 4 then 0x4000 else if ltb n 5 then 0x10000 else 0x20000

abbrev pub InSector : ℕ → ℕ → Type 0
InSector n x = (sector_start n ≤ x) × (x < sector_start n + sector_size n)

-- The sectors follow each other.
pub sector_start-next : (n : ℕ) → sector_start n + sector_size n ≡ sector_start (n + 1)
sector_start-next n = ground arith

pub sectors_in_order : (n m : ℕ) → n < m → sector_start n + sector_size n ≤ sector_start m
sectors_in_order n m l = ground arith

pub sector_start_le : (n m : ℕ) → n ≤ m → sector_start n ≤ sector_start m
sector_start_le n m l = ground arith

pub sector_below : (n m : ℕ) → sector_start n < sector_start m → n < m
sector_below n m l = ground arith

pub sector_end : (n : ℕ) → n < 12 → sector_start n + sector_size n ≤ 0x08100000
sector_end n l = ground arith

pub sector_unique : (n m x : ℕ) → InSector n x → InSector m x → n ≡ m
sector_unique n m x i i' = elim (dec_lt n m) [
  | yes l ↦ absurd (omega (arith, sectors_in_order n m l, i, i'))
  | no nl ↦ elim (dec_lt m n) [
    | yes l ↦ absurd (omega (arith, sectors_in_order m n l, i, i'))
    | no nl' ↦ omega (arith, nl, nl')
  ]
]

module _ (h : Hardware) (from : 0x08000000 ≤ h.flash_begin) where
  -- For a valid address below 0x08100000, the first bank, the code gives the sector of the reference
  -- manual's table that contains it, one of 12, and its size.
  pub sector_of_address :
      (a : ℕ)
      → flash_address_is_valid h a ≡ true
      → a < 0x08100000
      → InSector (flash_address_to_sector h a) a
        × (flash_address_to_sector h a < 12)
        × (flash_get_sector_size h a ≡ sector_size (flash_address_to_sector h a))
  unfolding flash_address_to_sector flash_get_sector_size flash_address_is_valid
  sector_of_address a v below = ground (arith, bit_and_low24 a)

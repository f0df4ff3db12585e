-- ===== src/Tests/Sectors.antt =====
-- A flash memory in sectors, as of the STM32F4.
use cvra_bootloader.Prelude.{
  ℕ, ◌+◌, ◌≡◌, ◌⊎◌, inl, inr, refl, Bool, true, false, ◌&&◌, arith, if◌then◌else◌, leb, ltb,
  Bool-cases,
}
use cvra_bootloader.Flash.Stm32f4
use cvra_bootloader.Flash.Stm32f4.Sectors.{InSector, sector_start, sector_size}
use cvra_bootloader.Flash.Stm32f4.Flags
use cvra_bootloader.Tests.Toy.{programmed}

-- Half a megabyte of flash memory in sectors, from 0x08000000 on.
abbrev pub in_sector : ℕ → ℕ → Bool
in_sector n x = leb (sector_start n) x && ltb x (sector_start n + sector_size n)

-- With a given FLASH_SECTOR_INDEX_MAX.
abbrev pub sectors_of : ℕ → Stm32f4.Hardware
sectors_of max = record {
  Hw = ℕ → ℕ;
  flash_unlock = λ s. s;
  flash_lock = λ s. s;
  flash_erase_sector = λ s n. (true, λ x. if in_sector n x then 0xff else s x);
  flash_program = λ s a bytes. programmed s a bytes;
  flash_begin = 0x08000000;
  flash_end = 0x08080000;
  flash_sector_index_max = max;
}

pub sectors-IsFlash : (max : ℕ) → Flags.IsFlash (sectors_of max) (λ s x. s x)
sectors-IsFlash max = record {
  unlock_same = λ s x. refl;
  lock_same = λ s x. refl;
  erase_erases = λ s n x good i. ground (arith, i);
  erase_apart = λ s n x out. erased_apart s n x (Bool-cases (in_sector n x)) out;
  program_apart = λ s a bytes x out. ground (arith, out);
}
  where
    erased_apart :
        (s : ℕ → ℕ) (n x : ℕ)
        → (in_sector n x ≡ true) ⊎ (in_sector n x ≡ false)
        → ¬ InSector n x
        → (if in_sector n x then 0xff else s x) ≡ s x
    erased_apart s n x (inl y) out = absurd (out (ground (arith, y), ground (arith, y)))
    erased_apart s n x (inr y) out = rw y refl

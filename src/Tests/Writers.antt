-- ===== src/Tests/Writers.antt =====
-- The theorems on the flash writers at concrete inputs.
use cvra_bootloader.Prelude.{
  ℕ, ◌+◌, ◌/◌, ◌%◌, ◌<◌, ◌^◌, ◌≡◌, inl, refl, Bool, true, false, ◌&&◌, ◌==◌, List, ◌∷◌, some, arith,
  length, replicate, if◌then◌else◌,
}
use cvra_bootloader.Prelude.Words.{u32, AllBytes}
use cvra_bootloader.Config.{config_write}
use cvra_bootloader.Command.Settings.{write_config_pages}
use cvra_bootloader.Command.Protection.{Confines}
use cvra_bootloader.Flash.Stm32f1
use cvra_bootloader.Flash.Stm32f1.Programmed.{IsFlash}
use cvra_bootloader.Flash.Stm32f1.Pages.{IsPage}
use cvra_bootloader.Flash.Stm32f1.Configured.{
  on_stm32f1, IsLaidOut, IsSaved, write_config_pages-IsSaved,
}
use cvra_bootloader.Flash.Stm32f4
use cvra_bootloader.Flash.Stm32f4.Sectors.{InSector, sector_start, sector_size, sector_of_address}
use cvra_bootloader.Flash.Stm32f4.Flags
use cvra_bootloader.Flash.Stm32f4.Reached.{
  at_once, later, erases, reached-AreSound, erasure_is_skipped,
}
use cvra_bootloader.Flash.Stm32f4.Confined.{on_stm32f4, stm32f4-Confines}
use cvra_bootloader.Tests.Sectors.{in_sector, sectors_of, sectors-IsFlash}
use cvra_bootloader.Tests.Toy.{toy, config, total, programmed}

-- A flash memory with pages of eight bytes, its lock, and its address register.
record Chip : Type 0 where
  mem : ℕ → ℕ
  unlocked : Bool
  ar : ℕ

abbrev erased : Chip → Chip
erased s = record s { mem = λ x. if s.unlocked && x / 8 == s.ar / 8 then 0xff else s.mem x }

abbrev stored : Chip → ℕ → ℕ → Chip
stored s a v = record s {
  mem = λ x.
      if s.unlocked && x == a
      then v % 0x100
      else if s.unlocked && x == a + 1
      then v / 0x100
      else s.mem x;
}

abbrev chip : Stm32f1.Hardware
chip = record {
  Hw = Chip;
  byte_at = λ s x. s.mem x;
  flash_unlock = λ s. record s { unlocked = true };
  flash_lock = λ s. record s { unlocked = false };
  flash_wait_for_last_operation = λ s. s;
  cr_set = λ s bits. if bits == 64 then erased s else s;
  cr_clear = λ s bits. s;
  ar_write = λ s a. record s { ar = a };
  sr_set = λ s bits. s;
  store = stored;
  flash_cr_per = 2;
  flash_cr_strt = 64;
  flash_cr_pg = 1;
  flash_sr_eop = 32;
}

chip-IsFlash : IsFlash chip 8
chip-IsFlash = record {
  is_unlocked = λ s. s.unlocked;
  unlock_unlocks = λ s. refl;
  wait_unlocked = λ s. refl;
  clear_unlocked = λ s. refl;
  erase_unlocked = λ s a. refl;
  program_unlocked = λ s a v. refl;
  unlock_same = λ s x. refl;
  lock_same = λ s x. refl;
  wait_same = λ s x. refl;
  clear_same = λ s bits x. refl;
  sr_same = λ s bits x. refl;
  erase_erases = λ s a x u e. ground arith;
  erase_apart = λ s a x n. ground (arith, n);
  program_programs = λ s a v u e l b b'. (ground arith, ground arith);
  program_apart = λ s a v x n n'. ground (arith, n, n');
}

at_8-IsPage : IsPage chip 8 chip-IsFlash 8
at_8-IsPage = record { number = 1; start = refl; even = refl }

at_16-IsPage : IsPage chip 8 chip-IsFlash 16
at_16-IsPage = record { number = 2; start = refl; even = refl }

abbrev used : Chip
used = record { mem = λ x. 7; unlocked = false; ar = 0 }

toy-IsLaidOut : IsLaidOut toy chip chip-IsFlash
toy-IsLaidOut = record {
  some = omega arith;
  even = refl;
  page1 = at_8-IsPage;
  page2 = at_16-IsPage;
  disjoint = inl (omega arith);
  from1 = omega arith;
  to1 = omega arith;
  from2 = omega arith;
  to2 = omega arith;
}

abbrev blank : List ℕ
blank = replicate 8 0

full : length (config_write (on_stm32f1 toy chip) blank config 8) ≡ 8
unfolding config_write
full = refl

all_bytes : AllBytes (config_write (on_stm32f1 toy chip) blank config 8)
unfolding config_write
all_bytes = (
  omega arith,
  (
    omega arith,
    (omega arith, (omega arith, (omega arith, (omega arith, (omega arith, (omega arith, tt)))))),
  ),
)

word : (init : ℕ) (bytes : List ℕ) → u32 (init + total bytes) < 2 ^ 32
word init bytes = omega arith

write_config_pages-IsSaved_example :
    IsSaved toy chip chip-IsFlash used (config_write (on_stm32f1 toy chip) blank config 8) (
      write_config_pages
        (on_stm32f1 toy chip)
        used
        (config_write (on_stm32f1 toy chip) blank config 8))
write_config_pages-IsSaved_example =
    write_config_pages-IsSaved toy chip chip-IsFlash toy-IsLaidOut blank config 8 full all_bytes
      word used

abbrev sectors : Stm32f4.Hardware
sectors = sectors_of 11

abbrev full_memory : Stm32f4.Writer sectors
full_memory = record { hw = λ x. 7; flash_sector_is_erased = λ n. false }

valid_address : Stm32f4.flash_address_is_valid sectors 0x08010004 ≡ true
unfolding Stm32f4.flash_address_is_valid
valid_address = refl

sector_of_address_example :
    InSector (Stm32f4.flash_address_to_sector sectors 0x08010004) 0x08010004
    × (Stm32f4.flash_address_to_sector sectors 0x08010004 < 12)
    × (Stm32f4.flash_get_sector_size sectors 0x08010004
        ≡ sector_size (Stm32f4.flash_address_to_sector sectors 0x08010004))
sector_of_address_example =
    sector_of_address sectors (omega arith) 0x08010004 valid_address (omega arith)

-- The sector 4 is erased.
abbrev sector_erased : Stm32f4.Writer sectors
sector_erased = record {
  hw = λ x. if in_sector 4 x then 0xff else 7;
  flash_sector_is_erased = Stm32f4.flagged (λ n. false) 4 true;
}

erases_4 : Stm32f4.flash_writer_page_erase sectors full_memory 0x08010004 ≡ some sector_erased
unfolding Stm32f4.flash_writer_page_erase Stm32f4.flash_address_to_sector
erases_4 = refl

reached-AreSound_example : Flags.AreSound sectors (λ s x. s x) sector_erased
reached-AreSound_example =
    reached-AreSound sectors (λ s x. s x) (sectors-IsFlash 11) (omega arith) (λ n. refl)
      (later full_memory full_memory sector_erased (at_once full_memory)
        (erases full_memory sector_erased 0x08010004 erases_4))

stm32f4-Confines_example :
    Confines (on_stm32f4 toy sectors (λ s x. s x)) (sector_start 1)
    × ((w : Stm32f4.Writer sectors) (page : ℕ)
        → (w' : Stm32f4.Writer sectors) × (Stm32f4.flash_writer_page_erase sectors w page
            ≡ some w'))
stm32f4-Confines_example =
    stm32f4-Confines sectors (λ s x. s x) (sectors-IsFlash 11) toy 1 (omega arith) (omega arith)
      (omega arith)

-- Sixteen bytes at the end of sector 1, with sector 2 erased: they end behind its start.
abbrev second_erased : Stm32f4.Writer sectors
second_erased = record {
  hw = λ x. if in_sector 2 x then 0xff else 7;
  flash_sector_is_erased = Stm32f4.flagged (λ n. false) 2 true;
}

abbrev crossing : List ℕ
crossing = replicate 15 0

starts_valid : Stm32f4.flash_address_is_valid sectors 0x08007FF8 ≡ true
unfolding Stm32f4.flash_address_is_valid
starts_valid = refl

stops_valid : Stm32f4.flash_address_is_valid sectors 0x08008008 ≡ true
unfolding Stm32f4.flash_address_is_valid
stops_valid = refl

size_of_first : Stm32f4.flash_get_sector_size sectors 0x08007FF8 ≡ 0x4000
unfolding Stm32f4.flash_get_sector_size Stm32f4.flash_address_is_valid
size_of_first = refl

next_valid :
    Stm32f4.flash_address_is_valid sectors
      (u32 (0x08007FF8 + Stm32f4.flash_get_sector_size sectors 0x08007FF8))
    ≡ true
unfolding Stm32f4.flash_get_sector_size Stm32f4.flash_address_is_valid
next_valid = refl

first_sector : Stm32f4.flash_address_to_sector sectors 0x08007FF8 ≡ 1
unfolding Stm32f4.flash_address_to_sector Stm32f4.flash_address_is_valid
first_sector = refl

second_sector : Stm32f4.flash_address_to_sector sectors 0x08008000 ≡ 2
unfolding Stm32f4.flash_address_to_sector Stm32f4.flash_address_is_valid
second_sector = refl

flag_set :
    second_erased.flash_sector_is_erased (Stm32f4.flash_address_to_sector sectors 0x08008000) ≡ true
unfolding Stm32f4.flash_address_to_sector Stm32f4.flash_address_is_valid
flag_set = refl

erasure_is_skipped_example :
    let w' = Stm32f4.flash_writer_page_write sectors second_erased 0x08007FF8 (0 ∷ crossing) in
    (w'.hw ≡ programmed second_erased.hw 0x08007FF8 (0 ∷ crossing))
    × (Stm32f4.flash_writer_page_erase sectors w' 0x08008000 ≡ some w')
erasure_is_skipped_example =
    erasure_is_skipped sectors second_erased 0x08007FF8 0 crossing 0x08008000 starts_valid
      stops_valid next_valid (omega (arith, first_sector)) (omega (arith, size_of_first))
      (omega (arith, size_of_first)) (λ e. absurd (omega (arith, e, first_sector, second_sector)))
      (omega (arith, second_sector)) flag_set

-- ===== src/Flash/Stm32f4.antt =====
-- platform/mcu/stm32f4/flash_writer.c.
pub mod Apart
pub mod Programming
pub mod Sectors
pub mod Flags
pub mod Reached
pub mod Confined
use cvra_bootloader.Prelude.{
  ℕ, zero, suc, ◌+◌, ◌/◌, Bool, true, false, not, ◌&&◌, ◌||◌, List, Option, none, some, bit_and,
  ◌==◌, ltb, leb, if◌then◌else◌, length,
}
use cvra_bootloader.Prelude.Words.{u8, u32}

-- The functions of libopencm3 on the flash memory and its registers. An erasure and a programming
-- tell whether the status register shows no error behind them.
pub record Hardware : Type 1 where
  pub Hw : Type 0
  pub flash_unlock : Hw → Hw
  pub flash_lock : Hw → Hw
  pub flash_erase_sector : Hw → ℕ → Bool × Hw
  pub flash_program : Hw → ℕ → List ℕ → Hw
  pub flash_begin : ℕ
  pub flash_end : ℕ
  -- FLASH_SECTOR_INDEX_MAX, which platform.h of a board may set: the size of flash_sector_is_erased.
  pub flash_sector_index_max : ℕ

-- How the loop of flash_writer_page_write ends: behind the last sector, with `return`, or not within
-- its fuel. The flags as they are then.
pub data Marking : Type 0 where
  marked : (ℕ → Bool) → Marking
  given_up : (ℕ → Bool) → Marking
  unfinished : (ℕ → Bool) → Marking

-- An assignment to an element of `flash_sector_is_erased`.
abbrev pub flagged : (ℕ → Bool) → ℕ → Bool → ℕ → Bool
flagged flags sector b j = if j == sector then b else flags j

module _ (h : Hardware) where
  -- The hardware, and `flash_sector_is_erased`.
  pub record Writer : Type 0 where
    pub hw : h.Hw
    pub flash_sector_is_erased : ℕ → Bool

  unfoldable pub flash_address_is_valid : ℕ → Bool
  flash_address_is_valid address = ltb h.flash_begin address && leb address h.flash_end

  unfoldable pub flash_address_to_sector : ℕ → ℕ
  unfolding flash_address_is_valid
  flash_address_to_sector addr =
      let offset = bit_and addr 0xFFFFFF in
      let sector = u8 (
        if ltb offset 0x10000
        then offset / 0x4000
        else if ltb offset 0x20000
        then 3 + offset / 0x10000
        else 4 + offset / 0x20000) in
      if flash_address_is_valid addr
      then (if leb 0x08100000 addr then u8 (sector + 12) else sector)
      else 0

  unfoldable pub flash_get_sector_size : ℕ → ℕ
  unfolding flash_address_is_valid
  flash_get_sector_size address =
      if flash_address_is_valid address
      then (if ltb address 0x08010000
          then 0x4000
          else if ltb address 0x08020000
          then 0x10000
          else 0x20000)
      else 0

  unfoldable pub flash_writer_unlock : Writer → Writer
  flash_writer_unlock w = record w { hw = h.flash_unlock w.hw }

  unfoldable pub flash_writer_lock : Writer → Writer
  flash_writer_lock w = record w { hw = h.flash_lock w.hw }

  -- `none` is the read of `flash_sector_is_erased` outside of the array.
  unfoldable pub flash_writer_page_erase : Writer → ℕ → Option Writer
  flash_writer_page_erase w page =
      let sector = flash_address_to_sector page in
      let (good, hw) = h.flash_erase_sector w.hw sector in
      if not (flash_address_is_valid page)
      then some w
      else if leb h.flash_sector_index_max sector
      then none
      else if w.flash_sector_is_erased sector
      then some w
      else if good
      then some (record {
        hw = hw;
        flash_sector_is_erased = flagged w.flash_sector_is_erased sector true;
      })
      else some (record w { hw = hw })

  -- `while (a < page + len)`, on fuel.
  unfoldable pub mark_sectors : ℕ → (ℕ → Bool) → ℕ → ℕ → Marking
  mark_sectors zero flags a stop = if ltb a stop then unfinished flags else marked flags
  mark_sectors (suc fuel) flags a stop =
      let sector = flash_address_to_sector a in
      let flags' = flagged flags sector false in
      let a' = u32 (a + flash_get_sector_size a) in
      let rest = mark_sectors fuel flags' a' stop in
      if not (ltb a stop)
      then marked flags
      else if leb h.flash_sector_index_max sector
      then given_up flags
      else if flash_address_is_valid a'
      then rest
      else given_up flags'

  -- What comes behind the loop. The `return` inside of it leaves the flags as they are then.
  abbrev pub program_marked : Writer → ℕ → List ℕ → Marking → Writer
  program_marked w page bytes (marked flags) = record {
    hw = h.flash_program w.hw page bytes;
    flash_sector_is_erased = flags;
  }
  program_marked w page bytes (given_up flags) = record w { flash_sector_is_erased = flags }
  program_marked w page bytes (unfinished flags) = record w { flash_sector_is_erased = flags }

  -- `len` rounds are enough, since a sector is not empty.
  unfoldable pub flash_writer_page_write : Writer → ℕ → List ℕ → Writer
  flash_writer_page_write w page bytes =
      let stop = u32 (page + length bytes) in
      if not (flash_address_is_valid page) || not (flash_address_is_valid stop)
      then w
      else program_marked w page bytes
          (mark_sectors (length bytes) w.flash_sector_is_erased page stop)

-- ===== src/Flash/Stm32f4/Reached.antt =====
-- Sequences of calls of the STM32F4's flash writer.
use mathlib.Core.Path.{subst}
use cvra_bootloader.Prelude.{
  ℕ, zero, suc, ◌+◌, ◌≤◌, ◌<◌, ◌≡◌, ◌≢◌, refl, Bool, true, false, Bool-cases, inl, inr, List, ◌∷◌,
  some, length, arith, ltb, leb,
}
use cvra_bootloader.Prelude.Words.{u32}
use cvra_bootloader.Flash.Stm32f4.{
  Hardware, Writer, marked, flagged, flash_address_is_valid, flash_get_sector_size,
  flash_address_to_sector, flash_writer_unlock, flash_writer_lock, flash_writer_page_erase,
  mark_sectors, flash_writer_page_write,
}
use cvra_bootloader.Flash.Stm32f4.Sectors.{sector_start, sector_size}
use cvra_bootloader.Flash.Stm32f4.Flags.{
  IsFlash, AreSound, OnSome, unlock-AreSound, lock-AreSound, page_erase-AreSound,
  page_write-AreSound,
}

module _ (h : Hardware) where
  -- A call of the flash writer. A write stays in the sector of its first byte.
  pub data Step : Writer h → Writer h → Type 0 where
    unlocks : (w : Writer h) → Step w (flash_writer_unlock h w)
    locks : (w : Writer h) → Step w (flash_writer_lock h w)
    erases : (w w' : Writer h) (page : ℕ) → flash_writer_page_erase h w page ≡ some w' → Step w w'
    writes :
        (w : Writer h) (page : ℕ) (bytes : List ℕ)
        → page < 0x08100000
        → page + length bytes
          ≤ sector_start (flash_address_to_sector h page)
            + sector_size (flash_address_to_sector h page)
        → Step w (flash_writer_page_write h w page bytes)

  pub data Reaches : Writer h → Writer h → Type 0 where
    at_once : (w : Writer h) → Reaches w w
    later : (w w' w'' : Writer h) → Reaches w w' → Step w' w'' → Reaches w w''

  module _ (byte_at : h.Hw → ℕ → ℕ) (k : IsFlash h byte_at)
      (from : 0x08000000 ≤ h.flash_begin) where
    Step-AreSound : {w w' : Writer h} → Step w w' → AreSound h byte_at w → AreSound h byte_at w'
    Step-AreSound (unlocks w) sound = unlock-AreSound h byte_at k w sound
    Step-AreSound (locks w) sound = lock-AreSound h byte_at k w sound
    Step-AreSound (erases w w' page e) sound =
        subst (OnSome h byte_at) e (page_erase-AreSound h byte_at k w page sound)
    Step-AreSound (writes w page bytes below inside) sound =
        page_write-AreSound h byte_at k w page bytes from below inside sound

  -- From the start, where no flag is set, and through all sequences of calls whose writes each stay in one
  -- sector of the first bank, errors of the hardware included: a sector whose flag is set, which
  -- page_erase does not erase again, holds nothing but 0xFF. The flash memory works as its manual says.
  pub reached-AreSound :
      (byte_at : h.Hw → ℕ → ℕ)
      → IsFlash h byte_at
      → 0x08000000 ≤ h.flash_begin
      → {w w' : Writer h} → ((n : ℕ) → w.flash_sector_is_erased n ≡ false)
      → Reaches w w'
      → AreSound h byte_at w'
  reached-AreSound byte_at k from clear (at_once w) = λ n f x i. absurd (ground (arith, f, clear n))
  reached-AreSound byte_at k from clear (later w w' w'' r s) =
      Step-AreSound byte_at k from s (reached-AreSound byte_at k from clear r)

  past_the_end :
      (fuel : ℕ) (flags : ℕ → Bool) (a stop : ℕ)
      → stop ≤ a
      → mark_sectors h fuel flags a stop ≡ marked flags
  unfolding mark_sectors
  past_the_end zero flags a stop l = ground arith
  past_the_end (suc fuel) flags a stop l = ground arith

  one_round :
      (w : Writer h) (page b : ℕ) (bytes : List ℕ)
      → flash_address_is_valid h page ≡ true
      → flash_address_is_valid h (u32 (page + suc (length bytes))) ≡ true
      → flash_address_is_valid h (u32 (page + flash_get_sector_size h page)) ≡ true
      → flash_address_to_sector h page < h.flash_sector_index_max
      → page + flash_get_sector_size h page < 0x100000000
      → suc (length bytes) ≤ flash_get_sector_size h page
      → flash_writer_page_write h w page (b ∷ bytes) ≡ record {
        hw = h.flash_program w.hw page (b ∷ bytes);
        flash_sector_is_erased =
            flagged w.flash_sector_is_erased (flash_address_to_sector h page) false;
      }
  unfolding flash_writer_page_write mark_sectors
  one_round w page b bytes v v' next few small fits =
      let a' = u32 (page + flash_get_sector_size h page) in
      let stop = u32 (page + suc (length bytes)) in
      let flags' = flagged w.flash_sector_is_erased (flash_address_to_sector h page) false in
      let started : ltb page stop ≡ true = ground arith in
      let room : leb h.flash_sector_index_max (flash_address_to_sector h page) ≡ false =
        ground arith in
      let ended = past_the_end (length bytes) flags' a' stop (omega arith) in
      rw (v, v', started, room, next, ended) refl

  -- A write of at most a sector's size that begins inside of a sector and ends in the next one clears
  -- the flag of the first only: an erasure of another sector whose flag is set is then skipped, though
  -- the write may have programmed it. The addresses that the code checks are valid, and the first
  -- sector has a number below 11.
  pub erasure_is_skipped :
      (w : Writer h) (page b : ℕ) (bytes : List ℕ) (a : ℕ)
      → flash_address_is_valid h page ≡ true
      → flash_address_is_valid h (u32 (page + suc (length bytes))) ≡ true
      → flash_address_is_valid h (u32 (page + flash_get_sector_size h page)) ≡ true
      → flash_address_to_sector h page < h.flash_sector_index_max
      → page + flash_get_sector_size h page < 0x100000000
      → suc (length bytes) ≤ flash_get_sector_size h page
      → flash_address_to_sector h a ≢ flash_address_to_sector h page
      → flash_address_to_sector h a < h.flash_sector_index_max
      → w.flash_sector_is_erased (flash_address_to_sector h a) ≡ true
      → let w' = flash_writer_page_write h w page (b ∷ bytes) in
        (w'.hw ≡ h.flash_program w.hw page (b ∷ bytes)) × (flash_writer_page_erase h w' a ≡ some w')
  unfolding flash_writer_page_erase
  erasure_is_skipped w page b bytes a v v' next few small fits other few' f =
      let kept : flagged w.flash_sector_is_erased (flash_address_to_sector h page) false
            (flash_address_to_sector h a)
          ≡ true =
        ground (arith, f, other) in
      let room : leb h.flash_sector_index_max (flash_address_to_sector h a) ≡ false =
        ground (arith, few') in
      rw (one_round w page b bytes v v' next few small fits)
        (elim (Bool-cases (flash_address_is_valid h a)) [
          | inl y ↦ rw (y, room, kept) (refl, refl)
          | inr y ↦ rw y (refl, refl)
        ])

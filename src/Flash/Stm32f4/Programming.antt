-- ===== src/Flash/Stm32f4/Programming.antt =====
-- flash_writer_page_write of the STM32F4: its loop ends, and which writes it leaves out.
use cvra_bootloader.Prelude.{
  ℕ, zero, suc, ◌+◌, ◌≤◌, ◌<◌, ◌≡◌, refl, inl, inr, ◌∷◌, Bool-cases, Bool, true, false, List, arith,
  length, ltb,
}
use cvra_bootloader.Prelude.Words.{u32}
use cvra_bootloader.Flash.Stm32f4.{
  Hardware, Writer, Marking, marked, given_up, unfinished, flagged, flash_address_is_valid,
  flash_get_sector_size, flash_address_to_sector, mark_sectors, flash_writer_page_write,
}

abbrev pub is_finished : Marking → Bool
is_finished (marked flags) = true
is_finished (given_up flags) = true
is_finished (unfinished flags) = false

module _ (h : Hardware) (small : h.flash_end < 0xFF000000) where
  size_some :
      (a : ℕ)
      → flash_address_is_valid h a ≡ true
      → (1 ≤ flash_get_sector_size h a) × (a + flash_get_sector_size h a < 0x100000000)
  unfolding flash_get_sector_size flash_address_is_valid
  size_some a v = ground arith

  behind_end : (a : ℕ) → h.flash_end < a → flash_address_is_valid h a ≡ false
  unfolding flash_address_is_valid
  behind_end a l = ground arith

  in_order :
      (page n : ℕ)
      → flash_address_is_valid h page ≡ true
      → n < 0xFFFFFF
      → ltb page (u32 (page + suc n)) ≡ true
  unfolding flash_address_is_valid
  in_order page n v few = ground arith

  -- The loop that marks the sectors of a write ends after at most one round per byte, from a valid
  -- address on, if flash memory ends below 0xFF000000: so much fuel is enough.
  pub mark_sectors-is_finished :
      (fuel : ℕ) (flags : ℕ → Bool) (a stop : ℕ)
      → flash_address_is_valid h a ≡ true
      → stop ≤ a + fuel
      → is_finished (mark_sectors h fuel flags a stop) ≡ true
  unfolding mark_sectors
  mark_sectors-is_finished zero flags a stop v e = ground arith
  mark_sectors-is_finished (suc fuel) flags a stop v e =
      let sector = flash_address_to_sector h a in
      let a' = u32 (a + flash_get_sector_size h a) in
      let (some_size, no_wrap) = size_some a v in
      let far : stop ≤ a' + fuel = omega arith in
      elim (Bool-cases (flash_address_is_valid h a')) [
        | inl v' ↦
            let rest = mark_sectors-is_finished fuel (flagged flags sector false) a' stop v' far in
            ground arith
        | inr n ↦ ground arith
      ]

  -- A write of 1 byte to less than 16 megabytes, whose first address is less than a sector's size in
  -- front of the end of flash memory, is left out: nothing is programmed. Flash memory ends below
  -- 0xFF000000.
  write_left_out :
      (w : Writer h) (page : ℕ) (b : ℕ) (bs : List ℕ)
      → length bs < 0xFFFFFF
      → h.flash_end < page + flash_get_sector_size h page
      → (flash_writer_page_write h w page (b ∷ bs)).hw ≡ w.hw
  unfolding flash_writer_page_write mark_sectors
  write_left_out w page b bs few over =
      let next = u32 (page + flash_get_sector_size h page) in
      elim (Bool-cases (flash_address_is_valid h page)) [
        | inl v ↦
            let (some_size, no_wrap) = size_some page v in
            let behind : flash_address_is_valid h next ≡ false = behind_end next (omega arith) in
            let before : ltb page (u32 (page + suc (length bs))) ≡ true =
              in_order page (length bs) v few in
            rw (v, behind, before) (ground arith)
        | inr n ↦ rw n refl
      ]

-- ===== src/Flash/Stm32f4/Confined.antt =====
-- What the safety of the core asks of its flash writer, from that of the STM32F4.
use mathlib.Core.Path.{subst}
use cvra_bootloader.Prelude.{
  ap, sym, ◌∙◌, ℕ, ◌+◌, ◌≤◌, ◌<◌, ◌≡◌, ◌⊎◌, refl, Bool, true, false, Bool-cases, inl, inr, dec_lt,
  List, Option, none, some, length, arith, leb, if◌then◌else◌,
}
use cvra_bootloader.Prelude.Words.{u32}
use cvra_bootloader.Platform.{Platform, FlashWriter}
use cvra_bootloader.Command.Protection.{Confines}
use cvra_bootloader.Flash.Stm32f4.{
  Hardware, Writer, Marking, marked, given_up, unfinished, flagged, flash_address_is_valid,
  flash_address_to_sector, flash_writer_unlock, flash_writer_lock, flash_writer_page_erase,
  mark_sectors, flash_writer_page_write, program_marked,
}
use cvra_bootloader.Flash.Stm32f4.Sectors.{
  sector_start, InSector, sectors_in_order, sector_start_le, sector_below, sector_of_address,
}
use cvra_bootloader.Flash.Stm32f4.Flags.{IsFlash}

abbrev pub or_before : (h : Hardware) → Writer h → Option (Writer h) → Writer h
or_before h w none = w
or_before h w (some w') = w'

-- flash_writer.h filled by the writer. Where page_erase is `none`, it is taken to change nothing; it is
-- never `none` under the conditions of page_erase_in_array.
abbrev pub stm32f4_writer : (h : Hardware) → (h.Hw → ℕ → ℕ) → FlashWriter
stm32f4_writer h byte_at = record {
  Flash = Writer h;
  byte_at = λ w x. byte_at w.hw x;
  unlock = flash_writer_unlock h;
  lock = flash_writer_lock h;
  page_erase = λ w page. or_before h w (flash_writer_page_erase h w page);
  page_write = flash_writer_page_write h;
}

abbrev pub on_stm32f4 : Platform → (h : Hardware) → (h.Hw → ℕ → ℕ) → Platform
on_stm32f4 p h byte_at = record p { flash_writer = stm32f4_writer h byte_at }

module _ (h : Hardware) (byte_at : h.Hw → ℕ → ℕ) (k : IsFlash h byte_at) where
  pub unlock-kept : (w : Writer h) (x : ℕ) → byte_at (flash_writer_unlock h w).hw x ≡ byte_at w.hw x
  unfolding flash_writer_unlock
  unlock-kept w x = k.unlock_same w.hw x

  pub lock-kept : (w : Writer h) (x : ℕ) → byte_at (flash_writer_lock h w).hw x ≡ byte_at w.hw x
  unfolding flash_writer_lock
  lock-kept w x = k.lock_same w.hw x

  marked-kept :
      (w : Writer h) (page : ℕ) (bytes : List ℕ) (m : Marking) (x : ℕ)
      → x < page ⊎ page + length bytes ≤ x
      → byte_at (program_marked h w page bytes m).hw x ≡ byte_at w.hw x
  marked-kept w page bytes (marked flags) x out = k.program_apart w.hw page bytes x out
  marked-kept w page bytes (given_up flags) x out = refl
  marked-kept w page bytes (unfinished flags) x out = refl

  pub page_write-kept :
      (w : Writer h) (page : ℕ) (bytes : List ℕ) (x : ℕ)
      → x < page ⊎ page + length bytes ≤ x
      → byte_at (flash_writer_page_write h w page bytes).hw x ≡ byte_at w.hw x
  unfolding flash_writer_page_write
  page_write-kept w page bytes x out =
      let stop = u32 (page + length bytes) in
      elim (Bool-cases (flash_address_is_valid h page)) [
        | inr v ↦ rw v refl
        | inl v ↦ elim (Bool-cases (flash_address_is_valid h stop)) [
          | inr v' ↦ rw (v, v') refl
          | inl v' ↦
              rw (v, v')
                (marked-kept w page bytes
                  (mark_sectors h (length bytes) w.flash_sector_is_erased page stop) x out)
        ]
      ]

  pub page_erase-kept :
      (w : Writer h) (page x : ℕ)
      → (flash_address_is_valid h page ≡ true → ¬ InSector (flash_address_to_sector h page) x)
      → byte_at (or_before h w (flash_writer_page_erase h w page)).hw x ≡ byte_at w.hw x
  unfolding flash_writer_page_erase
  page_erase-kept w page x apart =
      let n = flash_address_to_sector h page in
      elim (Bool-cases (flash_address_is_valid h page)) [
        | inr v ↦ rw v refl
        | inl v ↦ elim (Bool-cases (leb h.flash_sector_index_max n)) [
          | inl l ↦ rw (v, l) refl
          | inr l ↦ elim (Bool-cases (w.flash_sector_is_erased n)) [
            | inl f ↦ rw (v, l, f) refl
            | inr f ↦ elim (Bool-cases (h.flash_erase_sector w.hw n).0) [
              | inl good ↦ rw (v, l, f, good) (k.erase_apart w.hw n x (apart v))
              | inr bad ↦ rw (v, l, f, bad) (k.erase_apart w.hw n x (apart v))
            ]
          ]
        ]
      ]

  either_way :
      (b c : Bool) (w1 w2 w3 : Writer h)
      → (w' : Writer h) × ((if b then some w1 else if c then some w2 else some w3) ≡ some w')
  either_way true c w1 w2 w3 = (w1, refl)
  either_way false true w1 w2 w3 = (w2, refl)
  either_way false false w1 w2 w3 = (w3, refl)

  valid_to_end : (a : ℕ) → flash_address_is_valid h a ≡ true → a ≤ h.flash_end
  unfolding flash_address_is_valid
  valid_to_end a v = ground arith

  module _ (from : 0x08000000 ≤ h.flash_begin) (to : h.flash_end < 0x08100000) where
    -- When flash memory lies from 0x08000000 to below 0x08100000 and ends in a sector of the array,
    -- every call of page_erase reads flash_sector_is_erased within the array.
    page_erase_in_array :
        h.flash_end < sector_start h.flash_sector_index_max
        → (w : Writer h) (page : ℕ) → (w' : Writer h) × (flash_writer_page_erase h w page ≡ some w')
    unfolding flash_writer_page_erase
    page_erase_in_array enough w page =
        let n = flash_address_to_sector h page in
        elim (Bool-cases (flash_address_is_valid h page)) [
          | inr v ↦ rw v (w, refl)
          | inl v ↦
              let (here, few, size) =
                sector_of_address h from page v (omega (arith, valid_to_end page v)) in
              let l' : n < h.flash_sector_index_max =
                sector_below n h.flash_sector_index_max
                  (omega (arith, here, valid_to_end page v, enough)) in
              let l : leb h.flash_sector_index_max n ≡ false = ground (arith, l') in
              rw (v, l)
                (either_way (w.flash_sector_is_erased n) (h.flash_erase_sector w.hw n).0 w
                  (record {
                    hw = (h.flash_erase_sector w.hw n).1;
                    flash_sector_is_erased = flagged w.flash_sector_is_erased n true;
                  })
                  (record w { hw = (h.flash_erase_sector w.hw n).1 }))
        ]

  module _ (from : 0x08000000 ≤ h.flash_begin) (to : h.flash_end ≤ 0x08100000) where
    sector_behind :
        flash_address_is_valid h 0x08100000 ≡ true → flash_address_to_sector h 0x08100000 ≡ 24
    unfolding flash_address_to_sector
    sector_behind v = rw v refl

    earlier_sector :
        (j a x : ℕ)
        → x < sector_start j
        → sector_start j ≤ a
        → flash_address_is_valid h a ≡ true
        → ¬ InSector (flash_address_to_sector h a) x
    earlier_sector j a x l l' v i =
        let n = flash_address_to_sector h a in
        elim (dec_lt a 0x08100000) [
          | yes below ↦
              let (here, few, size) = sector_of_address h from a v below in
              elim (dec_lt n j) [
                | yes before ↦ absurd (omega (arith, sectors_in_order n j before, here, l'))
                | no nb ↦ absurd (omega (arith, sector_start_le j n (omega (arith, nb)), l, i))
              ]
          | no behind ↦
              let e : a ≡ 0x08100000 = omega (arith, behind, valid_to_end a v) in
              let far : n ≡ 24 =
                ap (λ a. flash_address_to_sector h a) e
                ∙ sector_behind (sym (ap (λ a. flash_address_is_valid h a) e) ∙ v) in
              absurd (omega (arith, subst (λ m. InSector m x) far i, e))
        ]

    -- The flash writer keeps an erasure and a write from the start of a sector on to the bytes from
    -- there on, when flash memory lies in the first bank, from 0x08000000 to 0x08100000.
    pub first_bank-Confines :
        (p : Platform) (j : ℕ) → Confines (on_stm32f4 p h byte_at) (sector_start j)
    first_bank-Confines p j = record {
      unlock_same = λ w x l. unlock-kept w x;
      lock_same = λ w x l. lock-kept w x;
      erase_same = λ w a l x l'. page_erase-kept w a x (earlier_sector j a x l' l);
      write_same = λ w a bytes l x l'. page_write-kept w a bytes x (inl (omega arith));
    }

  -- If flash memory lies from 0x08000000 to below 0x08100000, and ends in a sector that
  -- flash_sector_is_erased has an element for, the flash writer of the STM32F4 keeps an erasure and a
  -- write from the start of a sector on to the bytes from there on, as the safety of the core asks, and
  -- every erasure reads flash_sector_is_erased within the array. The flash memory works as its manual
  -- says.
  pub stm32f4-Confines :
      (p : Platform) (j : ℕ)
      → 0x08000000 ≤ h.flash_begin
      → h.flash_end < 0x08100000
      → h.flash_end < sector_start h.flash_sector_index_max
      → Confines (on_stm32f4 p h byte_at) (sector_start j)
        × ((w : Writer h) (page : ℕ)
            → (w' : Writer h) × (flash_writer_page_erase h w page ≡ some w'))
  stm32f4-Confines p j from to enough =
      (first_bank-Confines from (omega (arith, to)) p j, page_erase_in_array from to enough)

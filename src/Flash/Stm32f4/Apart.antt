-- ===== src/Flash/Stm32f4/Apart.antt =====
-- The configuration pages of the STM32F4: an erasure or a write of one leaves the other alone.
use mathlib.Core.Path.{subst}
use cvra_bootloader.Prelude.{
  ℕ, ◌+◌, ◌≤◌, ◌<◌, ◌≡◌, ◌≢◌, ◌⊎◌, inl, inr, sym, ◌∙◌, true, arith, dec_lt, length,
}
use cvra_bootloader.Platform.{Platform}
use cvra_bootloader.Command.PowerCut.{Apart, Separate}
use cvra_bootloader.Flash.Stm32f4.{Hardware, flash_address_to_sector, flash_address_is_valid}
use cvra_bootloader.Flash.Stm32f4.Sectors.{
  sector_start, sector_size, InSector, sectors_in_order, sector_unique, sector_of_address,
}
use cvra_bootloader.Flash.Stm32f4.Flags.{IsFlash}
use cvra_bootloader.Flash.Stm32f4.Confined.{
  on_stm32f4, page_erase-kept, page_write-kept, unlock-kept, lock-kept,
}

module _ (p : Platform) (h : Hardware) (byte_at : h.Hw → ℕ → ℕ) (k : IsFlash h byte_at)
    (from : 0x08000000 ≤ h.flash_begin) where
  module _ (j m : ℕ) (differ : j ≢ m) (first : sector_start j < 0x08100000)
      (fits_j : p.config_page_size ≤ sector_size j)
      (fits_m : p.config_page_size ≤ sector_size m) where
    other_sector :
        (i : ℕ)
        → i < p.config_page_size
        → flash_address_is_valid h (sector_start j) ≡ true
        → ¬ InSector (flash_address_to_sector h (sector_start j)) (sector_start m + i)
    other_sector i l v inside =
        let n = flash_address_to_sector h (sector_start j) in
        let (here, few, size) = sector_of_address h from (sector_start j) v first in
        let at_start : InSector j (sector_start j) = (omega arith, omega (arith, l, fits_j)) in
        let there : InSector m (sector_start m + i) = (omega arith, omega (arith, l, fits_m)) in
        differ (
          sym (sector_unique n j (sector_start j) here at_start)
          ∙ sector_unique n m (sector_start m + i) inside there)

    outside :
        (i size : ℕ)
        → i < p.config_page_size
        → size ≤ p.config_page_size
        → sector_start m + i < sector_start j ⊎ sector_start j + size ≤ sector_start m + i
    outside i size l l' = elim (dec_lt j m) [
      | yes b ↦ inr (omega (arith, sectors_in_order j m b, fits_j))
      | no nb ↦ elim (dec_lt m j) [
        | yes b ↦ inl (omega (arith, sectors_in_order m j b, fits_m, l))
        | no nb' ↦ absurd (differ (omega (arith, nb, nb')))
      ]
    ]

    sectors-Apart : Apart (on_stm32f4 p h byte_at) (sector_start j) (sector_start m)
    sectors-Apart = record {
      erase_apart = λ w i l.
          page_erase-kept h byte_at k w (sector_start j) (sector_start m + i) (other_sector i l);
      write_apart = λ w bytes fits i l.
          page_write-kept h byte_at k w (sector_start j) bytes (sector_start m + i)
            (outside i (length bytes) l fits);
    }

  moved :
      (a b a' b' : ℕ)
      → a ≡ a'
      → b ≡ b'
      → Apart (on_stm32f4 p h byte_at) a' b'
      → Apart (on_stm32f4 p h byte_at) a b
  moved a b a' b' e e' apart =
      subst (λ x. Apart (on_stm32f4 p h byte_at) x b) (sym e)
        (subst (λ y. Apart (on_stm32f4 p h byte_at) a' y) (sym e') apart)

  -- Pages with the configuration at the starts of two different sectors of the first bank are kept
  -- apart.
  pub stm32f4-Separate :
      (j m : ℕ)
      → p.config1_addr ≡ sector_start j
      → p.config2_addr ≡ sector_start m
      → j < m
      → sector_start m < 0x08100000
      → p.config_page_size ≤ sector_size j
      → p.config_page_size ≤ sector_size m
      → Separate (on_stm32f4 p h byte_at)
  stm32f4-Separate j m e e' l below fits_j fits_m =
      let P = on_stm32f4 p h byte_at in
      let below_j : sector_start j < 0x08100000 = omega (arith, sectors_in_order j m l, below) in
      record {
        apart12 =
            moved p.config1_addr p.config2_addr (sector_start j) (sector_start m) e e'
              (sectors-Apart j m (λ d. absurd (omega (arith, d, l))) below_j fits_j fits_m);
        apart21 =
            moved p.config2_addr p.config1_addr (sector_start m) (sector_start j) e' e
              (sectors-Apart m j (λ d. absurd (omega (arith, d, l))) below fits_m fits_j);
        unlock_same = λ w x. unlock-kept h byte_at k w x;
        lock_same = λ w x. lock-kept h byte_at k w x;
      }

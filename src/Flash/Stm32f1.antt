-- ===== src/Flash/Stm32f1.antt =====
-- platform/mcu/stm32f1/flash_writer.c and platform/mcu/stm32f3/flash_writer.c, which have the same code.
pub mod Apart
pub mod Programmed
pub mod Pages
pub mod Configured
pub mod Confined
use cvra_bootloader.Prelude.{ℕ, ◌+◌, List, [], ◌∷◌, bit_or}
use cvra_bootloader.Prelude.Words.{u16, ◌<<<◌}

-- libopencm3's functions and the registers of the flash memory. `cr_set bits` is `FLASH_CR |= bits`,
-- `cr_clear bits` is `FLASH_CR &= ~bits`, and `sr_set bits` is `FLASH_SR |= bits`; `store` is the store
-- of a half word to an address.
pub record Hardware : Type 1 where
  pub Hw : Type 0
  pub byte_at : Hw → ℕ → ℕ
  pub flash_unlock : Hw → Hw
  pub flash_lock : Hw → Hw
  pub flash_wait_for_last_operation : Hw → Hw
  pub cr_set : Hw → ℕ → Hw
  pub cr_clear : Hw → ℕ → Hw
  pub ar_write : Hw → ℕ → Hw
  pub sr_set : Hw → ℕ → Hw
  pub store : Hw → ℕ → ℕ → Hw
  pub flash_cr_per : ℕ
  pub flash_cr_strt : ℕ
  pub flash_cr_pg : ℕ
  pub flash_sr_eop : ℕ

module _ (h : Hardware) where
  unfoldable pub flash_writer_unlock : h.Hw → h.Hw
  flash_writer_unlock s = h.flash_unlock s

  unfoldable pub flash_writer_lock : h.Hw → h.Hw
  flash_writer_lock s = h.flash_lock s

  unfoldable pub flash_writer_page_erase : h.Hw → ℕ → h.Hw
  flash_writer_page_erase s page =
      let s1 = h.cr_set (h.flash_wait_for_last_operation s) h.flash_cr_per in
      let s2 = h.cr_set (h.ar_write s1 page) h.flash_cr_strt in
      h.cr_clear (h.flash_wait_for_last_operation s2) h.flash_cr_per

  unfoldable pub flash_write_half_word : h.Hw → ℕ → ℕ → h.Hw
  flash_write_half_word s flash half_word =
      h.flash_wait_for_last_operation (h.store (h.cr_set s h.flash_cr_pg) flash half_word)

  -- The loop, and the last byte behind it if their number is odd. That byte's own address is read for
  -- the upper half of the half word.
  unfoldable pub write_half_words : h.Hw → ℕ → List ℕ → h.Hw
  unfolding flash_write_half_word
  write_half_words s flash [] = s
  write_half_words s flash (b ∷ []) =
      flash_write_half_word s flash (u16 (bit_or b (h.byte_at s flash <<< 8)))
  write_half_words s flash (b ∷ c ∷ bytes) =
      write_half_words (flash_write_half_word s flash (u16 (bit_or b (c <<< 8)))) (flash + 2) bytes

  unfoldable pub flash_writer_page_write : h.Hw → ℕ → List ℕ → h.Hw
  unfolding write_half_words
  flash_writer_page_write s page bytes =
      h.sr_set
        (h.cr_clear (write_half_words (h.flash_wait_for_last_operation s) page bytes) h.flash_cr_pg)
        h.flash_sr_eop

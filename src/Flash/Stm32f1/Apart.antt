-- ===== src/Flash/Stm32f1/Apart.antt =====
-- The configuration pages of the STM32F1 and STM32F3: an erasure or a write of one leaves the other
-- alone.
use cvra_bootloader.Prelude.{ℕ, ◌+◌, ◌%◌, ◌≤◌, ◌<◌, ◌≡◌, ◌⊎◌, inl, inr, ◌∙◌, arith, List, length}
use cvra_bootloader.Platform.{Platform}
use cvra_bootloader.Command.PowerCut.{Apart, Separate}
use cvra_bootloader.Flash.Stm32f1.{
  Hardware, write_half_words, flash_writer_unlock, flash_writer_lock, flash_writer_page_write,
}
use cvra_bootloader.Flash.Stm32f1.Programmed.{IsFlash, half_words-before, half_words-behind}
use cvra_bootloader.Flash.Stm32f1.Pages.{
  IsPage, page_erase-apart, page_write-half_words, other_page,
}
use cvra_bootloader.Flash.Stm32f1.Configured.{on_stm32f1}

module _ (p : Platform) (h : Hardware) (k : IsFlash h p.config_page_size)
    (some : 0 < p.config_page_size) (even : p.config_page_size % 2 ≡ 0) where
  half_words-apart :
      (s : h.Hw) (a : ℕ) (bytes : List ℕ) (x : ℕ)
      → length bytes ≤ p.config_page_size
      → x < a ⊎ a + p.config_page_size ≤ x
      → h.byte_at (write_half_words h s a bytes) x ≡ h.byte_at s x
  half_words-apart s a bytes x fits (inl l) = half_words-before h p.config_page_size k s a bytes x l
  half_words-apart s a bytes x fits (inr l) =
      half_words-behind h p.config_page_size k s a bytes x (omega (arith, fits, l, even))

  page_write-apart :
      (s : h.Hw) (a : ℕ) (bytes : List ℕ) (x : ℕ)
      → length bytes ≤ p.config_page_size
      → x < a ⊎ a + p.config_page_size ≤ x
      → h.byte_at (flash_writer_page_write h s a bytes) x ≡ h.byte_at s x
  page_write-apart s a bytes x fits out =
      page_write-half_words h p.config_page_size k s a bytes x
      ∙ half_words-apart (h.flash_wait_for_last_operation s) a bytes x fits out
      ∙ k.wait_same s x

  pages-Apart :
      (a b : ℕ)
      → IsPage h p.config_page_size k a
      → a + p.config_page_size ≤ b ⊎ b + p.config_page_size ≤ a
      → Apart (on_stm32f1 p h) a b
  pages-Apart a b i disjoint = record {
    erase_apart = λ s m l.
        page_erase-apart h p.config_page_size k s a (b + m)
          (other_page h p.config_page_size k a (b + m) i some (outside m l));
    write_apart = λ s bytes fits m l. page_write-apart s a bytes (b + m) fits (outside m l);
  }
    where
      outside : (m : ℕ) → m < p.config_page_size → b + m < a ⊎ a + p.config_page_size ≤ b + m
      outside m l = elim disjoint [ inl d ↦ inr (omega arith) | inr d ↦ inl (omega arith) ]

  unlock-kept : (s : h.Hw) (x : ℕ) → h.byte_at (flash_writer_unlock h s) x ≡ h.byte_at s x
  unfolding flash_writer_unlock
  unlock-kept s x = k.unlock_same s x

  lock-kept : (s : h.Hw) (x : ℕ) → h.byte_at (flash_writer_lock h s) x ≡ h.byte_at s x
  unfolding flash_writer_lock
  lock-kept s x = k.lock_same s x

  -- Two different pages with the configuration are kept apart.
  pub stm32f1-Separate :
      IsPage h p.config_page_size k p.config1_addr
      → IsPage h p.config_page_size k p.config2_addr
      → p.config1_addr + p.config_page_size ≤ p.config2_addr
      → Separate (on_stm32f1 p h)
  stm32f1-Separate i j l = record {
    apart12 = pages-Apart p.config1_addr p.config2_addr i (inl l);
    apart21 = pages-Apart p.config2_addr p.config1_addr j (inr l);
    unlock_same = unlock-kept;
    lock_same = lock-kept;
  }

-- ===== src/Flash/Stm32f1/Confined.antt =====
-- What the safety of the core asks of its flash writer, from that of the STM32F1 and STM32F3.
use native.Mathlib.Nat.{div-lt_iff_lt-mul, le-div_iff_mul-le}
use cvra_bootloader.Prelude.{ℕ, ◌/◌, ◌≤◌, ◌<◌, ◌≡◌, ◌≢◌, ◌∙◌, arith}
use cvra_bootloader.Platform.{Platform}
use cvra_bootloader.Command.Protection.{Confines}
use cvra_bootloader.Flash.Stm32f1.{Hardware, flash_writer_unlock, flash_writer_lock}
use cvra_bootloader.Flash.Stm32f1.Programmed.{IsFlash, half_words-before}
use cvra_bootloader.Flash.Stm32f1.Pages.{IsPage, page_erase-apart, page_write-half_words}
use cvra_bootloader.Flash.Stm32f1.Configured.{on_stm32f1}

module _ (p : Platform) (h : Hardware) (page_size : ℕ) (k : IsFlash h page_size)
    (some : 0 < page_size) (lo : ℕ) (i : IsPage h page_size k lo) where
  earlier_page : (x a : ℕ) → x < lo → lo ≤ a → x / page_size ≢ a / page_size
  earlier_page x a l l' e =
      let below : x / page_size < i.number = (div-lt_iff_lt-mul some).1 (omega (arith, i.start)) in
      let above : i.number ≤ a / page_size = (le-div_iff_mul-le some).1 (omega (arith, i.start)) in
      absurd (omega (arith, below, above, e))

  unlock-kept : (s : h.Hw) (x : ℕ) → x < lo → h.byte_at (flash_writer_unlock h s) x ≡ h.byte_at s x
  unfolding flash_writer_unlock
  unlock-kept s x l = k.unlock_same s x

  lock-kept : (s : h.Hw) (x : ℕ) → x < lo → h.byte_at (flash_writer_lock h s) x ≡ h.byte_at s x
  unfolding flash_writer_lock
  lock-kept s x l = k.lock_same s x

  -- If `lo` is the start of a page, the flash writer of the STM32F1 and STM32F3 keeps an erasure and a
  -- write from `lo` on to the bytes from `lo` on, as the safety of the core asks. The flash memory works
  -- as its manual says.
  pub stm32f1-Confines : Confines (on_stm32f1 p h) lo
  stm32f1-Confines = record {
    unlock_same = unlock-kept;
    lock_same = lock-kept;
    erase_same = λ s a l x l'. page_erase-apart h page_size k s a x (earlier_page x a l' l);
    write_same = λ s a bytes l x l'.
        page_write-half_words h page_size k s a bytes x
        ∙ half_words-before h page_size k (h.flash_wait_for_last_operation s) a bytes x
            (omega arith)
        ∙ k.wait_same s x;
  }

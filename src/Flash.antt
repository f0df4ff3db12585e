-- ===== src/Flash.antt =====
-- The flash writers of the microcontrollers: platform/mcu/stm32f4/flash_writer.c.
pub mod Stm32f4
pub mod Stm32f1
pub mod Erased
use cvra_bootloader.Prelude.{ℕ, zero, suc, ◌+◌, Bool, true, false, ◌==◌, if◌then◌else◌}

-- `flash_page_is_erased`, over the bytes that the processor reads.
unfoldable pub page_is_erased : (ℕ → ℕ) → ℕ → ℕ → Bool
page_is_erased at address zero = true
page_is_erased at address (suc size) =
    if at address == 0xff then page_is_erased at (address + 1) size else false

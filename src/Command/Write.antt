-- ===== src/Command/Write.antt =====
-- command_write_flash of command.c.
use cvra_bootloader.Prelude.{ℕ, ltb, leb, if◌then◌else◌, Option, none, some, List, drop}
use cvra_bootloader.Prelude.Words.{u32}
use cvra_bootloader.Prelude.Chars.{strcmp_eq}
use cvra_bootloader.Datagram.{load}
use cvra_bootloader.Platform.{Platform}
use cvra_bootloader.Flash.{page_is_erased}
use cvra_bootloader.Command.{Call, Locals, Outcome, returned, fault, reply, or_kept, app_end}

abbrev pub flash_write_success : ℕ
flash_write_success = 1

abbrev pub flash_write_error_before_app : ℕ
flash_write_error_before_app = 20

abbrev pub flash_write_error_after_app : ℕ
flash_write_error_after_app = 21

abbrev pub flash_write_error_device_class_mismatch : ℕ
flash_write_error_device_class_mismatch = 22

abbrev pub flash_write_error_unknown_size : ℕ
flash_write_error_unknown_size = 23

abbrev pub flash_write_error_not_erased : ℕ
flash_write_error_not_erased = 24

module _ (p : Platform) where
  -- `src`: the bytes behind the header that was just read, in the received data itself. Fewer than
  -- announced are a read behind the buffer.
  unfoldable pub source_bytes : p.Ctx → ℕ → Option (List ℕ)
  source_bytes args size = load (drop (p.get_pos args) (p.memory args)) size

  unfoldable pub write_once : p.Flash → ℕ → List ℕ → p.Flash
  write_once flash address src = p.lock (p.page_write (p.unlock flash) address src)

  -- From the check of the target area on.
  unfoldable pub write_area : Call p → ℕ → ℕ → Outcome p
  unfolding source_bytes write_once
  write_area c address size =
      if page_is_erased (p.byte_at c.flash) address size
      then elim (source_bytes c.args size) [
        | none ↦ fault
        | some src ↦ returned (record c {
          flash = write_once c.flash address src;
          out = p.write_bool c.out flash_write_success;
        })
      ]
      else reply c flash_write_error_not_erased

  unfoldable pub command_write_flash : Call p → Locals → Outcome p
  unfolding write_area
  command_write_flash c locals =
      let (tmp, args) = p.read_uinteger c.args in
      let address = u32 (or_kept tmp 0) in
      let (device_class, length_read, args') = p.read_str args locals.text 64 in
      let (size, args'') = p.read_bin_size args' in
      if ltb address p.app_addr
      then reply (record c { args = args }) flash_write_error_before_app
      else if leb (app_end p) address
      then reply (record c { args = args }) flash_write_error_after_app
      else if strcmp_eq device_class c.config.device_class
      then elim size [
        | none ↦ reply (record c { args = args'' }) flash_write_error_unknown_size
        | some n ↦ write_area (record c { args = args'' }) address n
      ]
      else reply (record c { args = args' }) flash_write_error_device_class_mismatch

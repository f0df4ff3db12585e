-- ===== src/Command/Erase.antt =====
-- command_erase_flash_page of command.c.
use cvra_bootloader.Prelude.{ℕ, zero, suc, ◌==◌, ltb, leb, if◌then◌else◌}
use cvra_bootloader.Prelude.Words.{u8, u32}
use cvra_bootloader.Prelude.Chars.{strcmp_eq}
use cvra_bootloader.Platform.{Platform}
use cvra_bootloader.Flash.{page_is_erased}
use cvra_bootloader.Command.{Call, Locals, Outcome, returned, reply, or_kept, app_end}

abbrev pub flash_erase_success : ℕ
flash_erase_success = 1

abbrev pub flash_erase_error_before_app : ℕ
flash_erase_error_before_app = 10

abbrev pub flash_erase_error_after_app : ℕ
flash_erase_error_after_app = 11

abbrev pub flash_erase_error_device_class_mismatch : ℕ
flash_erase_error_device_class_mismatch = 12

abbrev pub flash_erase_failed : ℕ
flash_erase_failed = 13

module _ (p : Platform) where
  -- The body of the `do` loop.
  unfoldable pub erase_once : p.Flash → ℕ → p.Flash
  erase_once flash address = p.lock (p.page_erase (p.unlock flash) address)

  -- The loop from a value of `retry` on: `retry` and the flash memory when it ends. The test
  -- `retry-- > 0` that fails takes the `uint8_t` from 0 to 255.
  unfoldable pub erase_loop : ℕ → p.Flash → ℕ → ℕ → ℕ × p.Flash
  unfolding erase_once
  erase_loop zero flash address size =
      let flash' = erase_once flash address in
      (if page_is_erased (p.byte_at flash') address size then 0 else 255, flash')
  erase_loop (suc retry) flash address size =
      let flash' = erase_once flash address in
      let again = erase_loop retry flash' address size in
      if page_is_erased (p.byte_at flash') address size then (suc retry, flash') else again

  -- The replies behind the loop.
  unfoldable pub erase_reply : Call p → ℕ × p.Flash → Outcome p
  erase_reply c (retry, flash) =
      let out = if retry == 0 then p.write_uint c.out flash_erase_failed else c.out in
      returned (record c { out = p.write_uint out flash_erase_success; flash = flash })

  unfoldable pub command_erase_flash_page : Call p → Locals → Outcome p
  unfolding erase_loop erase_reply
  command_erase_flash_page c locals =
      let (tmp, args) = p.read_uinteger c.args in
      let address = u32 (or_kept tmp 0) in
      let (device_class, size, args') = p.read_str args locals.text 64 in
      let read = record c { args = args' } in
      if ltb address p.app_addr
      then reply (record c { args = args }) flash_erase_error_before_app
      else if leb (app_end p) address
      then reply (record c { args = args }) flash_erase_error_after_app
      else if strcmp_eq device_class c.config.device_class
      then erase_reply read (erase_loop (u8 p.erase_retries) c.flash address size)
      else reply read flash_erase_error_device_class_mismatch

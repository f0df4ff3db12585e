-- ===== src/Command/Settings.antt =====
-- The commands of command.c on the configuration and on the bootloader itself.
use cvra_bootloader.Prelude.{
  ℕ, ◌+◌, Bool, false, ◌&&◌, ◌==◌, if◌then◌else◌, none, some, List, replicate,
}
use cvra_bootloader.Prelude.Words.{u32}
use cvra_bootloader.Platform.{Platform, read_bytes}
use cvra_bootloader.Config.{
  Config, config_is_valid, config_write, config_write_messagepack, config_update_from_serialized,
}
use cvra_bootloader.Command.{Call, Locals, Outcome, returned, rebooted, fault}

-- boot_arg.h
abbrev pub boot_arg_start_bootloader : ℕ
boot_arg_start_bootloader = 0x00

abbrev pub boot_arg_start_bootloader_no_timeout : ℕ
boot_arg_start_bootloader_no_timeout = 0x01

abbrev pub boot_arg_start_application : ℕ
boot_arg_start_application = 0x02

abbrev pub boot_arg_start_st_bootloader : ℕ
boot_arg_start_st_bootloader = 0x03

module _ (p : Platform) where
  -- Without COMMAND_JUMP_DISABLE_CRC_CHECKING.
  unfoldable pub jump_argument : Config → p.Flash → ℕ
  jump_argument config flash =
      let app = read_bytes (p.byte_at flash) p.app_addr config.application_size in
      if p.crc32 0 app == config.application_crc
      then boot_arg_start_application
      else boot_arg_start_bootloader_no_timeout

  unfoldable pub command_jump_to_application : Call p → Outcome p
  command_jump_to_application c = rebooted (jump_argument c.config c.flash) c

  unfoldable pub command_config_update : Call p → Locals → Outcome p
  command_config_update c locals =
      elim (config_update_from_serialized p c.config locals.text c.args) [
        | none ↦ fault
        | some (config, args) ↦
            returned (record c { config = config; args = args; out = p.write_bool c.out 1 })
      ]

  unfoldable pub command_ping : Call p → Outcome p
  command_ping c = returned (record c { out = p.write_bool c.out 1 })

  unfoldable pub flash_write_and_verify : p.Flash → ℕ → List ℕ → ℕ → Bool × p.Flash
  flash_write_and_verify flash addr bytes len =
      let flash' = p.lock (p.page_write (p.page_erase (p.unlock flash) addr) addr bytes) in
      (config_is_valid p flash' addr len, flash')

  -- One page, and the other one if the first was written well.
  unfoldable pub write_pages_in_turn : p.Flash → ℕ → ℕ → List ℕ → Bool × p.Flash
  unfolding flash_write_and_verify
  write_pages_in_turn flash first second page =
      let (written, flash') = flash_write_and_verify flash first page p.config_page_size in
      let both = flash_write_and_verify flash' second page p.config_page_size in
      if written then both else (false, flash')

  -- The update of both pages.
  unfoldable pub write_config_pages : p.Flash → List ℕ → Bool × p.Flash
  unfolding write_pages_in_turn
  write_config_pages flash page =
      let config1 = p.config1_addr in
      let config2 = p.config2_addr in
      let (success, flash') = flash_write_and_verify flash config1 page p.config_page_size in
      let (success', flash'') = flash_write_and_verify flash' config2 page p.config_page_size in
      if config_is_valid p flash config2 p.config_page_size
      then write_pages_in_turn flash config1 config2 page
      else if config_is_valid p flash config1 p.config_page_size
      then write_pages_in_turn flash config2 config1 page
      else (success && success', flash'')

  unfoldable pub command_config_write_to_flash : Call p → Outcome p
  unfolding write_config_pages
  command_config_write_to_flash c =
      let config = record (c.config) { update_count = u32 (c.config.update_count + 1) } in
      let blank = replicate p.config_page_size 0 in
      let page = config_write p blank config p.config_page_size in
      let (success, flash) = write_config_pages c.flash page in
      returned (record c {
        config = config;
        flash = flash;
        out = p.write_bool c.out (if success then 1 else 0);
      })

  unfoldable pub command_config_read : Call p → Outcome p
  command_config_read c = returned (record c { out = config_write_messagepack p c.out c.config })

  unfoldable pub command_get_status : Call p → Outcome p
  command_get_status c = returned (record c { out = p.write_u8 c.out c.status })

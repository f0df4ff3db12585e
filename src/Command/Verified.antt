-- ===== src/Command/Verified.antt =====
-- The resets that a command of command.c asks for.
use cvra_bootloader.Prelude.{
  arith, ℕ, ◌≡◌, refl, Bool, true, false, List, Option, none, some, if◌then◌else◌,
}
use cvra_bootloader.Prelude.Words.{u8}
use cvra_bootloader.Prelude.Int.{neg}
use cvra_bootloader.Platform.{Platform}
use cvra_bootloader.Config.{Config}
use cvra_bootloader.Command.{Call, Locals, Outcome, returned, rebooted, fault}
use cvra_bootloader.Command.Erase.{command_erase_flash_page, erase_reply}
use cvra_bootloader.Command.Write.{write_area, command_write_flash}
use cvra_bootloader.Command.Region.{crc_of_region, command_crc_region, command_read_flash}
use cvra_bootloader.Command.Settings.{
  jump_argument, command_jump_to_application, command_ping, command_config_update,
  command_config_write_to_flash, command_config_read, command_get_status,
}
use cvra_bootloader.Command.Dispatch.{
  Callback, jump_to_application, crc_region, erase_flash_page, write_flash, ping, read_flash,
  config_update, config_write_to_flash, config_read, get_status, run_callback, Executed, finished,
  reset, broken, executed, execute_datagram_commands, execute_call, get_command_by_index,
  err_invalid_command, err_command_not_found, err_invalid_command_set_version,
}

module _ (p : Platform) where
  -- A reset bears the boot argument of the check of the application in flash memory.
  abbrev pub Checked : Outcome p → Type 0
  Checked (returned c) = Unit
  Checked (rebooted arg c) = arg ≡ jump_argument p c.config c.flash
  Checked fault = Unit

  abbrev resets : Outcome p → Bool
  resets (returned c) = false
  resets (rebooted arg c) = true
  resets fault = false

  Checked-none : (o : Outcome p) → resets o ≡ false → Checked o
  Checked-none (returned c) h = tt
  Checked-none (rebooted arg c) h = absurd (ground arith)
  Checked-none fault h = tt

  erase-resets :
      (c : Call p) (locals : Locals) → resets (command_erase_flash_page p c locals) ≡ false
  unfolding command_erase_flash_page erase_reply
  erase-resets c locals = ground arith

  write-resets : (c : Call p) (locals : Locals) → resets (command_write_flash p c locals) ≡ false
  unfolding command_write_flash write_area
  write-resets c locals = ground arith

  crc-resets : (c : Call p) → resets (command_crc_region p c) ≡ false
  unfolding command_crc_region crc_of_region
  crc-resets c = ground arith

  update-resets : (c : Call p) (locals : Locals) → resets (command_config_update p c locals) ≡ false
  unfolding command_config_update
  update-resets c locals = ground arith

  callback-Checked :
      (b : Callback) (c : Call p) (locals : Locals) → Checked (run_callback p b c locals)
  unfolding run_callback command_jump_to_application command_ping command_read_flash
      command_config_write_to_flash command_config_read command_get_status
  callback-Checked jump_to_application c locals = refl
  callback-Checked crc_region c locals = Checked-none _ (crc-resets c)
  callback-Checked erase_flash_page c locals = Checked-none _ (erase-resets c locals)
  callback-Checked write_flash c locals = Checked-none _ (write-resets c locals)
  callback-Checked ping c locals = tt
  callback-Checked read_flash c locals = tt
  callback-Checked config_update c locals = Checked-none _ (update-resets c locals)
  callback-Checked config_write_to_flash c locals = tt
  callback-Checked config_read c locals = tt
  callback-Checked get_status c locals = tt

  abbrev pub ResetChecked : Executed p → Type 0
  ResetChecked (finished ret c) = Unit
  ResetChecked (reset arg c) = arg ≡ jump_argument p c.config c.flash
  ResetChecked broken = Unit

  executed-Checked : (o : Outcome p) → Checked o → ResetChecked (executed p o)
  unfolding executed
  executed-Checked (returned c) h = tt
  executed-Checked (rebooted arg c) h = h
  executed-Checked fault h = tt

  call-Checked :
      (c : Call p) (args : p.Ctx) (locals : Locals) (b : Bool) (index : Option ℕ)
      → ResetChecked (
          if b
          then elim index [
            | none ↦ finished (neg err_invalid_command) c
            | some i ↦ elim (get_command_by_index (u8 i)) [
              | none ↦ finished (neg err_command_not_found) c
              | some callback ↦
                  executed p (run_callback p callback (record c { args = args }) locals)
            ]
          ]
          else finished (neg err_invalid_command_set_version) c)
  call-Checked c args locals false index = tt
  call-Checked c args locals true none = tt
  call-Checked c args locals true (some i) = found_cases (get_command_by_index (u8 i))
    where
      found_cases :
          (found : Option Callback)
          → ResetChecked (elim found [
            | none ↦ finished (neg err_command_not_found) c
            | some callback ↦ executed p (run_callback p callback (record c { args = args }) locals)
          ])
      found_cases none = tt
      found_cases (some callback) =
          executed-Checked (run_callback p callback (record c { args = args }) locals)
            (callback-Checked callback (record c { args = args }) locals)

  pub execute-ResetChecked :
      (bytes : List ℕ) (data_len : ℕ) (out_buf : List ℕ) (out_len : ℕ) (config : Config)
      (flash : p.Flash) (status : ℕ) (locals : Locals)
      → ResetChecked
          (execute_datagram_commands p bytes data_len out_buf out_len config flash status locals)
  unfolding execute_datagram_commands execute_call
  execute-ResetChecked bytes data_len out_buf out_len config flash status locals =
      let c : Call p = record {
        args = p.ro_init bytes data_len;
        out = p.init out_buf out_len;
        config = config;
        flash = flash;
        status = status;
      } in
      call-Checked c _ locals _ _

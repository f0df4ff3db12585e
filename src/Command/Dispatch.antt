-- ===== src/Command/Dispatch.antt =====
-- get_command_by_index and execute_datagram_commands of command.c, and the table of commands.
use cvra_bootloader.Prelude.{ℕ, ◌==◌, if◌then◌else◌, List, [], ◌∷◌, Option, none, some}
use cvra_bootloader.Prelude.Words.{u8}
use cvra_bootloader.Prelude.Int.{ℤ, pos, neg}
use cvra_bootloader.Platform.{Platform}
use cvra_bootloader.Config.{Config}
use cvra_bootloader.Command.{Call, Locals, Outcome, returned, rebooted, fault, or_kept}
use cvra_bootloader.Command.Erase.{command_erase_flash_page}
use cvra_bootloader.Command.Write.{command_write_flash}
use cvra_bootloader.Command.Region.{command_read_flash, command_crc_region}
use cvra_bootloader.Command.Settings.{
  command_jump_to_application, command_config_update, command_ping, command_config_write_to_flash,
  command_config_read, command_get_status,
}

abbrev pub command_set_version : ℕ
command_set_version = 3

abbrev pub err_invalid_command : ℕ
err_invalid_command = 3

abbrev pub err_command_not_found : ℕ
err_command_not_found = 4

abbrev pub err_invalid_command_set_version : ℕ
err_invalid_command_set_version = 5

-- The callbacks.
pub data Callback : Type 0 where
  jump_to_application crc_region erase_flash_page write_flash ping : Callback
  read_flash config_update config_write_to_flash config_read get_status : Callback

pub record Entry : Type 0 where
  pub index : ℕ
  pub callback : Callback

abbrev entry : ℕ → Callback → Entry
entry i c = record { index = i; callback = c }

unfoldable pub commands : List Entry
commands =
    entry 1 jump_to_application
    ∷ entry 2 crc_region
    ∷ entry 3 erase_flash_page
    ∷ entry 4 write_flash
    ∷ entry 5 ping
    ∷ entry 6 read_flash
    ∷ entry 7 config_update
    ∷ entry 8 config_write_to_flash
    ∷ entry 9 config_read
    ∷ entry 10 get_status
    ∷ []

find_index : List Entry → ℕ → Option Callback
find_index [] index = none
find_index (e ∷ es) index = if e.index == index then some e.callback else find_index es index

unfoldable pub get_command_by_index : ℕ → Option Callback
unfolding find_index commands
get_command_by_index index = find_index commands index

module _ (p : Platform) where
  unfoldable pub run_callback : Callback → Call p → Locals → Outcome p
  run_callback jump_to_application c locals = command_jump_to_application p c
  run_callback crc_region c locals = command_crc_region p c
  run_callback erase_flash_page c locals = command_erase_flash_page p c locals
  run_callback write_flash c locals = command_write_flash p c locals
  run_callback ping c locals = command_ping p c
  run_callback read_flash c locals = command_read_flash p c locals
  run_callback config_update c locals = command_config_update p c locals
  run_callback config_write_to_flash c locals = command_config_write_to_flash p c
  run_callback config_read c locals = command_config_read p c
  run_callback get_status c locals = command_get_status p c

  -- The `int` that is returned, beside the state that the handler left.
  pub data Executed : Type 0 where
    finished : ℤ → Call p → Executed
    reset : ℕ → Call p → Executed
    broken : Executed

  unfoldable pub executed : Outcome p → Executed
  executed (returned c) = finished (pos (p.get_pos c.out)) c
  executed (rebooted arg c) = reset arg c
  executed fault = broken

  -- On a call whose `args` read the datagram's data, and whose `out` is at the start of the output
  -- buffer. The casts take the index to a `uint8_t`.
  unfoldable pub execute_call : Call p → Locals → Executed
  unfolding executed
  execute_call c locals =
      let (version, args) = p.read_int c.args in
      let (index, args') = p.read_int args in
      let (argc, args'') = p.read_array args' in
      if or_kept version locals.number == command_set_version
      then elim index [
        | none ↦ finished (neg err_invalid_command) c
        | some i ↦ elim (get_command_by_index (u8 i)) [
          | none ↦ finished (neg err_command_not_found) c
          | some callback ↦ executed (run_callback callback (record c { args = args'' }) locals)
        ]
      ]
      else finished (neg err_invalid_command_set_version) c

  -- The two memories are `data` and `out_buf`.
  unfoldable pub execute_datagram_commands :
      List ℕ → ℕ → List ℕ → ℕ → Config → p.Flash → ℕ → Locals → Executed
  unfolding execute_call
  execute_datagram_commands bytes data_len out_buf out_len config flash status locals =
      execute_call
        (record {
          args = p.ro_init bytes data_len;
          out = p.init out_buf out_len;
          config = config;
          flash = flash;
          status = status;
        })
        locals

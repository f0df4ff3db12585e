-- ===== src/Boot.antt =====
-- platform/mcu/armv7-m/boot_arg.c and boot.c: the argument that a reset leaves in the first two words
-- of RAM, and what the next start makes of it.
pub mod Memory
pub mod Vectors
use cvra_bootloader.Prelude.{
  ℕ, ◌<◌, ◌≡◌, refl, Bool, true, ◌&&◌, arith, bit_or, bit_and, ◌==◌, ◌||◌, not, if◌then◌else◌,
  all_below, all_below_sound,
}
use cvra_bootloader.Prelude.Words.{u8, u32, ◌<<<◌, ◌>>>◌}
use cvra_bootloader.Command.Settings.{
  boot_arg_start_bootloader, boot_arg_start_application, boot_arg_start_st_bootloader,
}

abbrev pub boot_arg_magic_value_lo : ℕ
boot_arg_magic_value_lo = 0x01234567

abbrev pub boot_arg_magic_value_hi : ℕ
boot_arg_magic_value_hi = 0x0089abcd

-- `ram_begin[0]` and `ram_begin[1]`, which keep their content over a reset.
pub record Ram : Type 0 where
  pub low : ℕ
  pub high : ℕ

-- `reboot_system`, up to the reset itself.
unfoldable pub reboot_system : ℕ → Ram
reboot_system arg = record {
  low = boot_arg_magic_value_lo;
  high = bit_or boot_arg_magic_value_hi (u32 (arg <<< 24));
}

-- What starts.
pub data Start : Type 0 where
  start_app : Start
  start_st_bootloader : Start
  bootloader_main : ℕ → Start

-- `reset_handler`. The loops that initialise the variables do not touch what it has read.
-- bootloader_main does not return.
unfoldable pub reset_handler : Ram → Start
reset_handler ram =
    let argv = u8 (ram.high >>> 24) in
    let magic_high = bit_and ram.high 0x00ffffff in
    if not (ram.low == boot_arg_magic_value_lo) || not (magic_high == boot_arg_magic_value_hi)
    then bootloader_main boot_arg_start_bootloader
    else if argv == boot_arg_start_application
    then start_app
    else if argv == boot_arg_start_st_bootloader
    then start_st_bootloader
    else bootloader_main argv

-- What an argument asks for.
abbrev pub asked : ℕ → Start
asked arg =
    if arg == boot_arg_start_application
    then start_app
    else if arg == boot_arg_start_st_bootloader
    then start_st_bootloader
    else bootloader_main arg

abbrev keeps_argument : ℕ → Bool
keeps_argument arg =
    let high = bit_or boot_arg_magic_value_hi (u32 (arg <<< 24)) in
    (u8 (high >>> 24) == arg) && (bit_and high 0x00ffffff == boot_arg_magic_value_hi)

keeps_argument_table : all_below 256 (λ arg. keeps_argument arg) ≡ true
unfolding all_below
keeps_argument_table = refl

-- The start behind a reset by reboot_system does what the reset's argument, a byte, asks for.
pub reset_handler-reboot_system :
    (arg : ℕ) → arg < 256 → reset_handler (reboot_system arg) ≡ asked arg
unfolding reset_handler reboot_system
reset_handler-reboot_system arg h =
    let kept : keeps_argument arg ≡ true =
      all_below_sound 256 (λ arg. keeps_argument arg) arg keeps_argument_table h in
    ground arith

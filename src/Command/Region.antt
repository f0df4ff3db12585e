-- ===== src/Command/Region.antt =====
-- command_read_flash and command_crc_region of command.c.
pub mod Bounds
use cvra_bootloader.Prelude.{ℕ, ◌+◌, ◌||◌, ltb, leb, if◌then◌else◌, none, some}
use cvra_bootloader.Prelude.Words.{u32}
use cvra_bootloader.Platform.{Platform, read_bytes}
use cvra_bootloader.Command.{Call, Locals, Outcome, returned, reply, or_kept}

abbrev pub crc_error_address_unspecified : ℕ
crc_error_address_unspecified = 30

abbrev pub crc_error_length_unspecified : ℕ
crc_error_length_unspecified = 31

abbrev pub crc_error_illegal_address : ℕ
crc_error_illegal_address = 32

module _ (p : Platform) where
  unfoldable pub command_read_flash : Call p → Locals → Outcome p
  command_read_flash c locals =
      let (tmp, args) = p.read_uinteger c.args in
      let (n, args') = p.read_u32 args in
      let address = u32 (or_kept tmp locals.number) in
      let size = or_kept n locals.number in
      returned (record c {
        args = args';
        out = p.write_bin c.out (read_bytes (p.byte_at c.flash) address size);
      })

  -- The checks on both ends, without ADDRESS_BOUNDARY_CHECK_DISABLED.
  unfoldable pub crc_of_region : Call p → ℕ → ℕ → Outcome p
  crc_of_region c address size =
      let address2 = u32 (address + size) in
      if ltb address p.flash_begin
        || leb p.flash_end address
        || ltb address2 p.flash_begin
        || leb p.flash_end address2
      then reply c crc_error_illegal_address
      else reply c (p.crc32 0 (read_bytes (p.byte_at c.flash) address size))

  unfoldable pub command_crc_region : Call p → Outcome p
  unfolding crc_of_region
  command_crc_region c =
      let (tmp, args) = p.read_uinteger c.args in
      let (n, args') = p.read_uint args in
      elim tmp [
        | none ↦ reply (record c { args = args }) crc_error_address_unspecified
        | some address ↦ elim n [
          | none ↦ reply (record c { args = args' }) crc_error_length_unspecified
          | some size ↦ crc_of_region (record c { args = args' }) (u32 address) size
        ]
      ]

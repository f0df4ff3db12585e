-- ===== src/Command/Region/Bounds.antt =====
-- command_crc_region: the arithmetic of its address check.
use cvra_bootloader.Prelude.{ℕ, ◌+◌, ◌-◌, ◌^◌, ◌≤◌, ◌<◌, ◌≡◌, arith, ltb, leb, ◌&&◌, if◌then◌else◌}
use cvra_bootloader.Platform.{Platform, read_bytes}
use cvra_bootloader.Command.{Call, reply}
use cvra_bootloader.Command.Region.{crc_error_illegal_address, crc_of_region}

module _ (p : Platform) where
  -- Without wrap-around a region is summed exactly if its start and its end, the byte behind it, lie
  -- in flash memory; any other is refused.
  crc_region_exact :
      (c : Call p) (address size : ℕ)
      → address + size < 2 ^ 32
      → crc_of_region p c address size ≡ (
          if leb p.flash_begin address && ltb (address + size) p.flash_end
          then reply c (p.crc32 0 (read_bytes (p.byte_at c.flash) address size))
          else reply c crc_error_illegal_address)
  unfolding crc_of_region
  crc_region_exact c address size h = ground arith

  -- With wrap-around the check passes for regions that reach far beyond flash memory: a size of
  -- 2 ^ 32 - k is accepted at every address that lies in flash memory with k bytes of it in front.
  crc_region_wraps :
      (c : Call p) (address k : ℕ)
      → 0 < k
      → p.flash_begin + k ≤ address
      → address < p.flash_end
      → p.flash_end < 2 ^ 32
      → crc_of_region p c address (2 ^ 32 - k)
        ≡ reply c (p.crc32 0 (read_bytes (p.byte_at c.flash) address (2 ^ 32 - k)))
  unfolding crc_of_region
  crc_region_wraps c address k h h1 h2 h3 = ground arith

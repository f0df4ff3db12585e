-- ===== src/Platform.antt =====
-- What the bootloader's core takes from elsewhere: the libraries CRC, cmp and cmp_mem_access, the
-- flash writer of the microcontroller (flash_writer.h), and the constants of platform.h and of the
-- linker script. Pointers are 32-bit addresses.
use cvra_bootloader.Prelude.{ℕ, zero, suc, ◌+◌, List, [], ◌∷◌, Option}

-- MessagePack over a memory buffer: a `cmp_ctx_t` with its `cmp_mem_access_t`.
-- A read that fails gives `none`, and leaves the variable that it should set as it was.
pub record Cmp : Type 1 where
  pub Ctx : Type 0
  -- `cmp_mem_access_ro_init` and `cmp_mem_access_init`: the memory, and how much of it may be used.
  pub ro_init : List ℕ → ℕ → Ctx
  pub init : List ℕ → ℕ → Ctx
  pub get_pos : Ctx → ℕ
  -- The memory with what was written so far.
  pub memory : Ctx → List ℕ
  pub read_uinteger : Ctx → Option ℕ × Ctx
  pub read_uint : Ctx → Option ℕ × Ctx
  pub read_u32 : Ctx → Option ℕ × Ctx
  pub read_uchar : Ctx → Option ℕ × Ctx
  -- The 32 bits of the `int32_t`.
  pub read_int : Ctx → Option ℕ × Ctx
  pub read_array : Ctx → Option ℕ × Ctx
  pub read_map : Ctx → Option ℕ × Ctx
  pub read_bin_size : Ctx → Option ℕ × Ctx
  -- `cmp_read_str(ctx, buf, &size)`: the array and the size after the call.
  pub read_str : Ctx → List ℕ → ℕ → List ℕ × ℕ × Ctx
  pub write_uint : Ctx → ℕ → Ctx
  pub write_u8 : Ctx → ℕ → Ctx
  pub write_bool : Ctx → ℕ → Ctx
  pub write_bin : Ctx → List ℕ → Ctx
  pub write_str : Ctx → List ℕ → Ctx
  pub write_map : Ctx → ℕ → Ctx

-- flash_writer.h, over all memory that the processor reads.
pub record FlashWriter : Type 1 where
  pub Flash : Type 0
  -- The byte at an address.
  pub byte_at : Flash → ℕ → ℕ
  pub unlock : Flash → Flash
  pub lock : Flash → Flash
  pub page_erase : Flash → ℕ → Flash
  pub page_write : Flash → ℕ → List ℕ → Flash

pub record Layout : Type 0 where
  pub app_addr : ℕ
  pub app_size : ℕ
  pub config1_addr : ℕ
  pub config2_addr : ℕ
  pub config_page_size : ℕ
  pub flash_begin : ℕ
  pub flash_end : ℕ
  pub erase_retries : ℕ

pub record Platform : Type 1 where
  pub crc32 : ℕ → List ℕ → ℕ
  pub cmp : Cmp
  pub open cmp use *
  pub flash_writer : FlashWriter
  pub open flash_writer use *
  pub layout : Layout
  pub open layout use *

-- The bytes from an address on.
unfoldable pub read_bytes : (ℕ → ℕ) → ℕ → ℕ → List ℕ
read_bytes at a zero = []
read_bytes at a (suc n) = at a ∷ read_bytes at (a + 1) n

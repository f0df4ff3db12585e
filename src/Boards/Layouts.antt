-- ===== src/Boards/Layouts.antt =====
-- platform.h and linkerscript.ld of each board, and FLASH_SECTOR_INDEX_MAX: where the parts of its
-- flash memory are, and what its flash memory is.
pub mod Kept
use cvra_bootloader.Prelude.{ℕ, ◌+◌, ◌*◌, ◌≡◌}
use cvra_bootloader.Platform.{Platform, Layout}
use cvra_bootloader.Flash.Stm32f1
use cvra_bootloader.Flash.Stm32f1.Programmed
use cvra_bootloader.Flash.Stm32f1.Configured.{on_stm32f1}
use cvra_bootloader.Flash.Stm32f4
use cvra_bootloader.Flash.Stm32f4.Flags
use cvra_bootloader.Flash.Stm32f4.Confined.{on_stm32f4}

-- The regions in flash memory of a linker script's MEMORY: the length of the first, which the
-- bootloader itself is in, and the origins of the others, with the length of the last.
pub record Regions : Type 0 where
  pub text_length : ℕ
  pub config1 : ℕ
  pub config2 : ℕ
  pub app : ℕ
  pub app_length : ℕ

-- The first region starts there on every board.
abbrev pub text_origin : ℕ
text_origin = 0x08000000

-- The end of the region that the bootloader itself is in.
abbrev pub text_end : Regions → ℕ
text_end r = text_origin + r.text_length

-- The symbols of a linker script, as the functions memory_get_* of platform.h and command.c take
-- them, with CONFIG_PAGE_SIZE and FLASH_ERASE_RETRIES.
abbrev pub layout_of : Regions → ℕ → ℕ → Layout
layout_of r config_page_size retries = record {
  app_addr = r.app;
  app_size = r.app_length;
  config1_addr = r.config1;
  config2_addr = r.config2;
  config_page_size = config_page_size;
  flash_begin = text_origin;
  flash_end = r.app + r.app_length;
  erase_retries = retries;
}

abbrev pub can_io_board_regions : Regions
can_io_board_regions = record {
  text_length = 10 * 1024;
  config1 = 0x08002800;
  config2 = 0x08003000;
  app = 0x08003800;
  app_length = 50 * 1024;
}

-- Only platform.h of the nucleo-board-stm32f446re defines FLASH_ERASE_RETRIES; for the others it is
-- an argument.
abbrev pub can_io_board_layout : ℕ → Layout
can_io_board_layout retries = layout_of can_io_board_regions 2048 retries

abbrev motor_board_v1_regions : Regions
motor_board_v1_regions = record {
  text_length = 10 * 1024;
  config1 = 0x08002800;
  config2 = 0x08003000;
  app = 0x08003800;
  app_length = 242 * 1024;
}

abbrev motor_board_v1_layout : ℕ → Layout
motor_board_v1_layout retries = layout_of motor_board_v1_regions 2048 retries

abbrev rc_board_v1_regions : Regions
rc_board_v1_regions = record {
  text_length = 16 * 1024;
  config1 = 0x08004000;
  config2 = 0x08004800;
  app = 0x08005000;
  app_length = 236 * 1024;
}

abbrev rc_board_v1_layout : ℕ → Layout
rc_board_v1_layout retries = layout_of rc_board_v1_regions 2048 retries

abbrev nucleo_board_stm32f103rb_regions : Regions
nucleo_board_stm32f103rb_regions = record {
  text_length = 10 * 1024;
  config1 = 0x08002800;
  config2 = 0x08002c00;
  app = 0x08003000;
  app_length = 116 * 1024;
}

abbrev nucleo_board_stm32f103rb_layout : ℕ → Layout
nucleo_board_stm32f103rb_layout retries = layout_of nucleo_board_stm32f103rb_regions 0x0400 retries

abbrev nucleo_board_stm32f334r8_regions : Regions
nucleo_board_stm32f334r8_regions = record {
  text_length = 20 * 1024;
  config1 = 0x08005000;
  config2 = 0x08005800;
  app = 0x08006000;
  app_length = 40 * 1024;
}

abbrev nucleo_board_stm32f334r8_layout : ℕ → Layout
nucleo_board_stm32f334r8_layout retries = layout_of nucleo_board_stm32f334r8_regions 0x0800 retries

abbrev uwb_beacon_regions : Regions
uwb_beacon_regions = record {
  text_length = 16 * 1024;
  config1 = 0x08004000;
  config2 = 0x08008000;
  app = 0x0800C000;
  app_length = 976 * 1024;
}

abbrev uwb_beacon_layout : ℕ → Layout
uwb_beacon_layout retries = layout_of uwb_beacon_regions 0x4000 retries

abbrev olimex_e407_regions : Regions
olimex_e407_regions = record {
  text_length = 16 * 1024;
  config1 = 0x08004000;
  config2 = 0x08008000;
  app = 0x0800C000;
  app_length = 976 * 1024;
}

abbrev olimex_e407_layout : ℕ → Layout
olimex_e407_layout retries = layout_of olimex_e407_regions 0x4000 retries

abbrev nucleo_board_stm32f446re_regions : Regions
nucleo_board_stm32f446re_regions = record {
  text_length = 32 * 1024;
  config1 = 0x08008000;
  config2 = 0x0800C000;
  app = 0x08010000;
  app_length = 448 * 1024;
}

abbrev nucleo_board_stm32f446re_layout : Layout
nucleo_board_stm32f446re_layout = layout_of nucleo_board_stm32f446re_regions 512 20

pub data Place : Type 0 where
  can_io_board : Place
  motor_board_v1 : Place
  rc_board_v1 : Place
  nucleo_board_stm32f103rb : Place
  nucleo_board_stm32f334r8 : Place
  uwb_beacon : Place
  olimex_e407 : Place
  nucleo_board_stm32f446re : Place

-- The regions by board.
abbrev pub regions : Place → Regions
regions can_io_board = can_io_board_regions
regions motor_board_v1 = motor_board_v1_regions
regions rc_board_v1 = rc_board_v1_regions
regions nucleo_board_stm32f103rb = nucleo_board_stm32f103rb_regions
regions nucleo_board_stm32f334r8 = nucleo_board_stm32f334r8_regions
regions uwb_beacon = uwb_beacon_regions
regions olimex_e407 = olimex_e407_regions
regions nucleo_board_stm32f446re = nucleo_board_stm32f446re_regions

-- The layout by board, with a number of retries for those that define none.
abbrev pub layout : ℕ → Place → Layout
layout retries can_io_board = can_io_board_layout retries
layout retries motor_board_v1 = motor_board_v1_layout retries
layout retries rc_board_v1 = rc_board_v1_layout retries
layout retries nucleo_board_stm32f103rb = nucleo_board_stm32f103rb_layout retries
layout retries nucleo_board_stm32f334r8 = nucleo_board_stm32f334r8_layout retries
layout retries uwb_beacon = uwb_beacon_layout retries
layout retries olimex_e407 = olimex_e407_layout retries
layout retries nucleo_board_stm32f446re = nucleo_board_stm32f446re_layout

-- What a board's flash memory is made of: pages of a size, as of the STM32F1 and STM32F3, or the
-- sectors of the STM32F4, with the board's FLASH_SECTOR_INDEX_MAX.
pub data Kind : Type 0 where
  pages : ℕ → Kind
  sectors : ℕ → Kind

abbrev pub kind : Place → Kind
kind can_io_board = pages 2048
kind motor_board_v1 = pages 2048
kind rc_board_v1 = pages 2048
kind nucleo_board_stm32f103rb = pages 0x0400
kind nucleo_board_stm32f334r8 = pages 0x0800
kind uwb_beacon = sectors 11
kind olimex_e407 = sectors 11
kind nucleo_board_stm32f446re = sectors 8

-- The STM32F4's flash memory with the bytes that the processor reads.
pub record SectorChip : Type 1 where
  pub h : Stm32f4.Hardware
  pub byte_at : h.Hw → ℕ → ℕ

abbrev pub Chip : Kind → Type 1
Chip (pages size) = Stm32f1.Hardware
Chip (sectors max) = SectorChip

-- The flash memory works as its manual says, and the flash writer was built for the board.
abbrev pub Works : (r : Regions) (m : Kind) → Chip m → Type 0
Works r (pages size) h = Stm32f1.Programmed.IsFlash h size
Works r (sectors max) c =
    Stm32f4.Flags.IsFlash c.h c.byte_at
    × (c.h.flash_begin ≡ text_origin)
    × (c.h.flash_end ≡ r.app + r.app_length)
    × (c.h.flash_sector_index_max ≡ max)

-- The core on the flash writer.
abbrev pub on_chip : Platform → (m : Kind) → Chip m → Platform
on_chip p (pages size) h = on_stm32f1 p h
on_chip p (sectors max) c = on_stm32f4 p c.h c.byte_at

-- The core on a board.
abbrev pub on_board : Platform → ℕ → (b : Place) → Chip (kind b) → Platform
on_board p retries b c = on_chip (record p { layout = layout retries b }) (kind b) c

-- ===== src/Boards/Layouts/Kept.antt =====
-- What the main loop keeps on each board, with the flash writer and the linker script that it has.
use cvra_bootloader.Prelude.{ℕ, ◌+◌, ◌/◌, ◌≤◌, ◌<◌, ◌≡◌, ◌%◌, refl, List, arith}
use cvra_bootloader.Platform.{Platform}
use cvra_bootloader.Bootloader.{Board, Node}
use cvra_bootloader.Bootloader.Loop.{Inputs, rounds}
use cvra_bootloader.Bootloader.Loop.Safety.{Safe, IsKeptUntilStray, rounds-Safe}
use cvra_bootloader.Command.Protection.{Confines}
use cvra_bootloader.Command.PowerCut.{Separate}
use cvra_bootloader.Flash.Stm32f1
use cvra_bootloader.Flash.Stm32f1.Programmed
use cvra_bootloader.Flash.Stm32f1.Configured.{on_stm32f1}
use cvra_bootloader.Flash.Stm32f1.Pages.{IsPage}
use cvra_bootloader.Flash.Stm32f1.Confined.{stm32f1-Confines}
use cvra_bootloader.Flash.Stm32f1.Apart.{stm32f1-Separate}
use cvra_bootloader.Flash.Stm32f4.Flags
use cvra_bootloader.Flash.Stm32f4.Sectors.{sector_start, sector_size, sector_start_le}
use cvra_bootloader.Flash.Stm32f4.Confined.{on_stm32f4, first_bank-Confines}
use cvra_bootloader.Flash.Stm32f4.Apart.{stm32f4-Separate}
use cvra_bootloader.Boards.Layouts.{
  Place, can_io_board, motor_board_v1, rc_board_v1, nucleo_board_stm32f103rb,
  nucleo_board_stm32f334r8, uwb_beacon, olimex_e407, nucleo_board_stm32f446re, regions, SectorChip,
  kind, Chip, Works, on_board, text_end, layout,
}

-- What the safety of the main loop and of the update of the configuration asks of a platform.
record IsProtected (p : Platform) (lo : ℕ) : Type 0 where
  confines : Confines p lo
  to_app : lo ≤ p.app_addr
  to_config1 : lo ≤ p.config1_addr
  to_config2 : lo ≤ p.config2_addr
  separate : Separate p

paged :
    (p : Platform) (h : Stm32f1.Hardware) (k : Stm32f1.Programmed.IsFlash h p.config_page_size)
    → 0 < p.config_page_size
    → p.config_page_size % 2 ≡ 0
    → IsPage h p.config_page_size k p.config1_addr
    → IsPage h p.config_page_size k p.config2_addr
    → p.config1_addr + p.config_page_size ≤ p.config2_addr
    → p.config2_addr ≤ p.app_addr
    → IsProtected (on_stm32f1 p h) p.config1_addr
paged p h k some even i j l l' = record {
  confines = stm32f1-Confines p h p.config_page_size k some p.config1_addr i;
  to_app = omega (arith, l, l');
  to_config1 = omega arith;
  to_config2 = omega (arith, l);
  separate = stm32f1-Separate p h k some even i j l;
}

sectored :
    (p : Platform) (c : SectorChip)
    → Flags.IsFlash c.h c.byte_at
    → 0x08000000 ≤ c.h.flash_begin
    → c.h.flash_end ≤ 0x08100000
    → (j m : ℕ) → p.config1_addr ≡ sector_start j
    → p.config2_addr ≡ sector_start m
    → j < m
    → sector_start m < 0x08100000
    → p.config_page_size ≤ sector_size j
    → p.config_page_size ≤ sector_size m
    → p.config2_addr ≤ p.app_addr
    → IsProtected (on_stm32f4 p c.h c.byte_at) (sector_start j)
sectored p c k from to j m e e' l below fits_j fits_m l' =
    let upwards : sector_start j ≤ sector_start m = sector_start_le j m (omega (arith, l)) in
    record {
      confines = first_bank-Confines c.h c.byte_at k from to p j;
      to_app = omega (arith, e', l', upwards);
      to_config1 = omega (arith, e);
      to_config2 = omega (arith, e', upwards);
      separate = stm32f4-Separate p c.h c.byte_at k from j m e e' l below fits_j fits_m;
    }

boards-IsProtected :
    (p : Platform) (retries : ℕ) (b : Place) (c : Chip (kind b))
    → Works (regions b) (kind b) c
    → IsProtected (on_board p retries b c) (text_end (regions b))
boards-IsProtected p retries can_io_board h k =
    paged (record p { layout = layout retries can_io_board }) h k (omega arith) refl
      (record { number = 0x08002800 / 2048; start = refl; even = refl })
      (record { number = 0x08003000 / 2048; start = refl; even = refl }) (omega arith) (omega arith)
boards-IsProtected p retries motor_board_v1 h k =
    paged (record p { layout = layout retries motor_board_v1 }) h k (omega arith) refl
      (record { number = 0x08002800 / 2048; start = refl; even = refl })
      (record { number = 0x08003000 / 2048; start = refl; even = refl }) (omega arith) (omega arith)
boards-IsProtected p retries rc_board_v1 h k =
    paged (record p { layout = layout retries rc_board_v1 }) h k (omega arith) refl
      (record { number = 0x08004000 / 2048; start = refl; even = refl })
      (record { number = 0x08004800 / 2048; start = refl; even = refl }) (omega arith) (omega arith)
boards-IsProtected p retries nucleo_board_stm32f103rb h k =
    paged (record p { layout = layout retries nucleo_board_stm32f103rb }) h k (omega arith) refl
      (record { number = 0x08002800 / 0x0400; start = refl; even = refl })
      (record { number = 0x08002c00 / 0x0400; start = refl; even = refl }) (omega arith)
      (omega arith)
boards-IsProtected p retries nucleo_board_stm32f334r8 h k =
    paged (record p { layout = layout retries nucleo_board_stm32f334r8 }) h k (omega arith) refl
      (record { number = 0x08005000 / 0x0800; start = refl; even = refl })
      (record { number = 0x08005800 / 0x0800; start = refl; even = refl }) (omega arith)
      (omega arith)
boards-IsProtected p retries uwb_beacon c (k, from, to, max) =
    sectored (record p { layout = layout retries uwb_beacon }) c k (omega (arith, from))
      (omega (arith, to)) 1 2 refl refl (omega arith) (omega arith) (omega arith) (omega arith)
      (omega arith)
boards-IsProtected p retries olimex_e407 c (k, from, to, max) =
    sectored (record p { layout = layout retries olimex_e407 }) c k (omega (arith, from))
      (omega (arith, to)) 1 2 refl refl (omega arith) (omega arith) (omega arith) (omega arith)
      (omega arith)
boards-IsProtected p retries nucleo_board_stm32f446re c (k, from, to, max) =
    sectored (record p { layout = layout retries nucleo_board_stm32f446re }) c k
      (omega (arith, from)) (omega (arith, to)) 2 3 refl refl (omega arith) (omega arith)
      (omega arith) (omega arith) (omega arith)

-- On each of the eight boards, with its linker script, its page size and the flash writer of its
-- microcontroller, whatever the frames, the clock and the bus are, and for any number of rounds that
-- make no access outside of a buffer: every byte of the region that the linker script has for the
-- bootloader, and below it, stays as it was; and when the node resets, the boot argument is that of the
-- check of the application. If some round makes an access outside of a buffer, those bytes are still
-- unchanged when that round begins; of what comes behind it nothing is said. And an erasure or a write of a
-- page's length at one configuration page leaves the other one alone, as the update under a loss of
-- power asks. The conditions: the flash memory works as its manual says, and the flash writer of the
-- STM32F4 has the bounds of the board's linker script and its FLASH_SECTOR_INDEX_MAX. An erasure that
-- reads flash_sector_is_erased outside of the array, as those of the last sector on the uwb-beacon and
-- the olimex-e407 do, is taken to change nothing.
pub boards_are_protected :
    (p : Platform) (retries : ℕ) (b : Place) (c : Chip (kind b))
    → Works (regions b) (kind b) c
    → (board : Board) (ins : List Inputs) (s : Node (on_board p retries b c))
    → Safe
        (on_board p retries b c)
        board
        (text_end (regions b))
        (IsKeptUntilStray (on_board p retries b c) board (text_end (regions b)) ins s)
        s.flash
        (rounds (on_board p retries b c) board ins s)
      × Separate (on_board p retries b c)
boards_are_protected p retries b c works board ins s =
    let fit = boards-IsProtected p retries b c works in
    (
      rounds-Safe (on_board p retries b c) board (text_end (regions b)) fit.confines fit.to_app
          fit.to_config1 fit.to_config2 ins s,
      fit.separate,
    )

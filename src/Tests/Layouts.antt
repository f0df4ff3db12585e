-- ===== src/Tests/Layouts.antt =====
-- A node on the nucleo-board-stm32f446re, with its layout and the flash writer of the STM32F4.
use cvra_bootloader.Prelude.{refl, true, false, []}
use cvra_bootloader.Bootloader.{Node}
use cvra_bootloader.Bootloader.Loop.{rounds}
use cvra_bootloader.Bootloader.Loop.Safety.{Safe, IsKeptUntilStray}
use cvra_bootloader.Command.PowerCut.{Separate}
use cvra_bootloader.Boards.Layouts.{
  SectorChip, on_board, nucleo_board_stm32f446re, text_end, regions,
}
use cvra_bootloader.Boards.Layouts.Kept.{boards_are_protected}
use cvra_bootloader.Tests.Toy.{toy, board, node}
use cvra_bootloader.Tests.Sectors.{sectors_of, sectors-IsFlash}
use cvra_bootloader.Tests.Nodes.{inputs}

abbrev flash_memory : SectorChip
flash_memory = record { h = sectors_of 8; byte_at = λ s x. s x }

abbrev on_nucleo : Node (on_board toy 2 nucleo_board_stm32f446re flash_memory)
on_nucleo = record {
  config = node.config;
  dt = node.dt;
  output_buf = node.output_buf;
  bootloader_timeout_enabled = true;
  datagram_timeout_running = false;
  flash = record { hw = λ x. 7; flash_sector_is_erased = λ n. false };
  status = 0;
  timer = node.timer;
  sent = [];
  leds = [];
}

boards_are_protected_example :
    Safe
      (on_board toy 2 nucleo_board_stm32f446re flash_memory)
      board
      (text_end (regions nucleo_board_stm32f446re))
      (IsKeptUntilStray
        (on_board toy 2 nucleo_board_stm32f446re flash_memory)
        board
        (text_end (regions nucleo_board_stm32f446re))
        inputs
        on_nucleo)
      on_nucleo.flash
      (rounds (on_board toy 2 nucleo_board_stm32f446re flash_memory) board inputs on_nucleo)
    × Separate (on_board toy 2 nucleo_board_stm32f446re flash_memory)
boards_are_protected_example =
    boards_are_protected toy 2 nucleo_board_stm32f446re flash_memory
      (sectors-IsFlash 8, refl, refl, refl) board inputs on_nucleo

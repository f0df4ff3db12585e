-- ===== src/Boards.antt =====
-- platform/*/platform.c of the boards that have a can_interface_init of their own: all but the
-- nucleo-board-stm32f446re.
pub mod Layouts
pub mod Calls
pub mod CanIoBoard
pub mod MotorBoardV1
pub mod RcBoardV1
pub mod UwbBeacon
pub mod OlimexE407
pub mod NucleoBoardStm32f103rb
pub mod NucleoBoardStm32f334r8
pub mod Table
pub mod Nucleo
pub mod Order
pub mod Filters
pub mod Rates
pub mod SetUp
use cvra_bootloader.Prelude.{ℕ}
use cvra_bootloader.Can.Setup.{Macros}

-- The last one has the pins of its platform.h: those of the CAN, and the port and the pin of its LED.
pub data Board : Type 0 where
  can_io_board : Board
  motor_board_v1 : Board
  rc_board_v1 : Board
  uwb_beacon : Board
  olimex_e407 : Board
  nucleo_board_stm32f103rb : Board
  nucleo_board_stm32f334r8 : Macros → ℕ → ℕ → Board

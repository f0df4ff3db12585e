-- ===== src/Boards/Table.antt =====
-- What the boards have, by board.
use cvra_bootloader.Prelude.{List}
use cvra_bootloader.Can.Filters.{Filter}
use cvra_bootloader.Can.Setup.{Action}
use cvra_bootloader.Boards.{
  Board, can_io_board, motor_board_v1, rc_board_v1, uwb_beacon, olimex_e407,
  nucleo_board_stm32f103rb, nucleo_board_stm32f334r8,
}
use cvra_bootloader.Boards.Calls.{Timing}
use cvra_bootloader.Boards.CanIoBoard
use cvra_bootloader.Boards.MotorBoardV1
use cvra_bootloader.Boards.RcBoardV1
use cvra_bootloader.Boards.UwbBeacon
use cvra_bootloader.Boards.OlimexE407
use cvra_bootloader.Boards.NucleoBoardStm32f103rb
use cvra_bootloader.Boards.NucleoBoardStm32f334r8

-- The calls of platform_main and can_interface_init.
unfoldable pub calls : Board → List Action
unfolding CanIoBoard.platform_main MotorBoardV1.platform_main RcBoardV1.platform_main
    UwbBeacon.platform_main OlimexE407.platform_main NucleoBoardStm32f103rb.platform_main
    NucleoBoardStm32f334r8.platform_main
calls can_io_board = CanIoBoard.platform_main
calls motor_board_v1 = MotorBoardV1.platform_main
calls rc_board_v1 = RcBoardV1.platform_main
calls uwb_beacon = UwbBeacon.platform_main
calls olimex_e407 = OlimexE407.platform_main
calls nucleo_board_stm32f103rb = NucleoBoardStm32f103rb.platform_main
calls (nucleo_board_stm32f334r8 m port pin) = NucleoBoardStm32f334r8.platform_main m port pin

-- The timing of the CAN.
abbrev pub timing : Board → Timing
timing can_io_board = CanIoBoard.timing
timing motor_board_v1 = MotorBoardV1.timing
timing rc_board_v1 = RcBoardV1.timing
timing uwb_beacon = UwbBeacon.timing
timing olimex_e407 = OlimexE407.timing
timing nucleo_board_stm32f103rb = NucleoBoardStm32f103rb.timing
timing (nucleo_board_stm32f334r8 m port pin) = NucleoBoardStm32f334r8.timing

-- The filter of the CAN.
abbrev pub filter_of : Board → Filter
filter_of can_io_board = CanIoBoard.filter
filter_of motor_board_v1 = MotorBoardV1.filter
filter_of rc_board_v1 = RcBoardV1.filter
filter_of uwb_beacon = UwbBeacon.filter
filter_of olimex_e407 = OlimexE407.filter
filter_of nucleo_board_stm32f103rb = NucleoBoardStm32f103rb.filter
filter_of (nucleo_board_stm32f334r8 m port pin) = NucleoBoardStm32f334r8.filter

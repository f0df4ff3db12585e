-- ===== src/Boards/Rates.antt =====
-- The bit rates of the boards, from the clocks that they set up.
use cvra_bootloader.Prelude.{ℕ, ◌≡◌, refl}
use cvra_bootloader.Clock.{Chip, run, at_reset, apb1_hz}
use cvra_bootloader.Boards.CanIoBoard
use cvra_bootloader.Boards.MotorBoardV1
use cvra_bootloader.Boards.RcBoardV1
use cvra_bootloader.Clock.Stm32f1.{rcc_clock_setup_in_hsi_out_36mhz}
use cvra_bootloader.Boards.{
  Board, can_io_board, motor_board_v1, rc_board_v1, uwb_beacon, olimex_e407,
  nucleo_board_stm32f103rb, nucleo_board_stm32f334r8,
}
use cvra_bootloader.Boards.Calls.{bit_rate}
use cvra_bootloader.Boards.Table.{timing}

-- The clock of the APB1 behind the first call of platform_main. The last argument is that of libopencm3's
-- set-ups, which some boards use.
unfoldable pub apb1_of : Board → Chip → ℕ → ℕ
unfolding CanIoBoard.clock_setup MotorBoardV1.clock_setup RcBoardV1.clock_setup
    rcc_clock_setup_in_hsi_out_36mhz
apb1_of can_io_board chip other = apb1_hz chip (run CanIoBoard.clock_setup at_reset)
apb1_of motor_board_v1 chip other = apb1_hz chip (run MotorBoardV1.clock_setup at_reset)
apb1_of rc_board_v1 chip other = apb1_hz chip (run RcBoardV1.clock_setup at_reset)
apb1_of nucleo_board_stm32f103rb chip other =
    apb1_hz chip (run rcc_clock_setup_in_hsi_out_36mhz at_reset)
apb1_of uwb_beacon chip other = other
apb1_of olimex_e407 chip other = other
apb1_of (nucleo_board_stm32f334r8 m port pin) chip other = other

-- The oscillators of the boards, and the clock of the APB1 that their comments have for libopencm3's set-ups.
abbrev pub HasClock : Board → Chip → ℕ → Type 0
HasClock nucleo_board_stm32f103rb chip other = chip.hsi_hz ≡ 8000000
HasClock uwb_beacon chip other = other ≡ 42000000
HasClock olimex_e407 chip other = other ≡ 42000000
HasClock (nucleo_board_stm32f334r8 m port pin) chip other = other ≡ 18000000
HasClock board chip other = chip.hse_hz ≡ 16000000

abbrev pub expected_rate : Board → ℕ
expected_rate nucleo_board_stm32f103rb = 500000
expected_rate board = 1000000

-- With the oscillators that the boards have, and the clocks that libopencm3's set-ups are commented with: the
-- bit rate of the CAN is 500 kbit/s on the nucleo-board-stm32f103rb and 1 Mbit/s on the six other boards.
pub boards-bit_rate :
    (b : Board) (chip : Chip) (other : ℕ)
    → HasClock b chip other
    → bit_rate (apb1_of b chip other) (timing b) ≡ expected_rate b
unfolding apb1_of
boards-bit_rate can_io_board chip other h = rw h refl
boards-bit_rate motor_board_v1 chip other h = rw h refl
boards-bit_rate rc_board_v1 chip other h = rw h refl
boards-bit_rate nucleo_board_stm32f103rb chip other h = rw h refl
boards-bit_rate uwb_beacon chip other h = rw h refl
boards-bit_rate olimex_e407 chip other h = rw h refl
boards-bit_rate (nucleo_board_stm32f334r8 m port pin) chip other h = rw h refl

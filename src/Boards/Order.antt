-- ===== src/Boards/Order.antt =====
-- The order of the calls in the boards' set-up.
use cvra_bootloader.Prelude.{ℕ, ◌<◌, ◌≡◌, refl, Bool, true, false}
use cvra_bootloader.Can.Setup.{enables}
use cvra_bootloader.Can.Setup.Allowed.{Chip, in_order, at_reset}
use cvra_bootloader.Boards.{
  Board, can_io_board, motor_board_v1, rc_board_v1, uwb_beacon, olimex_e407,
  nucleo_board_stm32f103rb, nucleo_board_stm32f334r8,
}
use cvra_bootloader.Boards.Nucleo.{stm32f334_in_order, stm32f334_too_early}
use cvra_bootloader.Boards.Table.{calls}

-- A chip after a reset that lets a pin be switched to its alternate function before this is set.
abbrev pub without_af : Chip
without_af = record at_reset { has_af = λ port pin. true }

-- The ports of the LED and of the CAN are among those that the code can turn on.
abbrev pub IsCovered : Board → Type 0
IsCovered (nucleo_board_stm32f334r8 m port pin) =
    (port < 2) × (m.tx_port < 2) × (m.rx_port < 2) × ((q : ℕ) → enables m.enable q ≡ true → q < 2)
IsCovered board = Unit

-- Only the board that has no alternate functions to choose.
abbrev pub heeds_warning : Board → Bool
heeds_warning nucleo_board_stm32f103rb = true
heeds_warning board = false

-- Each board turns on the clock of a port before it touches the port, and that of the CAN before it sets up the
-- CAN; the nucleo-board-stm32f334r8 does so for all settings with ports that its code can turn on. But all of
-- them, except the nucleo-board-stm32f103rb, switch a pin of the CAN before they set its alternate function.
pub boards-in_order :
    (b : Board)
    → IsCovered b
    → (in_order (calls b) without_af ≡ true) × (in_order (calls b) at_reset ≡ heeds_warning b)
unfolding calls
boards-in_order can_io_board h = (refl, refl)
boards-in_order motor_board_v1 h = (refl, refl)
boards-in_order rc_board_v1 h = (refl, refl)
boards-in_order uwb_beacon h = (refl, refl)
boards-in_order olimex_e407 h = (refl, refl)
boards-in_order nucleo_board_stm32f103rb h = (refl, refl)
boards-in_order (nucleo_board_stm32f334r8 m port pin) (led, tx, rx, listed) = (
  stm32f334_in_order m port pin without_af led tx rx listed λ port pin. refl,
  stm32f334_too_early m port pin at_reset led refl,
)

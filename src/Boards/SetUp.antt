-- ===== src/Boards/SetUp.antt =====
-- What the set-up of each board gives.
use cvra_bootloader.Prelude.{ℕ, ◌<◌, ◌≡◌, ◌||◌, ◌&&◌, not, true, false, ltb, [], ◌∷◌}
use cvra_bootloader.Bootloader.Loop.{is_for}
use cvra_bootloader.Can.Filters.Accepted.{accepts}
use cvra_bootloader.Can.Setup.Allowed.{in_order, at_reset}
use cvra_bootloader.Clock.{Chip}
use cvra_bootloader.Boards.{Board}
use cvra_bootloader.Boards.Calls.{bit_rate}
use cvra_bootloader.Boards.Table.{calls, timing, filter_of}
use cvra_bootloader.Boards.Order.{without_af, IsCovered, heeds_warning, boards-in_order}
use cvra_bootloader.Boards.Filters.{is_open, boards-is_for}
use cvra_bootloader.Boards.Rates.{apb1_of, HasClock, expected_rate, boards-bit_rate}

-- For each board that has a can_interface_init of its own:
-- It turns on the clock of a port before it touches the port, and that of the CAN before it sets up the CAN; the
-- nucleo-board-stm32f334r8 does so for all settings with ports that its code can turn on. But all of them,
-- except the nucleo-board-stm32f103rb, switch a pin of the CAN before they set its alternate function.
-- With the oscillators that the boards have, and the clocks that libopencm3's set-ups are commented with, the
-- bit rate of the CAN is 500 kbit/s on the nucleo-board-stm32f103rb and 1 Mbit/s on the six others.
-- The filter lets through a frame with a standard identifier exactly if the identifier has one byte, or if the
-- board is the rc-board-v1; so each frame that the main loop of a node with an identifier of one byte takes is
-- let through.
pub boards_set_up :
    (b : Board) (chip : Chip) (other own id : ℕ)
    → IsCovered b
    → HasClock b chip other
    → own < 256
    → id < 2048
    → (in_order (calls b) without_af ≡ true)
      × (in_order (calls b) at_reset ≡ heeds_warning b)
      × (bit_rate (apb1_of b chip other) (timing b) ≡ expected_rate b)
      × (accepts (filter_of b ∷ []) id ≡ (is_open b || ltb id 256))
      × ((is_for own id && not (accepts (filter_of b ∷ []) id)) ≡ false)
boards_set_up b chip other own id covered clocked h h' =
    let (on, warned) = boards-in_order b covered in
    let (exact, enough) = boards-is_for b own id h h' in
    (on, warned, boards-bit_rate b chip other clocked, exact, enough)

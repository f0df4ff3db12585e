-- ===== src/Can/Setup/Nucleo.antt =====
-- The CAN pins of platform/nucleo-board-stm32f446re/platform.h.
use cvra_bootloader.Prelude.{ℕ, Bool, true, false, not, none}
use cvra_bootloader.Can.Setup.{Macros}

-- USE_CAN1 or USE_CAN2, with one of the macros that choose the pins.
pub data Pins : Type 0 where
  can1_pb8_pb9 : Pins
  can1_pa11_pa12 : Pins
  can1_pd0_pd1 : Pins
  can2_pb5_pb6 : Pins
  can2_pb12_pb13 : Pins
  can2_st_bootloader : Pins

-- The port and the pin of CAN_TX, and those of CAN_RX.
abbrev can_tx : Pins → ℕ × ℕ
can_tx can1_pb8_pb9 = (1, 9)
can_tx can1_pa11_pa12 = (0, 12)
can_tx can1_pd0_pd1 = (3, 1)
can_tx can2_pb5_pb6 = (1, 6)
can_tx can2_pb12_pb13 = (1, 13)
can_tx can2_st_bootloader = (1, 13)

abbrev can_rx : Pins → ℕ × ℕ
can_rx can1_pb8_pb9 = (1, 8)
can_rx can1_pa11_pa12 = (0, 11)
can_rx can1_pd0_pd1 = (3, 0)
can_rx can2_pb5_pb6 = (1, 5)
can_rx can2_pb12_pb13 = (1, 12)
can_rx can2_st_bootloader = (1, 5)

abbrev uses_can1 : Pins → Bool
uses_can1 can1_pb8_pb9 = true
uses_can1 can1_pa11_pa12 = true
uses_can1 can1_pd0_pd1 = true
uses_can1 can2_pb5_pb6 = false
uses_can1 can2_pb12_pb13 = false
uses_can1 can2_st_bootloader = false

-- The board has no pin for the transceiver. The two options of the build are arguments.
abbrev pub nucleo : Pins → Bool → Bool → Macros
nucleo pins can_rx_buffer_enabled can_use_interrupts = record {
  tx_port = (can_tx pins).0;
  tx_pin = (can_tx pins).1;
  rx_port = (can_rx pins).0;
  rx_pin = (can_rx pins).1;
  enable = none;
  can_enable_inverted = false;
  use_can1 = uses_can1 pins;
  use_can2 = not (uses_can1 pins);
  can_rx_buffer_enabled = can_rx_buffer_enabled;
  can_use_interrupts = can_use_interrupts;
}

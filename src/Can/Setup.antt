-- ===== src/Can/Setup.antt =====
-- can_interface_init of platform/mcu/stm32f4/can_interface.c: the calls that it makes, in order.
pub mod Allowed
pub mod Nucleo
pub mod Clocks
pub mod Order
pub mod Leds
use cvra_bootloader.Prelude.{
  ℕ, Bool, true, false, ◌==◌, ◌||◌, List, [], ◌∷◌, ◌++◌, Option, none, some, if◌then◌else◌,
}

-- What platform.h defines for the CAN interface. A port is 0 for GPIOA and so on; `enable` is none without
-- USE_CAN_ENABLE.
pub record Macros : Type 0 where
  pub tx_port : ℕ
  pub tx_pin : ℕ
  pub rx_port : ℕ
  pub rx_pin : ℕ
  pub enable : Option (ℕ × ℕ)
  pub can_enable_inverted : Bool
  pub use_can1 : Bool
  pub use_can2 : Bool
  pub can_rx_buffer_enabled : Bool
  pub can_use_interrupts : Bool

pub data Mode : Type 0 where
  gpio_mode_af : Mode
  gpio_mode_output : Mode

-- The calls of libopencm3, here and in the boards' files, and of the FIFO, and the writes to the interrupt enable register. Arguments that
-- are the same in all calls are left out: the alternate function GPIO_AF_CAN, push-pull with 2 MHz, and
-- the settings of can_init. Its argument tells whether CAN is CAN2.
pub data Action : Type 0 where
  clock_gpio : ℕ → Action
  clock_can1 : Action
  clock_can2 : Action
  gpio_set_af : ℕ → ℕ → Action
  gpio_mode_setup : ℕ → Mode → Bool → ℕ → Action
  gpio_set_output_options : ℕ → ℕ → Action
  gpio_set : ℕ → ℕ → Action
  gpio_clear : ℕ → ℕ → Action
  gpio_set_mode : ℕ → ℕ → Action
  can_init : Bool → Action
  fifo_init : Action
  can_ier_fmpie0 : Bool → Action
  nvic_enable : Bool → Action

-- `defined(USE_CAN_ENABLE) && GPIO_PORT_CAN_ENABLE == port`
abbrev pub enables : Option (ℕ × ℕ) → ℕ → Bool
enables none port = false
enables (some (enable_port, pin)) port = enable_port == port

-- One of the four `#if`s on the ports.
unfoldable pub enable_clock : Macros → ℕ → List Action
enable_clock m port =
    if m.tx_port == port || m.rx_port == port || enables m.enable port
    then clock_gpio port ∷ []
    else []

-- The pins: the alternate function first.
unfoldable pub setup_pins : Macros → List Action
setup_pins m =
    gpio_set_af m.tx_port m.tx_pin
    ∷ gpio_mode_setup m.tx_port gpio_mode_af true m.tx_pin
    ∷ gpio_set_af m.rx_port m.rx_pin
    ∷ gpio_mode_setup m.rx_port gpio_mode_af true m.rx_pin
    ∷ []

-- USE_CAN_ENABLE
unfoldable pub setup_enable : Bool → Option (ℕ × ℕ) → List Action
setup_enable inverted none = []
setup_enable inverted (some (port, pin)) =
    gpio_mode_setup port gpio_mode_output false pin
    ∷ gpio_set_output_options port pin
    ∷ (if inverted then gpio_clear port pin else gpio_set port pin)
    ∷ []

abbrev pub when : Bool → List Action → List Action
when b actions = if b then actions else []

-- CAN_USE_INTERRUPTS, for CAN1 (true) and CAN2 (false).
unfoldable pub setup_interrupts : Macros → List Action
setup_interrupts m = when m.can_use_interrupts (
    when m.use_can1 (can_ier_fmpie0 true ∷ nvic_enable true ∷ [])
    ++ when m.use_can2 (can_ier_fmpie0 false ∷ nvic_enable false ∷ []))

unfoldable pub can_interface_init : Macros → List Action
can_interface_init m =
    enable_clock m 0
    ++ (enable_clock m 1
        ++ (enable_clock m 2
            ++ (enable_clock m 3
                ++ (clock_can1
                    ∷ (when m.use_can2 (clock_can2 ∷ [])
                        ++ (setup_pins m
                            ++ (setup_enable m.can_enable_inverted m.enable
                                ++ (can_init m.use_can2
                                    ∷ (when m.can_rx_buffer_enabled (fifo_init ∷ [])
                                        ++ setup_interrupts m)))))))))

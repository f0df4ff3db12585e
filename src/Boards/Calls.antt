-- ===== src/Boards/Calls.antt =====
-- Calls that several of the boards' platform.c make.
use cvra_bootloader.Prelude.{ℕ, ◌/◌, ◌+◌, false, List, ◌++◌, map}
use cvra_bootloader.Can.Setup.{
  Action, gpio_mode_af, gpio_mode_output, gpio_set_af, gpio_mode_setup, gpio_set_output_options,
}

-- A call for several pins of a port is an action for each. This is the set-up of the two pins of the CAN.
unfoldable pub setup_can_pins : ℕ → List ℕ → List Action
setup_can_pins port pins =
    map (gpio_mode_setup port gpio_mode_af false) pins
    ++ (map (gpio_set_output_options port) pins ++ map (gpio_set_af port) pins)

-- The set-up of pins as outputs.
unfoldable pub setup_outputs : ℕ → List ℕ → List Action
setup_outputs port pins =
    map (gpio_mode_setup port gpio_mode_output false) pins
    ++ map (gpio_set_output_options port) pins

-- The time segments of a bit, in quanta, and the prescaler, as can_init has them.
pub record Timing : Type 0 where
  pub ts1 : ℕ
  pub ts2 : ℕ
  pub prescaler : ℕ

-- The bit rate of a CAN whose bus has this clock: a bit is one quantum more than both segments.
abbrev pub bit_rate : ℕ → Timing → ℕ
bit_rate apb1 t = apb1 / t.prescaler / (1 + t.ts1 + t.ts2)

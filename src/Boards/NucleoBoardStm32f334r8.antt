-- ===== src/Boards/NucleoBoardStm32f334r8.antt =====
-- platform/nucleo-board-stm32f334r8/platform.c, for all pins that platform.h can have.
use cvra_bootloader.Prelude.{ℕ, true, false, List, [], ◌∷◌, ◌++◌, ◌==◌, ◌||◌, if◌then◌else◌}
use cvra_bootloader.Can.Filters.{Filter, promiscuous_mask}
use cvra_bootloader.Can.Setup.{
  Action, gpio_mode_af, clock_gpio, clock_can1, gpio_set_af, gpio_mode_setup, gpio_set, can_init,
  Macros, enables, setup_enable,
}
use cvra_bootloader.Boards.Calls.{setup_outputs, Timing}

-- The arguments of `can_init`.
abbrev pub timing : Timing
timing = record { ts1 = 10; ts2 = 7; prescaler = 1 }

-- The call of `can_filter_id_mask_32bit_init`.
abbrev pub filter : Filter
filter = record { number = 0; id = 0; mask = promiscuous_mask }

-- The clock of a port, if it is that of CAN_TX, of CAN_RX or of CAN_ENABLE.
unfoldable pub enable_port : Macros → ℕ → List Action
enable_port m port =
    if m.tx_port == port || m.rx_port == port || enables m.enable port
    then clock_gpio port ∷ []
    else []

-- `led_init`, with the port and the pin of LED2.
unfoldable pub led_init : ℕ → ℕ → List Action
unfolding setup_outputs
led_init port pin =
    (if port == 0 then clock_gpio 0 ∷ [] else [])
    ++ ((if port == 1 then clock_gpio 1 ∷ [] else [])
        ++ (setup_outputs port (pin ∷ []) ++ (gpio_set port pin ∷ [])))

-- The other calls of `can_interface_init`.
unfoldable pub can_interface_init : Macros → List Action
unfolding enable_port
can_interface_init m =
    enable_port m 0
    ++ (enable_port m 1
        ++ (clock_can1
            ∷ gpio_mode_setup m.tx_port gpio_mode_af true m.tx_pin
            ∷ gpio_set_af m.tx_port m.tx_pin
            ∷ gpio_mode_setup m.rx_port gpio_mode_af true m.rx_pin
            ∷ gpio_set_af m.rx_port m.rx_pin
            ∷ (setup_enable m.can_enable_inverted m.enable ++ (can_init false ∷ []))))

-- `platform_main`, behind the set-up of the clocks and up to bootloader_main, without the timer and the blinking.
unfoldable pub platform_main : Macros → ℕ → ℕ → List Action
unfolding led_init can_interface_init
platform_main m port pin = led_init port pin ++ can_interface_init m

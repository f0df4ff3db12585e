-- ===== src/Boards/OlimexE407.antt =====
-- platform/olimex-e407/platform.c.
use cvra_bootloader.Prelude.{false, List, [], ◌∷◌, ◌++◌}
use cvra_bootloader.Can.Filters.{Filter, promiscuous_mask}
use cvra_bootloader.Can.Setup.{Action, clock_gpio, clock_can1, gpio_clear, can_init}
use cvra_bootloader.Boards.Calls.{setup_can_pins, setup_outputs, Timing}

-- The arguments of `can_init`.
abbrev pub timing : Timing
timing = record { ts1 = 12; ts2 = 8; prescaler = 2 }

-- The call of `can_filter_id_mask_32bit_init`.
abbrev pub filter : Filter
filter = record { number = 0; id = 0; mask = promiscuous_mask }

-- The other calls of `can_interface_init`.
unfoldable pub can_interface_init : List Action
unfolding setup_can_pins setup_outputs
can_interface_init = clock_can1 ∷ can_init false ∷ []

-- `platform_main`, behind the set-up of the clocks and up to bootloader_main, without the timer.
unfoldable pub platform_main : List Action
unfolding setup_can_pins setup_outputs can_interface_init
platform_main =
    clock_gpio 3
    ∷ clock_gpio 2
    ∷ (setup_can_pins 3 (0 ∷ 1 ∷ [])
        ++ (setup_outputs 2 (13 ∷ []) ++ (gpio_clear 2 13 ∷ can_interface_init)))

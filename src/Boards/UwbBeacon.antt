-- ===== src/Boards/UwbBeacon.antt =====
-- platform/uwb-beacon/platform.c.
use cvra_bootloader.Prelude.{false, List, [], ◌∷◌, ◌++◌, map}
use cvra_bootloader.Can.Filters.{Filter, promiscuous_mask}
use cvra_bootloader.Can.Setup.{Action, clock_gpio, clock_can1, gpio_set, gpio_clear, can_init}
use cvra_bootloader.Boards.Calls.{setup_can_pins, setup_outputs, Timing}

-- The arguments of `can_init`.
abbrev pub timing : Timing
timing = record { ts1 = 12; ts2 = 8; prescaler = 2 }

-- The call of `can_filter_id_mask_32bit_init`.
abbrev pub filter : Filter
filter = record { number = 0; id = 0; mask = promiscuous_mask }

-- The other calls of `can_interface_init`.
unfoldable pub can_interface_init : List Action
unfolding setup_can_pins setup_outputs
can_interface_init = clock_can1 ∷ can_init false ∷ []

-- `platform_main`, behind the set-up of the clocks and up to bootloader_main, without the timer.
unfoldable pub platform_main : List Action
unfolding setup_can_pins setup_outputs can_interface_init
platform_main =
    clock_gpio 1
    ∷ (setup_can_pins 1 (8 ∷ 9 ∷ [])
        ++ (setup_outputs 1 (0 ∷ 1 ∷ 2 ∷ [])
            ++ (map (gpio_clear 1) (0 ∷ 1 ∷ 2 ∷ []) ++ (gpio_set 1 2 ∷ can_interface_init))))

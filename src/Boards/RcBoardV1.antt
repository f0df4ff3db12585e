-- ===== src/Boards/RcBoardV1.antt =====
-- platform/rc-board-v1/platform.c.
use cvra_bootloader.Prelude.{false, List, [], ◌∷◌, ◌++◌}
use cvra_bootloader.Can.Filters.{Filter}
use cvra_bootloader.Can.Setup.{Action, clock_gpio, clock_can1, gpio_set, gpio_clear, can_init}
use cvra_bootloader.Boards.Calls.{setup_can_pins, setup_outputs, Timing}
use cvra_bootloader.Clock
use cvra_bootloader.Clock.Scaled.{rcc_clock_setup_hse, clock_72mhz}

-- The arguments of `can_init`.
abbrev pub timing : Timing
timing = record { ts1 = 10; ts2 = 7; prescaler = 2 }

-- The call of `can_filter_id_mask_32bit_init`.
abbrev pub filter : Filter
filter = record { number = 0; id = 0; mask = 6 }

-- The other calls of `can_interface_init`.
unfoldable pub can_interface_init : List Action
unfolding setup_can_pins setup_outputs
can_interface_init =
    clock_can1
    ∷ clock_gpio 0
    ∷ (setup_outputs 0 (8 ∷ [])
        ++ (gpio_clear 0 8 ∷ (setup_can_pins 0 (11 ∷ 12 ∷ []) ++ (can_init false ∷ []))))

-- `rcc_clock_setup_hse(&clock_72mhz)`. The function and the settings are those of the can-io-board, word for word.
unfoldable pub clock_setup : List Clock.Action
unfolding rcc_clock_setup_hse
clock_setup = rcc_clock_setup_hse clock_72mhz

-- `platform_main`, behind the set-up of the clocks and up to bootloader_main, without the timer.
unfoldable pub platform_main : List Action
unfolding setup_can_pins setup_outputs can_interface_init
platform_main =
    clock_gpio 2 ∷ (setup_outputs 2 (13 ∷ 14 ∷ 15 ∷ []) ++ (gpio_set 2 13 ∷ can_interface_init))

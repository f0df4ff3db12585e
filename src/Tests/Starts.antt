-- ===== src/Tests/Starts.antt =====
-- The theorems on the start of a board, at concrete inputs.
use cvra_bootloader.Prelude.{
  ◌*◌, ◌+◌, ◌/◌, ◌≡◌, refl, ◌&&◌, not, true, false, ltb, [], ◌∷◌, some, none, arith, get_elem?,
}
use cvra_bootloader.Bootloader.Loop.{is_for}
use cvra_bootloader.Boot.{start_app}
use cvra_bootloader.Boot.Memory.{Memory, Sections, bootloader_startup}
use cvra_bootloader.Boot.Memory.Startup.{IsLaidOut, initialised, bootloader_startup_lem}
use cvra_bootloader.Boot.Vectors.{irq, vector_table, number, effect, expected, vector_table_lem}
use cvra_bootloader.Can.Filters.Accepted.{accepts}
use cvra_bootloader.Can.Setup.{Macros}
use cvra_bootloader.Can.Setup.Allowed.{in_order, at_reset}
use cvra_bootloader.Clock
use cvra_bootloader.Clock.{Chip, run, ahb_hz, apb1_hz, apb2_hz}
use cvra_bootloader.Clock.Scaled.{rcc_clock_setup_hse, clock_72mhz}
use cvra_bootloader.Clock.Stm32f4.{rcc_clock_setup_in_hsi_out_36mhz}
use cvra_bootloader.Clock.Order.{IsSlow}
use cvra_bootloader.Clock.Crystal.{Fits, wanted_ahb, rcc_clock_setup_hse-in_order}
use cvra_bootloader.Clock.Internal.{IsFastOnTheWay, hsi_out_36mhz_is_72mhz}
use cvra_bootloader.Timer.{systick_reload}
use cvra_bootloader.Boards.{nucleo_board_stm32f334r8}
use cvra_bootloader.Boards.Calls.{bit_rate}
use cvra_bootloader.Boards.Table.{calls, timing, filter_of}
use cvra_bootloader.Boards.Order.{without_af}
use cvra_bootloader.Boards.Rates.{apb1_of}
use cvra_bootloader.Boards.SetUp.{boards_set_up}

-- Flash memory from 0 on, RAM from 100 on: three words of .data, and two of .bss behind them.
abbrev sections : Sections
sections = record { sdata = 100; edata = 103; sbss = 103; ebss = 105; ldata = 20; etext = 10 }

abbrev memory : Memory
memory a = a * 7 + 1

sections-IsLaidOut : IsLaidOut sections
sections-IsLaidOut = record {
  data_ends = omega arith;
  bss_follows = omega arith;
  bss_ends = omega arith;
  flash_below = omega arith;
}

bootloader_startup_example :
    bootloader_startup 10 sections memory ≡ some (initialised sections memory)
bootloader_startup_example =
    bootloader_startup_lem sections memory 10 sections-IsLaidOut (omega arith) (omega arith)

-- A frame on CAN1, while an application would start.
vector_table_example :
    effect start_app (get_elem? vector_table (number (irq 20))) ≡ expected (irq 20)
vector_table_example = vector_table_lem start_app (irq 20) (omega arith)

-- An STM32F3 with a crystal of 16 MHz, and an STM32F446.
abbrev stm32f3 : Chip
stm32f3 = record {
  hsi_hz = 8000000;
  hse_hz = 16000000;
  max_ahb = 72000000;
  max_apb1 = 36000000;
  max_apb2 = 72000000;
  ws_hz = 24000000;
}

abbrev stm32f446 : Chip
stm32f446 = record {
  hsi_hz = 16000000;
  hse_hz = 25000000;
  max_ahb = 180000000;
  max_apb1 = 45000000;
  max_apb2 = 90000000;
  ws_hz = 30000000;
}

stm32f3-IsSlow : IsSlow stm32f3
stm32f3-IsSlow = record {
  hsi_ahb = omega arith;
  hsi_apb1 = omega arith;
  hsi_apb2 = omega arith;
  hsi_ws = omega arith;
  hse_ahb = omega arith;
  hse_apb1 = omega arith;
  hse_apb2 = omega arith;
  hse_ws = omega arith;
}

clock_72mhz-Fits : Fits stm32f3 clock_72mhz
clock_72mhz-Fits = record {
  ahb_fits = omega arith;
  apb1_fits = omega arith;
  apb2_fits = omega arith;
  ws_fits = omega arith;
}

rcc_clock_setup_hse-in_order_example :
    (Clock.in_order stm32f3 (rcc_clock_setup_hse clock_72mhz) Clock.at_reset ≡ true)
    × (ahb_hz stm32f3 (run (rcc_clock_setup_hse clock_72mhz) Clock.at_reset)
        ≡ wanted_ahb stm32f3 clock_72mhz)
rcc_clock_setup_hse-in_order_example =
    rcc_clock_setup_hse-in_order stm32f3 clock_72mhz stm32f3-IsSlow clock_72mhz-Fits

stm32f446-IsSlow : IsSlow stm32f446
stm32f446-IsSlow = record {
  hsi_ahb = omega arith;
  hsi_apb1 = omega arith;
  hsi_apb2 = omega arith;
  hsi_ws = omega arith;
  hse_ahb = omega arith;
  hse_apb1 = omega arith;
  hse_apb2 = omega arith;
  hse_ws = omega arith;
}

hsi_out_36mhz_is_72mhz_example :
    (ahb_hz stm32f446 (run rcc_clock_setup_in_hsi_out_36mhz Clock.at_reset) ≡ 72000000)
    × (apb1_hz stm32f446 (run rcc_clock_setup_in_hsi_out_36mhz Clock.at_reset) ≡ 18000000)
    × (apb2_hz stm32f446 (run rcc_clock_setup_in_hsi_out_36mhz Clock.at_reset) ≡ 36000000)
    × (ahb_hz stm32f446 (run rcc_clock_setup_in_hsi_out_36mhz Clock.at_reset)
          / (systick_reload 36000000 + 1)
        ≡ 1999)
    × IsFastOnTheWay stm32f446 rcc_clock_setup_in_hsi_out_36mhz
    × (Clock.in_order stm32f446 rcc_clock_setup_in_hsi_out_36mhz Clock.at_reset ≡ false)
hsi_out_36mhz_is_72mhz_example =
    hsi_out_36mhz_is_72mhz stm32f446 stm32f446-IsSlow refl (omega arith)

-- The nucleo-board-stm32f334r8 with the CAN at PA11 and PA12, and the LED at PA5.
abbrev macros : Macros
macros = record {
  tx_port = 0;
  tx_pin = 12;
  rx_port = 0;
  rx_pin = 11;
  enable = none;
  can_enable_inverted = false;
  use_can1 = true;
  use_can2 = false;
  can_rx_buffer_enabled = false;
  can_use_interrupts = false;
}

boards_set_up_example :
    (in_order (calls (nucleo_board_stm32f334r8 macros 0 5)) without_af ≡ true)
    × (in_order (calls (nucleo_board_stm32f334r8 macros 0 5)) at_reset ≡ false)
    × (bit_rate
          (apb1_of (nucleo_board_stm32f334r8 macros 0 5) stm32f3 18000000)
          (timing (nucleo_board_stm32f334r8 macros 0 5))
        ≡ 1000000)
    × (accepts (filter_of (nucleo_board_stm32f334r8 macros 0 5) ∷ []) 128 ≡ ltb 128 256)
    × ((is_for 10 128 && not (accepts (filter_of (nucleo_board_stm32f334r8 macros 0 5) ∷ []) 128))
        ≡ false)
boards_set_up_example =
    boards_set_up (nucleo_board_stm32f334r8 macros 0 5) stm32f3 18000000 10 128
      (omega arith, omega arith, omega arith, λ q e. absurd (ground (arith, e))) refl (omega arith)
      (omega arith)

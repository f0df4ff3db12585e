-- ===== src/Clock/Stm32f1.antt =====
-- platform/nucleo-board-stm32f103rb/platform.c: rcc_clock_setup_in_hsi_out_36mhz.
use cvra_bootloader.Prelude.{List, [], ◌∷◌}
use cvra_bootloader.Clock.{
  hsi, pll, Action, osc_on, wait_for_osc_ready, set_sysclk_source, set_main_pll, set_hpre,
  set_ppre1, set_ppre2, flash_set_ws, rcc_apb1_frequency, rcc_apb2_frequency,
}

-- The calls that set the factor and the source of the PLL, which is half of the HSI, are one action. That for
-- the clock of the ADC is left out. RCC_CFGR_PPRE1_HCLK_DIV2 is 4.
unfoldable pub rcc_clock_setup_in_hsi_out_36mhz : List Action
rcc_clock_setup_in_hsi_out_36mhz =
    osc_on hsi
    ∷ wait_for_osc_ready hsi
    ∷ set_sysclk_source hsi
    ∷ set_hpre 0
    ∷ set_ppre1 4
    ∷ set_ppre2 0
    ∷ flash_set_ws 1
    ∷ set_main_pll hsi 2 9 1
    ∷ osc_on pll
    ∷ wait_for_osc_ready pll
    ∷ set_sysclk_source pll
    ∷ rcc_apb1_frequency 18000000
    ∷ rcc_apb2_frequency 36000000
    ∷ []

-- ===== src/Clock/Stm32f4.antt =====
-- platform/mcu/stm32f4/clock.c: the two functions that set up all clocks.
use cvra_bootloader.Prelude.{List, [], ◌∷◌}
use cvra_bootloader.Clock.{
  hsi, hse, pll, Action, osc_on, osc_off, wait_for_osc_ready, wait_for_osc_not_ready,
  set_sysclk_source, wait_for_sysclk_status, set_pll_source, set_main_pll, set_hpre, set_ppre1,
  set_ppre2, flash_set_ws, rcc_ahb_frequency, rcc_apb1_frequency, rcc_apb2_frequency,
}

unfoldable pub rcc_clock_setup_in_hsi_out_36mhz : List Action
rcc_clock_setup_in_hsi_out_36mhz =
    osc_on hsi
    ∷ wait_for_osc_ready hsi
    ∷ set_sysclk_source hsi
    ∷ wait_for_sysclk_status hsi
    ∷ osc_off pll
    ∷ wait_for_osc_not_ready pll
    ∷ set_pll_source hsi
    ∷ set_main_pll hsi 8 72 2
    ∷ osc_on pll
    ∷ wait_for_osc_ready pll
    ∷ flash_set_ws 2
    ∷ set_hpre 2
    ∷ set_sysclk_source pll
    ∷ wait_for_sysclk_status pll
    ∷ set_ppre1 5
    ∷ set_ppre2 4
    ∷ []

-- RCC_CFGR_HPRE_DIV_2 is 8, RCC_CFGR_PPRE_DIV_NONE is 0, and FLASH_ACR_LATENCY_1WS is one wait state.
unfoldable pub rcc_clock_setup_in_hse_25mhz_out_36mhz : List Action
rcc_clock_setup_in_hse_25mhz_out_36mhz =
    osc_on hsi
    ∷ wait_for_osc_ready hsi
    ∷ set_sysclk_source hsi
    ∷ wait_for_sysclk_status hsi
    ∷ osc_on hse
    ∷ wait_for_osc_ready hse
    ∷ osc_off pll
    ∷ wait_for_osc_not_ready pll
    ∷ set_main_pll hse 25 144 4
    ∷ osc_on pll
    ∷ wait_for_osc_ready pll
    ∷ set_hpre 8
    ∷ set_ppre1 0
    ∷ set_ppre2 0
    ∷ rcc_ahb_frequency 18000000
    ∷ rcc_apb1_frequency 36000000
    ∷ rcc_apb2_frequency 36000000
    ∷ flash_set_ws 1
    ∷ set_sysclk_source pll
    ∷ wait_for_sysclk_status pll
    ∷ []

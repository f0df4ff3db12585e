-- ===== src/Clock/Scaled.antt =====
-- rcc_clock_setup_hse and rcc_set_main_pll_hse of platform/can-io-board/platform.c; motor-board-v1 and
-- rc-board-v1 have them too, with the same clock_72mhz.
use cvra_bootloader.Prelude.{ℕ, List, [], ◌∷◌}
use cvra_bootloader.Clock.{
  Osc, hse, pll, Action, osc_on, osc_off, wait_for_osc_ready, wait_for_osc_not_ready,
  set_sysclk_source, wait_for_sysclk_status, set_pll_source, set_main_pll_hse, set_prediv, set_hpre,
  set_ppre1, set_ppre2, flash_set_ws, rcc_apb1_frequency, rcc_apb2_frequency,
}

-- `my_clock_scale_t`, with divisors, factors and wait states in place of their codes. power_save is not read.
pub record Scale : Type 0 where
  pub pllpre : ℕ
  pub pll : ℕ
  pub pllsrc : Osc
  pub flash_config : ℕ
  pub hpre : ℕ
  pub ppre1 : ℕ
  pub ppre2 : ℕ
  pub apb1_frequency : ℕ
  pub apb2_frequency : ℕ

-- RCC_CFGR_HPRE_DIV_NONE, RCC_CFGR_PPRE1_DIV_2 and RCC_CFGR_PPRE2_DIV_NONE are 0, 4 and 0.
abbrev pub clock_72mhz : Scale
clock_72mhz = record {
  pllpre = 2;
  pll = 9;
  pllsrc = hse;
  hpre = 0;
  ppre1 = 4;
  ppre2 = 0;
  flash_config = 2;
  apb1_frequency = 36000000;
  apb2_frequency = 72000000;
}

unfoldable pub rcc_clock_setup_hse : Scale → List Action
rcc_clock_setup_hse clock =
    osc_on hse
    ∷ wait_for_osc_ready hse
    ∷ set_sysclk_source hse
    ∷ wait_for_sysclk_status hse
    ∷ osc_off pll
    ∷ wait_for_osc_not_ready pll
    ∷ set_pll_source clock.pllsrc
    ∷ set_main_pll_hse clock.pll
    ∷ set_prediv clock.pllpre
    ∷ osc_on pll
    ∷ wait_for_osc_ready pll
    ∷ set_hpre clock.hpre
    ∷ set_ppre2 clock.ppre2
    ∷ set_ppre1 clock.ppre1
    ∷ flash_set_ws clock.flash_config
    ∷ set_sysclk_source pll
    ∷ wait_for_sysclk_status pll
    ∷ rcc_apb1_frequency clock.apb1_frequency
    ∷ rcc_apb2_frequency clock.apb2_frequency
    ∷ []

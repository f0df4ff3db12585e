-- ===== src/Clock/Crystal.antt =====
-- rcc_clock_setup_hse, from the crystal over the PLL.
use cvra_bootloader.Prelude.{ℕ, ◌+◌, ◌*◌, ◌/◌, ◌≤◌, ◌≡◌, refl, ap, ◌∙◌, true, List, [], ◌∷◌, arith}
use cvra_bootloader.Clock.{
  Action, hse, osc_on, osc_off, wait_for_osc_ready, wait_for_osc_not_ready, set_sysclk_source,
  wait_for_sysclk_status, set_pll_source, set_main_pll_hse, set_prediv, set_hpre, set_ppre1,
  set_ppre2, flash_set_ws, rcc_apb1_frequency, rcc_apb2_frequency, pll, Tree, Chip, run,
  ahb_divisor, apb_divisor, ahb_hz, within, allowed, in_order, at_reset,
}
use cvra_bootloader.Clock.Scaled.{Scale, rcc_clock_setup_hse}
use cvra_bootloader.Clock.Order.{IsSlow, within_limits, in_order-append, calm-in_order}
use cvra_bootloader.Can.Setup.Allowed.{and_both}

module _ (chip : Chip) (clock : Scale) where
  -- The clock of the AHB that the settings ask for.
  abbrev pub wanted_ahb : ℕ
  wanted_ahb = chip.hse_hz / clock.pllpre * clock.pll / ahb_divisor clock.hpre

  -- It is slow enough, with the wait states and prescalers of the settings.
  pub record Fits : Type 0 where
    pub ahb_fits : wanted_ahb ≤ chip.max_ahb
    pub apb1_fits : wanted_ahb / apb_divisor clock.ppre1 ≤ chip.max_apb1
    pub apb2_fits : wanted_ahb / apb_divisor clock.ppre2 ≤ chip.max_apb2
    pub ws_fits : wanted_ahb ≤ (clock.flash_config + 1) * chip.ws_hz

  -- The processor runs from the PLL, as the settings have it.
  record IsWanted (t : Tree) : Type 0 where
    source : t.sysclk ≡ pll
    ahb : ahb_hz chip t ≡ wanted_ahb
    apb1 : t.ppre1 ≡ clock.ppre1
    apb2 : t.ppre2 ≡ clock.ppre2
    states : t.ws ≡ clock.flash_config

  wanted-within : (t : Tree) → Fits → IsWanted t → within chip t ≡ true
  wanted-within t v w =
      within_limits chip t (rw w.ahb v.ahb_fits) (rw (w.ahb, w.apb1) v.apb1_fits)
        (rw (w.ahb, w.apb2) v.apb2_fits) (rw (w.ahb, w.states) v.ws_fits)

  over_one : (n : ℕ) → n / 1 ≡ n
  over_one n = omega arith

  abbrev on_crystal : List Action
  on_crystal =
      osc_on hse
      ∷ wait_for_osc_ready hse
      ∷ set_sysclk_source hse
      ∷ wait_for_sysclk_status hse
      ∷ osc_off pll
      ∷ wait_for_osc_not_ready pll
      ∷ set_pll_source clock.pllsrc
      ∷ set_main_pll_hse clock.pll
      ∷ set_prediv clock.pllpre
      ∷ osc_on pll
      ∷ wait_for_osc_ready pll
      ∷ set_hpre clock.hpre
      ∷ set_ppre2 clock.ppre2
      ∷ set_ppre1 clock.ppre1
      ∷ flash_set_ws clock.flash_config
      ∷ []

  abbrev on_pll : List Action
  on_pll =
      set_sysclk_source pll
      ∷ wait_for_sysclk_status pll
      ∷ rcc_apb1_frequency clock.apb1_frequency
      ∷ rcc_apb2_frequency clock.apb2_frequency
      ∷ []

  abbrev pll_tree : ℕ → ℕ → Tree
  pll_tree apb1 apb2 = record (run on_crystal at_reset) {
    sysclk = pll;
    apb1_frequency = apb1;
    apb2_frequency = apb2;
  }

  pll_tree-within : (apb1 apb2 : ℕ) → Fits → within chip (pll_tree apb1 apb2) ≡ true
  pll_tree-within apb1 apb2 v = wanted-within (pll_tree apb1 apb2) v (record {
    source = refl;
    ahb = ap (λ f. f / ahb_divisor clock.hpre) (over_one (chip.hse_hz / clock.pllpre * clock.pll));
    apb1 = refl;
    apb2 = refl;
    states = refl;
  })

  on_pll-in_order : Fits → in_order chip on_pll (run on_crystal at_reset) ≡ true
  unfolding allowed in_order
  on_pll-in_order v =
      rw
        (
          pll_tree-within 0 0 v,
          pll_tree-within clock.apb1_frequency 0 v,
          pll_tree-within clock.apb1_frequency clock.apb2_frequency v,
        )
        refl

  -- With a crystal and an internal oscillator that are slow enough for every bus and for flash memory without
  -- wait states, and with settings whose clocks are not too fast: rcc_clock_setup_hse leads from a reset to the
  -- clock that the settings ask for. On the way no clock is too fast, no oscillator in use is turned off, the
  -- PLL is changed only while it is off, and each loop that waits ends.
  pub rcc_clock_setup_hse-in_order :
      IsSlow chip
      → Fits
      → (in_order chip (rcc_clock_setup_hse clock) at_reset ≡ true)
        × (ahb_hz chip (run (rcc_clock_setup_hse clock) at_reset) ≡ wanted_ahb)
  unfolding rcc_clock_setup_hse allowed
  rcc_clock_setup_hse-in_order s v = (
    in_order-append chip on_crystal on_pll at_reset
        ∙ and_both _ _ (calm-in_order chip on_crystal at_reset s refl) (on_pll-in_order v),
    ap (λ f. f / ahb_divisor clock.hpre) (over_one (chip.hse_hz / clock.pllpre * clock.pll)),
  )

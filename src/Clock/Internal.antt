-- ===== src/Clock/Internal.antt =====
-- The two set-ups of platform/mcu/stm32f4/clock.c, and the tick that timer_init makes of the first.
use cvra_bootloader.Prelude.{
  ◌+◌, ◌/◌, ◌<◌, ◌≡◌, refl, ap, ◌∙◌, Bool, true, false, ◌&&◌, leb, List, [], ◌∷◌, ◌++◌, arith,
}
use cvra_bootloader.Clock.{
  Action, hsi, hse, pll, osc_on, osc_off, wait_for_osc_ready, wait_for_osc_not_ready,
  set_sysclk_source, wait_for_sysclk_status, set_pll_source, set_main_pll, set_hpre, set_ppre1,
  set_ppre2, flash_set_ws, rcc_ahb_frequency, rcc_apb1_frequency, rcc_apb2_frequency, Chip, run,
  ahb_hz, apb1_hz, apb2_hz, within, allowed, in_order, at_reset,
}
use cvra_bootloader.Clock.Stm32f4.{
  rcc_clock_setup_in_hsi_out_36mhz, rcc_clock_setup_in_hse_25mhz_out_36mhz,
}
use cvra_bootloader.Clock.Order.{IsSlow, slow_enough, in_order-append, calm-in_order}
use cvra_bootloader.Can.Setup.Allowed.{and_both}
use cvra_bootloader.Timer.{systick_reload}

abbrev before_pll : List Action
before_pll =
    osc_on hsi
    ∷ wait_for_osc_ready hsi
    ∷ set_sysclk_source hsi
    ∷ wait_for_sysclk_status hsi
    ∷ osc_off pll
    ∷ wait_for_osc_not_ready pll
    ∷ set_pll_source hsi
    ∷ set_main_pll hsi 8 72 2
    ∷ osc_on pll
    ∷ wait_for_osc_ready pll
    ∷ flash_set_ws 2
    ∷ set_hpre 2
    ∷ []

abbrev pub select_pll : List Action
select_pll = set_sysclk_source pll ∷ wait_for_sysclk_status pll ∷ []

abbrev behind_pll : List Action
behind_pll = set_sysclk_source pll ∷ wait_for_sysclk_status pll ∷ set_ppre1 5 ∷ set_ppre2 4 ∷ []

and_false_right : (b : Bool) → (b && false) ≡ false
and_false_right true = refl
and_false_right false = refl

third_fails : (a b c d : Bool) → b ≡ false → ((a && (b && c)) && d) ≡ false
third_fails true b c d e = rw e refl
third_fails false b c d e = refl

-- When the PLL is selected, its clock goes to the APB1 undivided.
too_fast :
    (chip : Chip)
    → chip.hsi_hz ≡ 16000000
    → chip.max_apb1 < 72000000
    → in_order chip behind_pll (run before_pll at_reset) ≡ false
unfolding in_order allowed within
too_fast chip e l =
    let fast : leb 72000000 chip.max_apb1 ≡ false = ground arith in rw e (third_fails _ _ _ _ fast)

-- The calls in front of those that select the PLL are in order. Behind these the APB1 has 72 MHz, more than its
-- limit, and the next call is the one that sets its prescaler.
abbrev pub IsFastOnTheWay : Chip → List Action → Type 0
IsFastOnTheWay chip setup =
    (before : List Action) × (behind : List Action) × (setup
      ≡ before ++ (select_pll ++ (set_ppre1 5 ∷ behind)))
    × (in_order chip before at_reset ≡ true)
    × (apb1_hz chip (run select_pll (run before at_reset)) ≡ 72000000)
    × (chip.max_apb1 < apb1_hz chip (run select_pll (run before at_reset)))

-- From an HSI of 16 MHz, rcc_clock_setup_in_hsi_out_36mhz leads to an AHB of 72 MHz and not of 36 MHz, as the
-- value 2 of its prescaler does not divide, to an APB1 of 18 MHz and an APB2 of 36 MHz. The ticks of
-- timer_init for 36 MHz come 1999 times in a second. Up to the calls that select the PLL every call is in order
-- and no clock is too fast; but from these on until the call that sets the prescaler of the APB1, this bus has
-- 72 MHz, more than its limit, so that the set-up as a whole is not in order. The conditions: the limit of the
-- APB1 is below 72 MHz, and both oscillators are slow enough for every bus and for flash memory without wait
-- states.
pub hsi_out_36mhz_is_72mhz :
    (chip : Chip)
    → IsSlow chip
    → chip.hsi_hz ≡ 16000000
    → chip.max_apb1 < 72000000
    → (ahb_hz chip (run rcc_clock_setup_in_hsi_out_36mhz at_reset) ≡ 72000000)
      × (apb1_hz chip (run rcc_clock_setup_in_hsi_out_36mhz at_reset) ≡ 18000000)
      × (apb2_hz chip (run rcc_clock_setup_in_hsi_out_36mhz at_reset) ≡ 36000000)
      × (ahb_hz chip (run rcc_clock_setup_in_hsi_out_36mhz at_reset) / (systick_reload 36000000 + 1)
          ≡ 1999)
      × IsFastOnTheWay chip rcc_clock_setup_in_hsi_out_36mhz
      × (in_order chip rcc_clock_setup_in_hsi_out_36mhz at_reset ≡ false)
unfolding rcc_clock_setup_in_hsi_out_36mhz systick_reload allowed
hsi_out_36mhz_is_72mhz chip v e l = (
  rw e refl,
  rw e refl,
  rw e refl,
  rw e refl,
  (
    before_pll,
    set_ppre2 4 ∷ [],
    refl,
    calm-in_order chip before_pll at_reset v refl,
    rw e refl,
    (let fast : apb1_hz chip (run select_pll (run before_pll at_reset)) ≡ 72000000 = rw e refl in
        omega (arith, fast, l)),
  ),
  in_order-append chip before_pll behind_pll at_reset
      ∙ ap (λ b. in_order chip before_pll at_reset && b) (too_fast chip e l)
      ∙ and_false_right (in_order chip before_pll at_reset),
)

abbrev on_internal : List Action
on_internal =
    osc_on hsi
    ∷ wait_for_osc_ready hsi
    ∷ set_sysclk_source hsi
    ∷ wait_for_sysclk_status hsi
    ∷ osc_on hse
    ∷ wait_for_osc_ready hse
    ∷ osc_off pll
    ∷ wait_for_osc_not_ready pll
    ∷ set_main_pll hse 25 144 4
    ∷ osc_on pll
    ∷ wait_for_osc_ready pll
    ∷ set_hpre 8
    ∷ set_ppre1 0
    ∷ set_ppre2 0
    ∷ rcc_ahb_frequency 18000000
    ∷ rcc_apb1_frequency 36000000
    ∷ rcc_apb2_frequency 36000000
    ∷ flash_set_ws 1
    ∷ []

selected_within :
    (chip : Chip)
    → IsSlow chip
    → chip.hse_hz ≡ 25000000
    → within chip (run select_pll (run on_internal at_reset)) ≡ true
selected_within chip v e =
    let speed : ahb_hz chip (run select_pll (run on_internal at_reset)) ≡ 18000000 = rw e refl in
    slow_enough chip (run select_pll (run on_internal at_reset)) chip.hse_hz (omega arith) v.hse_ahb
      v.hse_apb1 v.hse_apb2 v.hse_ws

select_pll-in_order :
    (chip : Chip)
    → IsSlow chip
    → chip.hse_hz ≡ 25000000
    → in_order chip select_pll (run on_internal at_reset) ≡ true
unfolding in_order allowed
select_pll-in_order chip v e = rw (selected_within chip v e) refl

-- With a crystal of 25 MHz, rcc_clock_setup_in_hse_25mhz_out_36mhz leads to a clock of 18 MHz on all three
-- buses, with the variables for the APB1 and the APB2 at 36 MHz. On the way no clock is too fast, if both
-- oscillators are slow enough for every bus and for flash memory without wait states.
pub hse_25mhz_out_36mhz_is_18mhz :
    (chip : Chip)
    → IsSlow chip
    → chip.hse_hz ≡ 25000000
    → (in_order chip rcc_clock_setup_in_hse_25mhz_out_36mhz at_reset ≡ true)
      × (ahb_hz chip (run rcc_clock_setup_in_hse_25mhz_out_36mhz at_reset) ≡ 18000000)
      × (apb1_hz chip (run rcc_clock_setup_in_hse_25mhz_out_36mhz at_reset) ≡ 18000000)
      × (apb2_hz chip (run rcc_clock_setup_in_hse_25mhz_out_36mhz at_reset) ≡ 18000000)
unfolding rcc_clock_setup_in_hse_25mhz_out_36mhz allowed
hse_25mhz_out_36mhz_is_18mhz chip v e = (
  in_order-append chip on_internal select_pll at_reset
      ∙ and_both _ _ (calm-in_order chip on_internal at_reset v refl)
          (select_pll-in_order chip v e),
  rw e refl,
  rw e refl,
  rw e refl,
)

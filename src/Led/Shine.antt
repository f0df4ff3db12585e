-- ===== src/Led/Shine.antt =====
-- How long an LED shines.
use cvra_bootloader.Prelude.{
  ℕ, zero, suc, ◌+◌, ◌*◌, ◌^◌, ◌<◌, ◌≤◌, ◌≡◌, ap, ◌∙◌, true, false, arith, ltb,
}
use cvra_bootloader.Prelude.Words.{u32, sub32}
use cvra_bootloader.Led.{Led, Leds, switch_on, switch_off, led_on, led_process}

-- led_process in every millisecond, as systick_handler calls it.
pub processed : ℕ → ℕ → ℕ → Leds → Leds
processed duration zero time leds = leds
processed duration (suc n) time leds =
    processed duration n (u32 (time + 1)) (led_process duration (u32 (time + 1)) leds)

processed-lit :
    (duration n k time : ℕ) (leds : Leds)
    → time < 2 ^ 32
    → leds.led1.start_ms < 2 ^ 32
    → sub32 time leds.led1.start_ms ≡ k
    → k + n < 2 ^ 32
    → leds.led1.lit ≡ ltb k duration
    → (processed duration n time leds).led1.lit ≡ ltb (k + n) duration
unfolding processed led_process switch_off
processed-lit duration zero k time leds t s e far on = let n : k + 0 ≡ k = omega arith in rw n on
processed-lit duration (suc n) k time leds t s e far on =
    let time' = u32 (time + 1) in
    let led' = switch_off duration time' leds.led1 in
    let next : Leds = record { led1 = led'; led2 = switch_off duration time' leds.led2 } in
    let start : led'.start_ms ≡ leds.led1.start_ms = ground arith in
    let elapsed : sub32 time' leds.led1.start_ms ≡ k + 1 = omega arith in
    let on' : led'.lit ≡ ltb (k + 1) duration = ground arith in
    let sum : k + 1 + n ≡ k + suc n = omega arith in
    processed-lit duration n (k + 1) time' next (omega arith) (omega (arith, start, s))
      (ap (λ x. sub32 time' x) start ∙ elapsed) (omega arith) on'
    ∙ ap (λ x. ltb x duration) sum

-- When the first LED is off, and was last switched on long enough ago, led_on switches it on for
-- LED_ON_DURATION_MS: after any number of milliseconds, short of one round of the counter, it is lit
-- exactly if fewer have gone by.
pub led_on-shines :
    (duration n time : ℕ) (leds : Leds)
    → 0 < duration
    → time < 2 ^ 32
    → n < 2 ^ 32
    → leds.led1.lit ≡ false
    → 2 * duration ≤ sub32 time leds.led1.start_ms
    → (processed duration n time (led_on duration time 1 leds)).led1.lit ≡ ltb n duration
unfolding led_on switch_on
led_on-shines duration n time leds some t far off ago =
    let lit : Led = record { lit = true; start_ms = time } in
    let on : switch_on duration time leds.led1 ≡ lit = ground arith in
    let sum : 0 + n ≡ n = omega arith in
    let first : ltb 0 duration ≡ true = ground arith in
    ap (λ led. (processed duration n time (record { led1 = led; led2 = leds.led2 })).led1.lit) on
    ∙ processed-lit duration n 0 time (record { led1 = lit; led2 = leds.led2 }) t t (omega arith)
        (omega arith) (ground arith)
    ∙ ap (λ x. ltb x duration) sum

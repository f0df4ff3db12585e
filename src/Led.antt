-- ===== src/Led.antt =====
-- platform/mcu/stm32f4/led.c, on a platform that has both LEDs.
pub mod Shine
use cvra_bootloader.Prelude.{ℕ, ◌*◌, Bool, true, false, not, ◌&&◌, ◌==◌, leb, if◌then◌else◌}
use cvra_bootloader.Prelude.Words.{sub32}

-- An LED's pin, and when it was last switched on.
pub record Led : Type 0 where
  pub lit : Bool
  pub start_ms : ℕ

pub record Leds : Type 0 where
  pub led1 : Led
  pub led2 : Led

-- What led_on does to one LED, for LED_ON_DURATION_MS and the time of get_time.
unfoldable pub switch_on : ℕ → ℕ → Led → Led
switch_on led_on_duration_ms time led =
    if not led.lit && leb (2 * led_on_duration_ms) (sub32 time led.start_ms)
    then record { lit = true; start_ms = time }
    else led

unfoldable pub led_on : ℕ → ℕ → ℕ → Leds → Leds
unfolding switch_on
led_on led_on_duration_ms time led_index leds =
    let led1 = switch_on led_on_duration_ms time leds.led1 in
    let led2 = switch_on led_on_duration_ms time leds.led2 in
    if led_index == 1
    then record leds { led1 = led1 }
    else if led_index == 2
    then record leds { led2 = led2 }
    else leds

unfoldable pub switch_off : ℕ → ℕ → Led → Led
switch_off led_on_duration_ms time led =
    if leb led_on_duration_ms (sub32 time led.start_ms) then record led { lit = false } else led

unfoldable pub led_process : ℕ → ℕ → Leds → Leds
unfolding switch_off
led_process led_on_duration_ms time leds = record {
  led1 = switch_off led_on_duration_ms time leds.led1;
  led2 = switch_off led_on_duration_ms time leds.led2;
}

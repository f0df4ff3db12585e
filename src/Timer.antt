-- ===== src/Timer.antt =====
-- platform/mcu/armv7-m/timeout_timer.c: the millisecond counter and the two timeouts.
use cvra_bootloader.Prelude.{ℕ, ◌+◌, ◌/◌, Bool, leb}
use cvra_bootloader.Prelude.Words.{u32, sub32}
pub mod Elapsed

-- The static variables that the timeouts use.
pub record Timer : Type 0 where
  pub bootloader_timeout_start_ms : ℕ
  pub bootloader_timeout_ms : ℕ
  pub datagram_timeout_start_ms : ℕ
  pub datagram_timeout_ms : ℕ

-- `systick_handler`, every millisecond; what it does to the LEDs is in Led.
unfoldable pub tick : ℕ → ℕ
tick time_ms = u32 (time_ms + 1)

-- The SysTick's reload value in `timer_init`: a tick comes every reload value and one cycles of the AHB.
unfoldable pub systick_reload : ℕ → ℕ
systick_reload f_cpu = f_cpu / 1000

unfoldable pub init : ℕ → ℕ → Timer
init bootloader_timeout datagram_timeout = record {
  bootloader_timeout_start_ms = 0;
  bootloader_timeout_ms = bootloader_timeout;
  datagram_timeout_start_ms = 0;
  datagram_timeout_ms = datagram_timeout;
}

unfoldable pub bootloader_timeout_start : Timer → ℕ → Timer
bootloader_timeout_start t time_ms = record t { bootloader_timeout_start_ms = time_ms }

unfoldable pub bootloader_timeout_reached : Timer → ℕ → Bool
bootloader_timeout_reached t time_ms =
    leb t.bootloader_timeout_ms (sub32 time_ms t.bootloader_timeout_start_ms)

unfoldable pub datagram_timeout_reset : Timer → ℕ → Timer
datagram_timeout_reset t time_ms = record t { datagram_timeout_start_ms = time_ms }

unfoldable pub datagram_timeout_reached : Timer → ℕ → Bool
datagram_timeout_reached t time_ms =
    leb t.datagram_timeout_ms (sub32 time_ms t.datagram_timeout_start_ms)

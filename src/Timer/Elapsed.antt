-- ===== src/Timer/Elapsed.antt =====
-- The timeouts under the wrap-around of the counter.
use cvra_bootloader.Prelude.{ℕ, zero, suc, ◌+◌, ◌^◌, ◌%◌, ◌≤◌, ◌<◌, ◌≡◌, ◌↔◌, true, arith}
use cvra_bootloader.Prelude.Words.{u32}
use cvra_bootloader.Timer.{
  Timer, tick, bootloader_timeout_start, bootloader_timeout_reached, datagram_timeout_reset,
  datagram_timeout_reached,
}

-- The counter after some milliseconds.
pub ticks : ℕ → ℕ → ℕ
ticks zero time_ms = time_ms
ticks (suc n) time_ms = ticks n (tick time_ms)

ticks-eq : (n time_ms : ℕ) → time_ms < 2 ^ 32 → ticks n time_ms ≡ (time_ms + n) % 2 ^ 32
unfolding ticks tick
ticks-eq zero time_ms h = omega arith
ticks-eq (suc n) time_ms h = omega (arith, ticks-eq n (u32 (time_ms + 1)) (omega arith))

-- A timeout that is started at any time of the counter is reached exactly when as many
-- milliseconds have gone by as it was set to, as long as the counter has not gone round once.
bootloader_timeout_exact :
    (t : Timer) (time_ms n : ℕ)
    → time_ms < 2 ^ 32
    → n < 2 ^ 32
    → (bootloader_timeout_reached (bootloader_timeout_start t time_ms) (ticks n time_ms) ≡ true)
      ↔ (t.bootloader_timeout_ms ≤ n)
unfolding bootloader_timeout_reached bootloader_timeout_start
bootloader_timeout_exact t time_ms n h k = ground (arith, ticks-eq n time_ms h)

-- A datagram timeout that is reset at any time of the counter is reached exactly when as many
-- milliseconds have gone by as it was set to, as long as the counter has not gone round once.
datagram_timeout_exact :
    (t : Timer) (time_ms n : ℕ)
    → time_ms < 2 ^ 32
    → n < 2 ^ 32
    → (datagram_timeout_reached (datagram_timeout_reset t time_ms) (ticks n time_ms) ≡ true)
      ↔ (t.datagram_timeout_ms ≤ n)
unfolding datagram_timeout_reached datagram_timeout_reset
datagram_timeout_exact t time_ms n h k = ground (arith, ticks-eq n time_ms h)

-- Both timeouts are exact under the wrap-around of the counter: started at any time of it, each is
-- reached exactly when as many milliseconds have gone by as it was set to, as long as the counter has
-- not gone round once.
pub timeouts_exact :
    (t : Timer) (time_ms n : ℕ)
    → time_ms < 2 ^ 32
    → n < 2 ^ 32
    → ((bootloader_timeout_reached (bootloader_timeout_start t time_ms) (ticks n time_ms) ≡ true)
        ↔ (t.bootloader_timeout_ms ≤ n))
      × ((datagram_timeout_reached (datagram_timeout_reset t time_ms) (ticks n time_ms) ≡ true)
          ↔ (t.datagram_timeout_ms ≤ n))
timeouts_exact t time_ms n h k =
    (bootloader_timeout_exact t time_ms n h k, datagram_timeout_exact t time_ms n h k)

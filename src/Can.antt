-- ===== src/Can.antt =====
-- platform/mcu/stm32f4/can_interface.c: the transmission of a frame, and the poll for one, which
-- stm32f1/can_interface.c and stm32f3/can_interface.c have too. Can/Single has the transmission of those
-- two, Can/Filters can_set_filters, and Can/Setup can_interface_init.
pub mod Retries
pub mod Polls
pub mod Single
pub mod Filters
pub mod Setup
use cvra_bootloader.Prelude.{
  ℕ, zero, suc, ◌+◌, Bool, true, false, Option, none, some, ◌==◌, ◌&&◌, if◌then◌else◌,
}

-- What the transmit status register says in an attempt: the bits RQCP0 and TXOK0 at its n-th read
-- behind can_transmit.
pub record Attempt : Type 0 where
  pub rqcp0 : ℕ → Bool
  pub txok0 : ℕ → Bool

-- At the n-th read.
unfoldable pub can_transmission_complete : Attempt → ℕ → Bool
can_transmission_complete attempt n = attempt.rqcp0 n

-- The two tests of `&&` are two reads.
unfoldable pub can_transmission_successful : Attempt → ℕ → Bool
unfolding can_transmission_complete
can_transmission_successful attempt n = can_transmission_complete attempt n && attempt.txok0 (n + 1)

-- `while ((!can_transmission_complete()) && timeout-- > 0)`, from a value of `timeout` on: the value
-- behind it, and the number of the next read. The test that fails takes the `uint32_t` from 0 to
-- 2 ^ 32 - 1.
unfoldable pub wait : Attempt → ℕ → ℕ → ℕ × ℕ
unfolding can_transmission_complete
wait attempt zero n =
    if can_transmission_complete attempt n then (0, n + 1) else (0xFFFF_FFFF, n + 1)
wait attempt (suc timeout) n =
    let rest = wait attempt timeout (n + 1) in
    if can_transmission_complete attempt n then (suc timeout, n + 1) else rest

abbrev pub wait_timeout : ℕ
wait_timeout = 100000

-- The body of the loop behind the wait returns true. After `continue` the test of `retries` comes.
unfoldable pub is_sent : Attempt → ℕ × ℕ → Bool
unfolding can_transmission_successful
is_sent attempt (timeout, n) = if timeout == 0 then false else can_transmission_successful attempt n

-- The loop, with its attempts numbered on.
unfoldable pub can_interface_send_message : (ℕ → Attempt) → ℕ → ℕ → Bool
unfolding wait is_sent
can_interface_send_message attempts zero n = is_sent (attempts n) (wait (attempts n) wait_timeout 0)
can_interface_send_message attempts (suc retries) n =
    let rest = can_interface_send_message attempts retries (n + 1) in
    if is_sent (attempts n) (wait (attempts n) wait_timeout 0) then true else rest

-- `while(retries-- != 0 && no frame)`, where a frame is pending at the n-th read or is not: the
-- number of the next read.
unfoldable pub poll : (ℕ → Bool) → ℕ → ℕ → ℕ
poll pending zero n = n
poll pending (suc retries) n =
    let rest = poll pending retries (n + 1) in if pending n then n + 1 else rest

-- `can_interface_read_message` without a buffer, where the second argument is what can_receive gives.
unfoldable pub can_interface_read_message {ℓ} : {A : Type ℓ} → (ℕ → Bool) → A → ℕ → Option A
unfolding poll
can_interface_read_message pending frame retries =
    if pending (poll pending retries 0) then some frame else none

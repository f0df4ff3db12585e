-- ===== src/Can/Single.antt =====
-- platform/mcu/stm32f1/can_interface.c and stm32f3/can_interface.c: the transmission of a frame, which
-- waits without a limit, and that of the STM32F4 beside it.
use cvra_bootloader.Prelude.{
  ℕ, zero, suc, ◌+◌, ◌-◌, ◌≤◌, ◌<◌, ◌≡◌, refl, ap, Bool, true, false, ◌==◌, Option, none, some,
  arith, if◌then◌else◌,
}
use cvra_bootloader.Can.{
  Attempt, can_transmission_complete, can_transmission_successful, wait, wait_timeout, is_sent,
  can_interface_send_message,
}

-- `while((CAN_TSR(CAN1) & CAN_TSR_RQCP0) == 0);` from the n-th read on: the number of the next read, or
-- none if the wait lasts for longer than `fuel` reads behind the first one.
unfoldable wait_complete : ℕ → Attempt → ℕ → Option ℕ
wait_complete zero attempt n = if attempt.rqcp0 n then some (n + 1) else none
wait_complete (suc fuel) attempt n =
    let rest = wait_complete fuel attempt (n + 1) in if attempt.rqcp0 n then some (n + 1) else rest

-- The end of the loop's body: `some` of true returns true, and behind `some` of false comes the test of
-- `retries`.
unfoldable attempt_result : Attempt → Option ℕ → Option Bool
attempt_result attempt none = none
attempt_result attempt (some n) = some (attempt.txok0 n)

unfoldable or_else : Option Bool → Option Bool → Option Bool
or_else none rest = none
or_else (some sent) rest = if sent then some true else rest

-- The loop, with its attempts numbered on. None is a wait that has not ended.
unfoldable pub single_send_message : ℕ → (ℕ → Attempt) → ℕ → ℕ → Option Bool
unfolding wait_complete attempt_result or_else
single_send_message fuel attempts zero n =
    attempt_result (attempts n) (wait_complete fuel (attempts n) 0)
single_send_message fuel attempts (suc retries) n =
    let rest = single_send_message fuel attempts retries (n + 1) in
    or_else (attempt_result (attempts n) (wait_complete fuel (attempts n) 0)) rest

-- The attempt is complete from the k-th read on, and then successful or not.
pub record IsSteady (attempt : Attempt) (k : ℕ) (sent : Bool) : Type 0 where
  pub before : (j : ℕ) → j < k → attempt.rqcp0 j ≡ false
  pub behind : (j : ℕ) → k ≤ j → attempt.rqcp0 j ≡ true
  pub result : (j : ℕ) → k < j → attempt.txok0 j ≡ sent

-- One of the attempts from the n-th on, with `retries` behind the first, is successful.
unfoldable pub any_sent : (ℕ → Bool) → ℕ → ℕ → Bool
any_sent sent zero n = sent n
any_sent sent (suc retries) n =
    let rest = any_sent sent retries (n + 1) in if sent n then true else rest

-- d is the number of reads that are left to the completion.
wait_complete_ends :
    (attempt : Attempt) (sent : Bool) (k d fuel n : ℕ)
    → IsSteady attempt k sent
    → n + d ≡ k
    → d ≤ fuel
    → wait_complete fuel attempt n ≡ some (k + 1)
unfolding wait_complete
wait_complete_ends attempt sent k zero zero n s e l =
    let now : attempt.rqcp0 n ≡ true = s.behind n (omega arith) in
    let at : n + 1 ≡ k + 1 = omega arith in rw now (ap some at)
wait_complete_ends attempt sent k zero (suc fuel) n s e l =
    let now : attempt.rqcp0 n ≡ true = s.behind n (omega arith) in
    let at : n + 1 ≡ k + 1 = omega arith in rw now (ap some at)
wait_complete_ends attempt sent k (suc d) zero n s e l = absurd (omega arith)
wait_complete_ends attempt sent k (suc d) (suc fuel) n s e l =
    let now : attempt.rqcp0 n ≡ false = s.before n (omega arith) in
    rw now (wait_complete_ends attempt sent k d fuel (n + 1) s (omega arith) (omega arith))

-- The wait of the STM32F4 ends at the same read, with its timeout as far down as it has read.
wait_ends :
    (attempt : Attempt) (sent : Bool) (k d timeout n : ℕ)
    → IsSteady attempt k sent
    → n + d ≡ k
    → (left : ℕ) → timeout ≡ suc left + d
    → wait attempt timeout n ≡ (suc left, k + 1)
unfolding wait
wait_ends attempt sent k d zero n s e left t = absurd (omega arith)
wait_ends attempt sent k zero (suc timeout) n s e left t =
    let now : attempt.rqcp0 n ≡ true = s.behind n (omega arith) in
    let at : n + 1 ≡ k + 1 = omega arith in
    let same : timeout ≡ left = omega arith in rw (now, at, same) refl
wait_ends attempt sent k (suc d) (suc timeout) n s e left t =
    let now : attempt.rqcp0 n ≡ false = s.before n (omega arith) in
    rw now (wait_ends attempt sent k d timeout (n + 1) s (omega arith) left (omega arith))

-- The test behind the wait reads the register again.
is_sent-IsSteady :
    (attempt : Attempt) (sent : Bool) (k : ℕ)
    → IsSteady attempt k sent
    → k < wait_timeout
    → is_sent attempt (wait attempt wait_timeout 0) ≡ sent
unfolding is_sent can_transmission_successful can_transmission_complete
is_sent-IsSteady attempt sent k s l =
    let left = 99999 - k in
    let e : wait attempt wait_timeout 0 ≡ (suc left, k + 1) =
      wait_ends attempt sent k k wait_timeout 0 s (omega arith) left (omega arith) in
    let complete : attempt.rqcp0 (k + 1) ≡ true = s.behind (k + 1) (omega arith) in
    let successful : attempt.txok0 (k + 1 + 1) ≡ sent = s.result (k + 1 + 1) (omega arith) in
    let positive : (suc left == 0) ≡ false = ground arith in
    rw (e, positive, complete, successful) refl

attempt_result-IsSteady :
    (attempt : Attempt) (sent : Bool) (k fuel : ℕ)
    → IsSteady attempt k sent
    → k ≤ fuel
    → attempt_result attempt (wait_complete fuel attempt 0) ≡ some sent
unfolding attempt_result
attempt_result-IsSteady attempt sent k fuel s l =
    rw (wait_complete_ends attempt sent k k fuel 0 s (omega arith) l)
      (ap some (s.result (k + 1) (omega arith)))

or_else-some : (b c : Bool) → or_else (some b) (some c) ≡ some (if b then true else c)
unfolding or_else
or_else-some true c = refl
or_else-some false c = refl

single_send_message_lem :
    (attempts : ℕ → Attempt) (ends : ℕ → ℕ) (sent : ℕ → Bool) (fuel retries n : ℕ)
    → ((i : ℕ) → IsSteady (attempts i) (ends i) (sent i))
    → ((i : ℕ) → ends i ≤ fuel)
    → single_send_message fuel attempts retries n ≡ some (any_sent sent retries n)
unfolding single_send_message any_sent
single_send_message_lem attempts ends sent fuel zero n s l =
    attempt_result-IsSteady (attempts n) (sent n) (ends n) fuel (s n) (l n)
single_send_message_lem attempts ends sent fuel (suc retries) n s l =
    rw
      (
        attempt_result-IsSteady (attempts n) (sent n) (ends n) fuel (s n) (l n),
        single_send_message_lem attempts ends sent fuel retries (n + 1) s l,
      )
      (or_else-some (sent n) (any_sent sent retries (n + 1)))

send_message_lem :
    (attempts : ℕ → Attempt) (ends : ℕ → ℕ) (sent : ℕ → Bool) (retries n : ℕ)
    → ((i : ℕ) → IsSteady (attempts i) (ends i) (sent i))
    → ((i : ℕ) → ends i < wait_timeout)
    → can_interface_send_message attempts retries n ≡ any_sent sent retries n
unfolding can_interface_send_message any_sent
send_message_lem attempts ends sent zero n s l =
    is_sent-IsSteady (attempts n) (sent n) (ends n) (s n) (l n)
send_message_lem attempts ends sent (suc retries) n s l =
    rw
      (
        is_sent-IsSteady (attempts n) (sent n) (ends n) (s n) (l n),
        send_message_lem attempts ends sent retries (n + 1) s l,
      )
      refl

-- If every attempt is complete within the 100,000 reads that the STM32F4 waits for, and its result then
-- stays, the drivers of all three families report the same: whether one of the `retries` + 1 attempts was
-- successful. The wait of the STM32F1 and STM32F3 ends, with as much fuel.
pub send_messages_agree :
    (attempts : ℕ → Attempt) (ends : ℕ → ℕ) (sent : ℕ → Bool) (retries : ℕ)
    → ((i : ℕ) → IsSteady (attempts i) (ends i) (sent i))
    → ((i : ℕ) → ends i < wait_timeout)
    → (can_interface_send_message attempts retries 0 ≡ any_sent sent retries 0)
      × (single_send_message wait_timeout attempts retries 0 ≡ some (any_sent sent retries 0))
send_messages_agree attempts ends sent retries s l = (
  send_message_lem attempts ends sent retries 0 s l,
  single_send_message_lem attempts ends sent wait_timeout retries 0 s
      λ i. let below : ends i < wait_timeout = l i in omega arith,
)

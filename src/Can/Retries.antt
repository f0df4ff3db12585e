-- ===== src/Can/Retries.antt =====
-- How often can_interface_send_message of the STM32F4 tries, and what its timeout does.
use cvra_bootloader.Prelude.{
  ℕ, zero, suc, ◌+◌, ◌≤◌, ◌≡◌, refl, inl, inr, Bool, true, false, Bool-cases, arith, if◌then◌else◌,
}
use cvra_bootloader.Can.{
  Attempt, can_transmission_successful, wait, wait_timeout, is_sent, can_interface_send_message,
}

-- The status register says that the transmission is complete, and then that it was successful.
pub data IsGood (attempt : Attempt) : Type 0 where
  good : (k : ℕ) → attempt.rqcp0 k ≡ true → attempt.txok0 (k + 1) ≡ true → IsGood attempt

is_sent-IsGood :
    (attempt : Attempt) (left n : ℕ) → is_sent attempt (left, n) ≡ true → IsGood attempt
unfolding is_sent
is_sent-IsGood attempt left n sent = good n (ground arith) (ground arith)

otherwise : (b c : Bool) → b ≡ false → (if b then true else c) ≡ true → c ≡ true
otherwise true c e h = absurd (ground arith)
otherwise false c e h = h

-- When a frame is reported as sent, one of at most `retries` + 1 attempts was complete and successful,
-- as the status register says.
pub send_message-IsGood :
    (attempts : ℕ → Attempt) (retries n : ℕ)
    → can_interface_send_message attempts retries n ≡ true
    → (i : ℕ) × (i ≤ n + retries) × (n ≤ i) × IsGood (attempts i)
unfolding can_interface_send_message
send_message-IsGood attempts zero n sent =
    let (left, next) = wait (attempts n) wait_timeout 0 in
    (n, omega arith, omega arith, is_sent-IsGood (attempts n) left next sent)
send_message-IsGood attempts (suc retries) n sent =
    let (left, next) = wait (attempts n) wait_timeout 0 in
    elim (Bool-cases (is_sent (attempts n) (wait (attempts n) wait_timeout 0))) [
      | inl now ↦ (n, omega arith, omega arith, is_sent-IsGood (attempts n) left next now)
      | inr later ↦
          let rest : can_interface_send_message attempts retries (n + 1) ≡ true =
            otherwise _ _ later sent in
          let (i, l, l', g) = send_message-IsGood attempts retries (n + 1) rest in
          (i, omega arith, omega arith, g)
    ]

-- A wait that ends by its timeout leaves the counter at 2 ^ 32 - 1.
wait-never :
    (attempt : Attempt) (timeout n : ℕ)
    → ((k : ℕ) → n ≤ k → k ≤ n + timeout → attempt.rqcp0 k ≡ false)
    → wait attempt timeout n ≡ (0xFFFF_FFFF, n + timeout + 1)
unfolding wait
wait-never attempt zero n never =
    let last : attempt.rqcp0 n ≡ false = never n (omega arith) (omega arith) in
    let e : n + 0 + 1 ≡ n + 1 = omega arith in rw (last, e) refl
wait-never attempt (suc timeout) n never =
    let now : attempt.rqcp0 n ≡ false = never n (omega arith) (omega arith) in
    let e : n + suc timeout + 1 ≡ n + 1 + timeout + 1 = omega arith in
    rw (now, e) (wait-never attempt timeout (n + 1) λ k l l'. never k (omega arith) (omega arith))

-- An attempt that is not complete at any of the 100001 reads of the wait is not seen as timed out:
-- whether it counts as sent is left to the reads behind the wait.
timeout_is_missed :
    (attempt : Attempt)
    → ((k : ℕ) → k ≤ wait_timeout → attempt.rqcp0 k ≡ false)
    → is_sent attempt (wait attempt wait_timeout 0)
      ≡ can_transmission_successful attempt (wait_timeout + 1)
unfolding is_sent
timeout_is_missed attempt never =
    let e : wait attempt wait_timeout 0 ≡ (0xFFFF_FFFF, 0 + wait_timeout + 1) =
      wait-never attempt wait_timeout 0 λ k l l'. never k (omega arith) in
    rw e refl

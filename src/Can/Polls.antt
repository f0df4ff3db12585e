-- ===== src/Can/Polls.antt =====
-- The poll for a received frame.
use cvra_bootloader.Prelude.{
  ℕ, zero, suc, ◌+◌, ◌≡◌, refl, sym, ap, ◌∙◌, Bool, true, Bool-cases, inl, inr, none, some, arith,
  if◌then◌else◌,
}
use cvra_bootloader.Can.{poll, can_interface_read_message}

stays_pending :
    (pending : ℕ → Bool) (k n : ℕ)
    → ((k : ℕ) → pending k ≡ true → pending (k + 1) ≡ true)
    → pending n ≡ true
    → pending (n + k) ≡ true
stays_pending pending zero n stays h = ap pending (omega arith) ∙ h
stays_pending pending (suc k) n stays h =
    ap pending (omega arith) ∙ stays_pending pending k (n + 1) stays (stays n h)

poll-pending :
    (pending : ℕ → Bool) (retries n : ℕ)
    → ((k : ℕ) → pending k ≡ true → pending (k + 1) ≡ true)
    → pending (poll pending retries n) ≡ pending (n + retries)
unfolding poll
poll-pending pending zero n stays = ap pending (omega arith)
poll-pending pending (suc retries) n stays = elim (Bool-cases (pending n)) [
  | inl now ↦ rw now (stays n now ∙ sym (stays_pending pending (suc retries) n stays now))
  | inr later ↦ rw later (poll-pending pending retries (n + 1) stays ∙ ap pending (omega arith))
]

-- A frame that is pending stays so until it is received. Then a frame is returned exactly if one is
-- pending by the read number `retries`.
read_message_lem {ℓ} :
    {A : Type ℓ} (pending : ℕ → Bool) (frame : A) (retries : ℕ)
    → ((k : ℕ) → pending k ≡ true → pending (k + 1) ≡ true)
    → can_interface_read_message pending frame retries
      ≡ (if pending retries then some frame else none)
unfolding can_interface_read_message
read_message_lem pending frame retries stays =
    let e : pending (poll pending retries 0) ≡ pending retries =
      poll-pending pending retries 0 stays ∙ ap pending (omega arith) in
    rw e refl

-- ===== src/Fifo/Interrupted.antt =====
-- can_interface_read_message of platform/mcu/stm32f4/can_interface.c, whose steps the interrupt handler comes
-- between.
use mathlib.Core.Path.{subst}
use cvra_bootloader.Prelude.{
  ℕ, zero, suc, ◌+◌, ◌≡◌, refl, sym, ap, ◌∙◌, true, false, List, [], ◌∷◌, ◌++◌, Option, some, none,
  arith, min, take, drop, if◌then◌else◌, inl, inr, Bool-cases,
}
use cvra_bootloader.Fifo.{
  Fifo, CanFrame, can2_rx0_isr, fifo_is_empty, fifo_get_oldest_entry, fifo_drop_oldest_entry,
  can_receive_from_buffer,
}
use cvra_bootloader.Fifo.Queue.{IsValid, IsPopped, frames, buffer_is_queue}
use cvra_bootloader.Fifo.Interrupts.{interrupts, room, interrupts-frames}

-- The call, with CAN_RX_BUFFER_ENABLED: the handler runs so many times behind the test, and so many times
-- behind the copy of the entry. The result is the frame if it returns true, what the hardware holds, and the
-- buffer.
unfoldable pub interrupted_read :
    ℕ → ℕ → List CanFrame → Fifo → Option CanFrame × List CanFrame × Fifo
interrupted_read n n' pending fifo =
    if fifo_is_empty fifo
    then (none, pending, fifo)
    else (let (pending1, fifo1) = interrupts n pending fifo in
        let (pending2, fifo2) = interrupts n' pending1 fifo1 in
        (some (fifo_get_oldest_entry fifo1), pending2, fifo_drop_oldest_entry fifo2))

receive-empty :
    (fifo : Fifo) → fifo_is_empty fifo ≡ true → can_receive_from_buffer fifo ≡ (none, fifo)
unfolding can_receive_from_buffer
receive-empty fifo e = rw e refl

receive-oldest :
    (fifo : Fifo)
    → fifo_is_empty fifo ≡ false
    → can_receive_from_buffer fifo
      ≡ (some (fifo_get_oldest_entry fifo), fifo_drop_oldest_entry fifo)
unfolding can_receive_from_buffer
receive-oldest fifo e = rw e refl

heads_agree {ℓ} : {A : Type ℓ} (a b : A) (xs ys : List A) → a ∷ xs ≡ b ∷ ys → (a ≡ b) × (xs ≡ ys)
heads_agree a b xs ys e = (cc, cc)

never_empty {ℓ} : {A : Type ℓ} (a : A) (xs : List A) → [] ≡ a ∷ xs → ⊥
never_empty a xs e = cc

-- The oldest frame of a buffer that holds some, and the others.
oldest-frames :
    (fifo : Fifo) (frame : CanFrame) (rest : List CanFrame)
    → IsValid fifo
    → frames fifo ≡ frame ∷ rest
    → (fifo_is_empty fifo ≡ false)
      × (fifo_get_oldest_entry fifo ≡ frame)
      × IsValid (fifo_drop_oldest_entry fifo)
      × (frames (fifo_drop_oldest_entry fifo) ≡ rest)
oldest-frames fifo frame rest v e =
    let (kept, put, popped) = buffer_is_queue fifo frame v in
    elim (Bool-cases (fifo_is_empty fifo)) [
      | inl empty ↦
          let (v', nothing) = subst (λ r. IsPopped fifo r) (receive-empty fifo empty) popped in
          absurd (never_empty frame rest (nothing ∙ e))
      | inr holds ↦
          let (v', all) = subst (λ r. IsPopped fifo r) (receive-oldest fifo holds) popped in
          let (first, others) =
            heads_agree (fifo_get_oldest_entry fifo) frame (frames (fifo_drop_oldest_entry fifo))
              rest (all ∙ e) in
          (holds, first, v', others)
    ]

interrupts-add :
    (n n' : ℕ) (pending : List CanFrame) (fifo : Fifo)
    → interrupts n' (interrupts n pending fifo).0 (interrupts n pending fifo).1
      ≡ interrupts (n + n') pending fifo
unfolding interrupts
interrupts-add zero n' pending fifo =
    let e : n' ≡ 0 + n' = omega arith in ap (λ k. interrupts k pending fifo) e
interrupts-add (suc n) n' pending fifo =
    let (pending1, fifo1) = can2_rx0_isr pending fifo in
    let e : suc n + n' ≡ suc (n + n') = omega arith in
    interrupts-add n n' pending1 fifo1 ∙ sym (ap (λ k. interrupts k pending fifo) e)

-- What the call returns, and what the hardware and the buffer hold behind it.
abbrev pub Taken :
    ℕ → CanFrame → List CanFrame → List CanFrame → Option CanFrame × List CanFrame × Fifo → Type 0
Taken k frame rest pending (result, pending', fifo') =
    (result ≡ some frame)
    × (frames fifo' ≡ rest ++ take k pending)
    × (pending' ≡ drop k pending)
    × IsValid fifo'

-- A call of can_interface_read_message with a frame in the buffer returns the oldest one and removes it, however
-- often the interrupt handler runs between its steps: the frames that the handler moves meanwhile, as many as
-- there is room for, are behind the others, and none is lost, doubled or changed.
pub interrupted_read_lem :
    (n n' : ℕ) (pending : List CanFrame) (fifo : Fifo) (frame : CanFrame) (rest : List CanFrame)
    → IsValid fifo
    → frames fifo ≡ frame ∷ rest
    → Taken (min (n + n') (room fifo)) frame rest pending (interrupted_read n n' pending fifo)
unfolding interrupted_read
interrupted_read_lem n n' pending fifo frame rest v e =
    let (holds, oldest, valid, others) = oldest-frames fifo frame rest v e in
    let (v1, frames1, pending1) = interrupts-frames n pending fifo v in
    let (v2, frames2, pending2) = interrupts-frames (n + n') pending fifo v in
    let (holds1, oldest1, valid1, others1) =
      oldest-frames (interrupts n pending fifo).1 frame (rest ++ take (min n (room fifo)) pending)
        v1 (frames1 ∙ ap (λ l. l ++ take (min n (room fifo)) pending) e) in
    let (holds2, oldest2, valid2, others2) =
      oldest-frames (interrupts (n + n') pending fifo).1 frame
        (rest ++ take (min (n + n') (room fifo)) pending) v2
        (frames2 ∙ ap (λ l. l ++ take (min (n + n') (room fifo)) pending) e) in
    rw (holds, interrupts-add n n' pending fifo) (ap some oldest1, others2, pending2, valid2)

-- ===== src/Fifo/Interrupts.antt =====
-- The interrupt of platform/mcu/stm32f4/can_interface.c. Its line is up while the hardware holds a frame, and
-- until it falls the processor runs the handler again and nothing else.
use cvra_bootloader.Prelude.{
  ℕ, zero, suc, ◌-◌, ◌≡◌, refl, sym, ap, ◌∙◌, true, false, not, dec_lt, List, [], ◌∷◌, ◌++◌,
  append-nil, append_assoc, some, arith, length, length-append, ltb, min, take, drop, take-all,
  drop-all,
}
use cvra_bootloader.Fifo.{Fifo, CanFrame, fifo_is_full, can_receive_to_buffer, can2_rx0_isr}
use cvra_bootloader.Fifo.Queue.{IsValid, waiting, frames, length-elements, buffer_is_queue}

-- So many runs of the handler, with no other frame meanwhile.
unfoldable pub interrupts : ℕ → List CanFrame → Fifo → List CanFrame × Fifo
interrupts zero pending fifo = (pending, fifo)
interrupts (suc n) pending fifo =
    let (pending', fifo') = can2_rx0_isr pending fifo in interrupts n pending' fifo'

-- How many frames the buffer can take.
abbrev pub room : Fifo → ℕ
room fifo = 299 - length (frames fifo)

full_without_room :
    (fifo : Fifo) → IsValid fifo → fifo_is_full fifo ≡ not (ltb (length (frames fifo)) 299)
unfolding fifo_is_full
full_without_room fifo v =
    let n : length (frames fifo) ≡ waiting fifo =
      length-elements fifo.buffer fifo.pop_index (waiting fifo) in
    ground (arith, v.push_below, v.pop_below)

-- The frames behind some runs of the handler, and those that the hardware still holds.
abbrev pub Handled : ℕ → List CanFrame → Fifo → List CanFrame × Fifo → Type 0
Handled k pending fifo (pending', fifo') =
    IsValid fifo' × (frames fifo' ≡ frames fifo ++ take k pending) × (pending' ≡ drop k pending)

-- With no frame left, the number does not count.
Handled-none :
    (k k' : ℕ) (fifo : Fifo) (r : List CanFrame × Fifo) → Handled k [] fifo r → Handled k' [] fifo r
Handled-none k k' fifo (p, f) (v, kept, left) = (
  v,
  kept
      ∙ ap (λ l. frames fifo ++ l)
          (take-all k [] (omega arith) ∙ sym (take-all k' [] (omega arith))),
  left ∙ (drop-all k [] (omega arith) ∙ sym (drop-all k' [] (omega arith))),
)

-- A frame that is put into the buffer, and what is handled behind it.
Handled-more :
    (k : ℕ) (frame : CanFrame) (pending : List CanFrame) (fifo fifo' : Fifo)
    (r : List CanFrame × Fifo)
    → frames fifo' ≡ frames fifo ++ (frame ∷ [])
    → Handled k pending fifo' r
    → Handled (suc k) (frame ∷ pending) fifo r
Handled-more k frame pending fifo fifo' (p, f) e (v, kept, left) = (
  v,
  kept ∙ ap (λ l. l ++ take k pending) e ∙ append_assoc (frames fifo) (frame ∷ []) (take k pending),
  left,
)

isr-room :
    (frame : CanFrame) (pending : List CanFrame) (fifo : Fifo)
    → fifo_is_full fifo ≡ false
    → can2_rx0_isr (frame ∷ pending) fifo ≡ (pending, can_receive_to_buffer (some frame) fifo)
unfolding can2_rx0_isr
isr-room frame pending fifo e = rw e refl

isr-full :
    (frame : CanFrame) (pending : List CanFrame) (fifo : Fifo)
    → fifo_is_full fifo ≡ true
    → can2_rx0_isr (frame ∷ pending) fifo ≡ (frame ∷ pending, fifo)
unfolding can2_rx0_isr can_receive_to_buffer
isr-full frame pending fifo e = rw e refl

isr-idle : (fifo : Fifo) → can2_rx0_isr [] fifo ≡ ([], fifo)
unfolding can2_rx0_isr can_receive_to_buffer
isr-idle fifo = refl

-- The first run, and the others.
interrupts-isr :
    (n : ℕ) (pending : List CanFrame) (fifo : Fifo) (r : List CanFrame × Fifo)
    → can2_rx0_isr pending fifo ≡ r
    → interrupts (suc n) pending fifo ≡ interrupts n r.0 r.1
unfolding interrupts
interrupts-isr n pending fifo r e = ap (λ r. interrupts n r.0 r.1) e

-- Each run of the interrupt handler puts the first frame that the hardware holds at the end of those in the
-- buffer, until none is left or the buffer has 299; from then on its runs change nothing. So when the
-- hardware holds more frames than the buffer has room for, the line of the interrupt is up however often the
-- handler runs.
pub interrupts-frames :
    (n : ℕ) (pending : List CanFrame) (fifo : Fifo)
    → IsValid fifo
    → Handled (min n (room fifo)) pending fifo (interrupts n pending fifo)
unfolding interrupts
interrupts-frames zero pending fifo v =
    let e : min 0 (room fifo) ≡ 0 = omega arith in rw e (v, sym (append-nil (frames fifo)), refl)
interrupts-frames (suc n) [] fifo v = rw (interrupts-isr n [] fifo _ (isr-idle fifo)) (
    Handled-none (min n (room fifo)) (min (suc n) (room fifo)) fifo _
      (interrupts-frames n [] fifo v))
interrupts-frames (suc n) (frame ∷ pending) fifo v = elim (dec_lt (length (frames fifo)) 299) [
  | yes more ↦
      let accepts : fifo_is_full fifo ≡ false = ground (arith, full_without_room fifo v) in
      let (v', arrived, popped) = buffer_is_queue fifo frame v in
      let fits : ltb (length (frames fifo)) 299 ≡ true = ground arith in
      let fifo' = can_receive_to_buffer (some frame) fifo in
      let last : frames fifo' ≡ frames fifo ++ (frame ∷ []) = arrived ∙ rw fits refl in
      let k : min (suc n) (room fifo) ≡ suc (min n (room fifo')) =
        omega (arith, ap length last, length-append {0} (frames fifo) (frame ∷ [])) in
      rw (interrupts-isr n (frame ∷ pending) fifo _ (isr-room frame pending fifo accepts), k)
        (Handled-more (min n (room fifo')) frame pending fifo fifo' _ last
          (interrupts-frames n pending fifo' v'))
  | no none_more ↦
      let full : fifo_is_full fifo ≡ true = ground (arith, full_without_room fifo v) in
      let k : min (suc n) (room fifo) ≡ min n (room fifo) = omega arith in
      rw (interrupts-isr n (frame ∷ pending) fifo _ (isr-full frame pending fifo full), k)
        (interrupts-frames n (frame ∷ pending) fifo v)
]

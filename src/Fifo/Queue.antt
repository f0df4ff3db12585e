-- ===== src/Fifo/Queue.antt =====
-- The FIFO of can_fifo.c as a queue of at most 299 frames.
use cvra_bootloader.Prelude.{
  ℕ, zero, suc, ◌+◌, ◌-◌, ◌%◌, ◌<◌, ◌≤◌, ◌≡◌, ◌≢◌, ◌∙◌, refl, sym, ap, ap₂, dec_lt, ℕ_discrete,
  true, false, List, [], ◌∷◌, ◌++◌, Option, none, some, arith, length, ltb, if◌then◌else◌,
}
use mathlib.Core.Path.{subst}
use cvra_bootloader.Fifo.{
  Fifo, CanFrame, can_frames_buffered, stored, fifo_is_full, fifo_is_empty, fifo_get_oldest_entry,
  fifo_drop_oldest_entry, can_receive_to_buffer, can_receive_from_buffer,
}

pub record IsValid (fifo : Fifo) : Type 0 where
  pub push_below : fifo.push_index < can_frames_buffered
  pub pop_below : fifo.pop_index < can_frames_buffered

-- How many frames wait.
abbrev pub waiting : Fifo → ℕ
waiting fifo = (fifo.push_index + can_frames_buffered - fifo.pop_index) % can_frames_buffered

-- A number of elements from an index on, around the end of the array.
unfoldable pub elements : (ℕ → CanFrame) → ℕ → ℕ → List CanFrame
elements buffer i zero = []
elements buffer i (suc k) = buffer i ∷ elements buffer ((i + 1) % can_frames_buffered) k

-- The frames that wait, the oldest first.
abbrev pub frames : Fifo → List CanFrame
frames fifo = elements fifo.buffer fifo.pop_index (waiting fifo)

pub length-elements : (buffer : ℕ → CanFrame) (i k : ℕ) → length (elements buffer i k) ≡ k
unfolding elements
length-elements buffer i zero = refl
length-elements buffer i (suc k) = ap suc (length-elements buffer ((i + 1) % can_frames_buffered) k)

elements-snoc :
    (buffer : ℕ → CanFrame) (i k : ℕ)
    → i < can_frames_buffered
    → elements buffer i (suc k)
      ≡ elements buffer i k ++ (buffer ((i + k) % can_frames_buffered) ∷ [])
unfolding elements
elements-snoc buffer i zero h = let e : (i + 0) % can_frames_buffered ≡ i = omega arith in rw e refl
elements-snoc buffer i (suc k) h =
    let e : ((i + 1) % can_frames_buffered + k) % can_frames_buffered
        ≡ (i + suc k) % can_frames_buffered =
      omega arith in
    ap (λ l. buffer i ∷ l)
      (elements-snoc buffer ((i + 1) % can_frames_buffered) k (omega arith)
        ∙ ap (λ j. elements buffer ((i + 1) % can_frames_buffered) k ++ (buffer j ∷ [])) e)

-- An element behind them does not count.
elements-stored :
    (buffer : ℕ → CanFrame) (frame : CanFrame) (j i k : ℕ)
    → i < can_frames_buffered
    → j < can_frames_buffered
    → k ≤ (j + can_frames_buffered - i) % can_frames_buffered
    → elements (stored buffer j frame) i k ≡ elements buffer i k
unfolding elements
elements-stored buffer frame j i zero h h' l = refl
elements-stored buffer frame j i (suc k) h h' l =
    let here : stored buffer j frame i ≡ buffer i = ground arith in
    ap₂ ◌∷◌ here (
      elements-stored buffer frame j ((i + 1) % can_frames_buffered) k (omega arith) h'
        (omega arith))

-- The FIFO with one more frame.
abbrev pushed : Fifo → CanFrame → Fifo
pushed fifo frame = record fifo {
  buffer = stored fifo.buffer fifo.push_index frame;
  push_index = (fifo.push_index + 1) % can_frames_buffered;
}

frames-pushed :
    (fifo : Fifo) (frame : CanFrame)
    → IsValid fifo
    → waiting fifo < 299
    → frames (pushed fifo frame) ≡ frames fifo ++ (frame ∷ [])
frames-pushed fifo frame v l =
    let w : waiting (pushed fifo frame) ≡ suc (waiting fifo) =
      omega (arith, v.push_below, v.pop_below) in
    let j : (fifo.pop_index + waiting fifo) % can_frames_buffered ≡ fifo.push_index =
      omega (arith, v.push_below, v.pop_below) in
    let last : stored fifo.buffer fifo.push_index frame fifo.push_index ≡ frame = ground arith in
    let buffer = stored fifo.buffer fifo.push_index frame in
    ap (λ k. elements buffer fifo.pop_index k) w
    ∙ elements-snoc buffer fifo.pop_index (waiting fifo) v.pop_below
    ∙ ap₂ (λ xs x. xs ++ (x ∷ []))
        (elements-stored fifo.buffer frame fifo.push_index fifo.pop_index (waiting fifo) v.pop_below
          v.push_below (omega arith))
        (ap buffer j ∙ last)

-- What an incoming frame does to the frames that wait, when the indices are in the array: it is the
-- last of them, if there were fewer than 299, and else it is not among them. The indices stay in the array.
receive_to_buffer_lem :
    (fifo : Fifo) (frame : CanFrame)
    → IsValid fifo
    → IsValid (can_receive_to_buffer (some frame) fifo)
      × (frames (can_receive_to_buffer (some frame) fifo)
          ≡ (if ltb (length (frames fifo)) 299 then frames fifo ++ (frame ∷ []) else frames fifo))
unfolding can_receive_to_buffer fifo_is_full
receive_to_buffer_lem fifo frame v =
    let n : length (frames fifo) ≡ waiting fifo =
      length-elements fifo.buffer fifo.pop_index (waiting fifo) in
    elim (dec_lt (waiting fifo) 299) [
      | yes l ↦
          let e : fifo_is_full fifo ≡ false = ground (arith, v.push_below, v.pop_below) in
          let room : ltb (length (frames fifo)) 299 ≡ true = ground arith in
          rw (e, room)
            (
              record { push_below = omega arith; pop_below = v.pop_below },
              frames-pushed fifo frame v l,
            )
      | no l ↦
          let e : fifo_is_full fifo ≡ true = ground (arith, v.push_below, v.pop_below) in
          let room : ltb (length (frames fifo)) 299 ≡ false = ground arith in rw (e, room) (v, refl)
    ]

frames-dropped :
    (fifo : Fifo)
    → IsValid fifo
    → fifo.pop_index ≢ fifo.push_index
    → fifo.buffer fifo.pop_index
        ∷ frames (record fifo { pop_index = (fifo.pop_index + 1) % can_frames_buffered })
      ≡ frames fifo
unfolding elements
frames-dropped fifo v n =
    let next = (fifo.pop_index + 1) % can_frames_buffered in
    let w : waiting fifo
        ≡ suc ((fifo.push_index + can_frames_buffered - next) % can_frames_buffered) =
      ground (arith, v.push_below, v.pop_below) in
    sym (ap (λ k. elements fifo.buffer fifo.pop_index k) w)

-- The result of a call that takes the oldest of the frames that wait, if any waits.
abbrev pub IsPopped : Fifo → Option CanFrame × Fifo → Type 0
IsPopped fifo (none, fifo') = IsValid fifo' × ([] ≡ frames fifo)
IsPopped fifo (some frame, fifo') = IsValid fifo' × ((frame ∷ frames fifo') ≡ frames fifo)

-- When the indices are in the array, the frames come out in the order in which they wait, the call
-- says when there is none, and the indices stay in the array.
receive_from_buffer_lem :
    (fifo : Fifo) → IsValid fifo → IsPopped fifo (can_receive_from_buffer fifo)
unfolding can_receive_from_buffer fifo_is_empty fifo_get_oldest_entry fifo_drop_oldest_entry
    elements
receive_from_buffer_lem fifo v = elim (ℕ_discrete fifo.pop_index fifo.push_index) [
  | yes e ↦
      let b : fifo_is_empty fifo ≡ true = ground arith in
      let w : waiting fifo ≡ 0 = omega (arith, v.push_below, v.pop_below) in
      rw b (v, sym (ap (λ k. elements fifo.buffer fifo.pop_index k) w))
  | no n ↦
      let b : fifo_is_empty fifo ≡ false = ground arith in
      let popped : Fifo = record fifo { pop_index = (fifo.pop_index + 1) % can_frames_buffered } in
      let r : can_receive_from_buffer fifo ≡ (some (fifo.buffer fifo.pop_index), popped) =
        rw b refl in
      subst (λ r. IsPopped fifo r) (sym r)
        (record { push_below = v.push_below; pop_below = omega arith }, frames-dropped fifo v n)
]

-- The buffer of received frames is a queue: when its indices are valid, a frame that arrives is put at
-- the end of the frames in it, or left out if there are 299 already, and a frame that is taken is the
-- oldest; the indices stay valid.
pub buffer_is_queue :
    (fifo : Fifo) (frame : CanFrame)
    → IsValid fifo
    → IsValid (can_receive_to_buffer (some frame) fifo)
      × (frames (can_receive_to_buffer (some frame) fifo)
          ≡ (if ltb (length (frames fifo)) 299 then frames fifo ++ (frame ∷ []) else frames fifo))
      × IsPopped fifo (can_receive_from_buffer fifo)
buffer_is_queue fifo frame v =
    let (valid, put) = receive_to_buffer_lem fifo frame v in
    (valid, put, receive_from_buffer_lem fifo v)

-- ===== src/Fifo.antt =====
-- platform/mcu/stm32f4/can_fifo.h and can_fifo.c, and the two functions of can_interface.c that use
-- the FIFO: the buffer of received CAN frames, of the default size.
pub mod Queue
pub mod Interrupts
pub mod Interrupted
use cvra_bootloader.Prelude.{
  ℕ, zero, suc, ◌+◌, ◌%◌, Bool, List, [], ◌∷◌, Option, none, some, ◌==◌, if◌then◌else◌,
}

abbrev pub can_frames_buffered : ℕ
can_frames_buffered = 300

-- `can_frame_t`
pub record CanFrame : Type 0 where
  pub id : ℕ
  pub dlc : ℕ
  pub bytes : List ℕ

-- `fifo_t`; the array is a function of the index.
pub record Fifo : Type 0 where
  pub buffer : ℕ → CanFrame
  pub push_index : ℕ
  pub pop_index : ℕ

unfoldable pub fifo_init : Fifo → Fifo
fifo_init fifo = record fifo { push_index = 0; pop_index = 0 }

unfoldable pub fifo_is_full : Fifo → Bool
fifo_is_full fifo = (fifo.push_index + 1) % can_frames_buffered == fifo.pop_index

unfoldable pub fifo_is_empty : Fifo → Bool
fifo_is_empty fifo = fifo.pop_index == fifo.push_index

unfoldable pub fifo_get_oldest_entry : Fifo → CanFrame
fifo_get_oldest_entry fifo = fifo.buffer fifo.pop_index

unfoldable pub fifo_drop_oldest_entry : Fifo → Fifo
fifo_drop_oldest_entry fifo = record fifo { pop_index = (fifo.pop_index + 1) % can_frames_buffered }

-- An assignment to an element of the array.
abbrev pub stored : (ℕ → CanFrame) → ℕ → CanFrame → ℕ → CanFrame
stored buffer i frame j = if j == i then frame else buffer j

-- `can_receive_to_buffer`, where the argument is the frame that the hardware holds, if it holds one.
unfoldable pub can_receive_to_buffer : Option CanFrame → Fifo → Fifo
unfolding fifo_is_full
can_receive_to_buffer none fifo = fifo
can_receive_to_buffer (some frame) fifo = if fifo_is_full fifo then fifo else record fifo {
  buffer = stored fifo.buffer fifo.push_index frame;
  push_index = (fifo.push_index + 1) % can_frames_buffered;
}

-- `can_receive_from_buffer`: the frame if it returns true, and the FIFO.
unfoldable pub can_receive_from_buffer : Fifo → Option CanFrame × Fifo
unfolding fifo_is_empty fifo_get_oldest_entry fifo_drop_oldest_entry
can_receive_from_buffer fifo =
    if fifo_is_empty fifo
    then (none, fifo)
    else (some (fifo_get_oldest_entry fifo), fifo_drop_oldest_entry fifo)

-- `can2_rx0_isr`, with the frames that the hardware holds: `can_receive` releases the first one of them,
-- and is not called when the buffer is full.
unfoldable pub can2_rx0_isr : List CanFrame → Fifo → List CanFrame × Fifo
can2_rx0_isr [] fifo = ([], can_receive_to_buffer none fifo)
can2_rx0_isr (frame ∷ pending) fifo = (
  if fifo_is_full fifo then frame ∷ pending else pending,
  can_receive_to_buffer (some frame) fifo,
)

-- ===== src/Bootloader.antt =====
-- bootloader.c. This file has the state of a node and the replies; Bootloader/Loop.antt has the main
-- loop.
pub mod Loop
pub mod Replies
use cvra_bootloader.Prelude.{
  ℕ, zero, suc, ◌+◌, Bool, true, false, List, [], ◌∷◌, ◌++◌, Option, none, some, bit_or, bit_and,
  if◌then◌else◌,
}
use cvra_bootloader.Prelude.Words.{u8}
use cvra_bootloader.Platform.{Platform}
use cvra_bootloader.Config.{Config}
use cvra_bootloader.Datagram.{Datagram, id_start_mask, output_bytes, compute_crc, store}
use cvra_bootloader.Datagram
use cvra_bootloader.Timer.{Timer}

-- A CAN frame: its identifier, and its data bytes.
pub record Frame : Type 0 where
  pub id : ℕ
  pub bytes : List ℕ

-- The constants of platform.h and of the build that only bootloader.c uses.
pub record Board : Type 0 where
  pub platform_device_class : List ℕ
  pub platform_default_name : List ℕ
  pub platform_default_id : ℕ
  pub bootloader_commit : List ℕ
  pub bootloader_version : List ℕ
  pub input_buffer_size : ℕ
  pub output_buffer_size : ℕ
  pub led_success : ℕ
  pub led_error : ℕ

-- The variables of `bootloader_main` and the statics that it works on. `sent` has the frames given
-- to can_interface_send_message and `leds` the calls of `led_on`, both the latest first.
pub record Node (p : Platform) : Type 0 where
  pub config : Config
  pub dt : Datagram
  pub output_buf : List ℕ
  pub bootloader_timeout_enabled : Bool
  pub datagram_timeout_running : Bool
  pub flash : p.Flash
  pub status : ℕ
  pub timer : Timer
  pub sent : List Frame
  pub leds : List ℕ

abbrev pub error_unspecified : ℕ
error_unspecified = 0

abbrev pub success : ℕ
success = 1

abbrev pub error_corrupt_datagram : ℕ
error_corrupt_datagram = 2

abbrev pub error_datagram_timeout : ℕ
error_datagram_timeout = 6

-- `id & ~ID_START_MASK` on 32 bits.
abbrev pub without_start : ℕ → ℕ
without_start id = bit_and id 0xffff_ff7f

-- The loop of return_datagram: the frames in order. `bus` tells whether
-- can_interface_send_message sends the n-th frame; a frame that is not sent is the last.
unfoldable pub send_frames : (ℕ → Bool) → ℕ → ℕ → ℕ → Bool → Datagram → Option (List Frame)
send_frames bus zero n source_id start_of_datagram dt = some []
send_frames bus (suc transmission_count) n source_id start_of_datagram dt =
    elim (output_bytes dt 8) [
      | none ↦ none
      | some ([], dt') ↦ some []
      | some (b ∷ bs, dt') ↦
          let id = if start_of_datagram then bit_or source_id id_start_mask else source_id in
          let frame : Frame = record { id = id; bytes = b ∷ bs } in
          elim (bus n) [
            | false ↦ some (frame ∷ [])
            | true ↦ elim (send_frames bus transmission_count (n + 1) source_id false dt') [
              | none ↦ none
              | some frames ↦ some (frame ∷ frames)
            ]
          ]
    ]

module _ (p : Platform) where
  -- The datagram that return_datagram sends; `dest_nodes` holds some byte at first.
  unfoldable pub reply_datagram : ℕ → List ℕ → ℕ → Option Datagram
  reply_datagram dest_id bytes len =
      let dt =
        Datagram.set_data_buffer (Datagram.set_address_buffer Datagram.init (dest_id ∷ [])) bytes
          len in
      let filled : Datagram = record dt { destination_nodes_len = 1; data_len = len } in
      elim (compute_crc p.crc32 filled) [
        | none ↦ none
        | some crc ↦ some (record filled { crc = crc })
      ]

  unfoldable pub return_datagram : (ℕ → Bool) → ℕ → ℕ → List ℕ → ℕ → Option (List Frame)
  unfolding reply_datagram
  return_datagram bus source_id dest_id bytes len = elim (reply_datagram dest_id bytes len) [
    | none ↦ none
    | some dt ↦ send_frames bus 100 0 source_id true dt
  ]

  -- The frames, and the output buffer.
  unfoldable pub return_error_datagram :
      (ℕ → Bool) → ℕ → List ℕ → ℕ → ℕ → Option (List Frame × List ℕ)
  unfolding return_datagram
  return_error_datagram bus source_id output_buf output_buffer_size error_code =
      let out = p.write_uint (p.init output_buf output_buffer_size) error_code in
      let output_buf' = p.memory out in
      elim (return_datagram bus (u8 (without_start source_id)) 0 output_buf' (p.get_pos out)) [
        | none ↦ none
        | some frames ↦ some (frames, output_buf')
      ]

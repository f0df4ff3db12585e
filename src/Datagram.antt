-- ===== src/Datagram.antt =====
-- can_datagram.h and can_datagram.c: the datagram, its reader and its writer, one byte at a time.
-- A buffer is a list of its size; an access outside of it is `none`, which C leaves undefined.
pub mod Wire
pub mod Reader
pub mod Writer
pub mod Bounds
pub mod Sizes
use cvra_bootloader.Prelude.{
  ℕ, zero, suc, ◌+◌, ◌-◌, ◌*◌, Bool, true, false, ◌&&◌, List, [], ◌∷◌, Option, none, some, bit_or,
  bit_and, ltb, leb, ◌==◌, if◌then◌else◌, length, get_elem?, set, take,
}
use cvra_bootloader.Prelude.Words.{u8, u32, ◌<<<◌, ◌>>>◌, be32}

abbrev pub can_datagram_version : ℕ
can_datagram_version = 1

-- 1 << 7
abbrev pub id_start_mask : ℕ
id_start_mask = 0x80

-- The anonymous enum of reader and writer states.
pub data State : Type 0 where
  state_protocol_version state_crc state_dst_len state_dst : State
  state_data_len state_data state_trailing : State

-- `can_datagram_t`; `data_buffer` is its field `data`, and the leading underscores are left out.
pub record Datagram : Type 0 where
  pub protocol_version : ℕ
  pub crc : ℕ
  pub destination_nodes_len : ℕ
  pub destination_nodes : List ℕ
  pub data_len : ℕ
  pub data_buffer : List ℕ
  pub crc_bytes_read : ℕ
  pub crc_bytes_written : ℕ
  pub data_length_bytes_read : ℕ
  pub data_length_bytes_written : ℕ
  pub destination_nodes_read : ℕ
  pub destination_nodes_written : ℕ
  pub data_bytes_read : ℕ
  pub data_bytes_written : ℕ
  pub data_buffer_size : ℕ
  pub reader_state : State
  pub writer_state : State

-- After `memset` the buffer pointers are null: buffers of no size.
unfoldable pub init : Datagram
init = record {
  protocol_version = can_datagram_version;
  crc = 0;
  destination_nodes_len = 0;
  destination_nodes = [];
  data_len = 0;
  data_buffer = [];
  crc_bytes_read = 0;
  crc_bytes_written = 0;
  data_length_bytes_read = 0;
  data_length_bytes_written = 0;
  destination_nodes_read = 0;
  destination_nodes_written = 0;
  data_bytes_read = 0;
  data_bytes_written = 0;
  data_buffer_size = 0;
  reader_state = state_protocol_version;
  writer_state = state_protocol_version;
}

unfoldable pub set_address_buffer : Datagram → List ℕ → Datagram
set_address_buffer dt buf = record dt { destination_nodes = buf }

unfoldable pub set_data_buffer : Datagram → List ℕ → ℕ → Datagram
set_data_buffer dt buf buf_size = record dt { data_buffer = buf; data_buffer_size = u32 buf_size }

unfoldable pub start : Datagram → Datagram
start dt = record dt {
  reader_state = state_protocol_version;
  crc = 0x11223344;
  crc_bytes_read = 0;
  destination_nodes_read = 0;
  data_length_bytes_read = 0;
  data_bytes_read = 0;
}

-- `buf[i] = val`
abbrev pub store : List ℕ → ℕ → ℕ → Option (List ℕ)
store buf i val = if ltb i (length buf) then some (set buf i val) else none

-- `(word << 8) | val` on 32 bits.
abbrev pub shift_in : ℕ → ℕ → ℕ
shift_in word val = bit_or (u32 (word <<< 8)) val

read_crc : Datagram → ℕ → Datagram
read_crc dt val =
    let n = dt.crc_bytes_read + 1 in
    record dt {
      crc = shift_in dt.crc val;
      crc_bytes_read = n;
      reader_state = if leb 4 n then state_dst_len else dt.reader_state;
    }

read_dst : Datagram → ℕ → Option Datagram
read_dst dt val =
    let n = u8 (dt.destination_nodes_read + 1) in
    elim (store dt.destination_nodes dt.destination_nodes_read val) [
      | none ↦ none
      | some buf ↦ some (record dt {
        destination_nodes = buf;
        destination_nodes_read = n;
        reader_state = if leb dt.destination_nodes_len n then state_data_len else dt.reader_state;
      })
    ]

read_data_len : Datagram → ℕ → Datagram
read_data_len dt val =
    let n = dt.data_length_bytes_read + 1 in
    record dt {
      data_len = shift_in dt.data_len val;
      data_length_bytes_read = n;
      reader_state = if leb 4 n then state_data else dt.reader_state;
    }

read_data : Datagram → ℕ → Option Datagram
read_data dt val =
    let n = u32 (dt.data_bytes_read + 1) in
    let announced = if leb dt.data_len n then state_trailing else dt.reader_state in
    elim (store dt.data_buffer dt.data_bytes_read val) [
      | none ↦ none
      | some buf ↦ some (record dt {
        data_buffer = buf;
        data_bytes_read = n;
        reader_state = if leb dt.data_buffer_size n then state_trailing else announced;
      })
    ]

-- The `switch` of `can_datagram_input_byte`.
input_at : State → Datagram → ℕ → Option Datagram
unfolding read_crc read_dst read_data_len read_data
input_at state_protocol_version dt val =
    some (record dt { protocol_version = val; reader_state = state_crc })
input_at state_crc dt val = some (read_crc dt val)
input_at state_dst_len dt val =
    some (record dt { destination_nodes_len = val; reader_state = state_dst })
input_at state_dst dt val = read_dst dt val
input_at state_data_len dt val = some (read_data_len dt val)
input_at state_data dt val = read_data dt val
input_at state_trailing dt val = some dt

unfoldable pub input_byte : Datagram → ℕ → Option Datagram
unfolding input_at
input_byte dt val = input_at dt.reader_state dt val

-- The bytes of a frame, one after the other.
unfoldable pub input_bytes : Datagram → List ℕ → Option Datagram
input_bytes dt [] = some dt
input_bytes dt (val ∷ vals) = elim (input_byte dt val) [
  | none ↦ none
  | some dt' ↦ input_bytes dt' vals
]

unfoldable pub is_complete : Datagram → Bool
is_complete dt = elim dt.reader_state [ state_trailing ↦ true | _ ↦ false ]

-- What a step of the writer does: write a byte, return early, or read outside a buffer.
pub data Written : Type 0 where
  wrote : ℕ → Datagram → Written
  finished : Datagram → Written
  fault : Written

-- `buffer[i] = buf[k]`, and then the writer's state.
abbrev emit : List ℕ → ℕ → Datagram → Written
emit buf k dt = elim (get_elem? buf k) [ none ↦ fault | some b ↦ wrote b dt ]

-- The `switch` of `can_datagram_output_bytes`; a `char` keeps the low byte.
unfoldable pub output_at : State → Datagram → Written
output_at state_protocol_version dt =
    wrote (u8 dt.protocol_version) (record dt { writer_state = state_crc; crc_bytes_written = 0 })
output_at state_crc dt =
    let n = dt.crc_bytes_written + 1 in
    wrote (u8 (dt.crc >>> (24 - 8 * dt.crc_bytes_written))) (record dt {
      crc_bytes_written = n;
      writer_state = if leb 4 n then state_dst_len else dt.writer_state;
    })
output_at state_dst_len dt =
    wrote (u8 dt.destination_nodes_len)
      (record dt { writer_state = state_dst; destination_nodes_written = 0 })
output_at state_dst dt =
    let n = u8 (dt.destination_nodes_written + 1) in
    let last = leb dt.destination_nodes_len n in
    emit dt.destination_nodes dt.destination_nodes_written (record dt {
      destination_nodes_written = n;
      writer_state = if last then state_data_len else dt.writer_state;
      data_length_bytes_written = if last then 0 else dt.data_length_bytes_written;
    })
output_at state_data_len dt =
    let n = dt.data_length_bytes_written + 1 in
    let last = leb 4 n in
    wrote (u8 (dt.data_len >>> (24 - 8 * dt.data_length_bytes_written))) (record dt {
      data_length_bytes_written = n;
      writer_state = if last then state_data else dt.writer_state;
      data_bytes_written = if last then 0 else dt.data_bytes_written;
    })
output_at state_data dt =
    if leb dt.data_len dt.data_bytes_written
    then finished (record dt { writer_state = state_trailing })
    else emit dt.data_buffer dt.data_bytes_written
        (record dt { data_bytes_written = u32 (dt.data_bytes_written + 1) })
output_at state_trailing dt = finished dt

-- The bytes written into a buffer with room for the given count, and the datagram after them.
unfoldable pub output_bytes : Datagram → ℕ → Option (List ℕ × Datagram)
unfolding output_at
output_bytes dt zero = some ([], dt)
output_bytes dt (suc room) = elim (output_at dt.writer_state dt) [
  | wrote b dt' ↦ elim (output_bytes dt' room) [ none ↦ none | some (bs, out) ↦ some (b ∷ bs, out) ]
  | finished dt' ↦ some ([], dt')
  | fault ↦ none
]

unfoldable pub id_start_is_set : ℕ → Bool
id_start_is_set id = elim (bit_and id id_start_mask) [ zero ↦ false | suc n ↦ true ]

-- `buf[0 .. n - 1]`, read by the library's `crc32`.
abbrev pub load : List ℕ → ℕ → Option (List ℕ)
load buf n = if leb n (length buf) then some (take n buf) else none

-- `crc32` is a library's: the start value, then the bytes.
module _ (crc32 : ℕ → List ℕ → ℕ) where
  unfoldable pub compute_crc : Datagram → Option ℕ
  compute_crc dt =
      let crc = crc32 0 (u8 dt.destination_nodes_len ∷ []) in
      elim (load dt.destination_nodes dt.destination_nodes_len) [
        | none ↦ none
        | some nodes ↦
            let crc' = crc32 (crc32 crc nodes) (be32 dt.data_len) in
            elim (load dt.data_buffer dt.data_len) [
              | none ↦ none
              | some bytes ↦ some (crc32 crc' bytes)
            ]
      ]

  -- `&&` stops at the first test that fails.
  unfoldable pub is_valid : Datagram → Option Bool
  unfolding is_complete compute_crc
  is_valid dt = elim (is_complete dt) [
    | false ↦ some false
    | true ↦ elim (compute_crc dt) [
      | none ↦ none
      | some crc ↦ some (crc == dt.crc && dt.protocol_version == can_datagram_version)
    ]
  ]

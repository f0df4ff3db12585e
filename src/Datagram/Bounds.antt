-- ===== src/Datagram/Bounds.antt =====
-- Where the datagram code stays inside of its buffers, and where it does not.
use cvra_bootloader.Prelude.{
  ℕ, ◌+◌, ◌^◌, ◌≤◌, ◌<◌, ◌≡◌, ◌⊎◌, inl, inr, refl, ◌∙◌, false, true, List, [], ◌∷◌, ◌++◌, none,
  some, arith, length, length-set, set, Option-cases, ap, dec_lt,
}
use cvra_bootloader.Prelude.Words.{be32}
use cvra_bootloader.Datagram.{
  Datagram, State, state_protocol_version, state_crc, state_dst_len, state_dst, state_data_len,
  state_data, state_trailing, start, input_byte, input_bytes, is_complete, is_valid, compute_crc,
  read_crc, read_dst, read_data_len, read_data,
}
use cvra_bootloader.Datagram.Wire.{Message, encode, HasHeader}
use cvra_bootloader.Datagram.Reader.{input_bytes-trailing}
use cvra_bootloader.Datagram.Reader.Accept.{header_taken, received}

-- The data buffer is as large as announced to the reader, and is not full before the end.
pub record InBounds (dt : Datagram) : Type 0 where
  pub size_true : dt.data_buffer_size ≤ length dt.data_buffer
  pub size_word : dt.data_buffer_size < 2 ^ 32
  pub room : (dt.reader_state ≡ state_trailing) ⊎ (dt.data_bytes_read < dt.data_buffer_size)

-- The address list is full and another address comes.
abbrev pub Overflows : Datagram → Type 0
Overflows dt =
    (dt.reader_state ≡ state_dst) × (length dt.destination_nodes ≤ dt.destination_nodes_read)

-- When the data buffer is as large as the reader knows, and is not full before the end, a byte either
-- overflows the address buffer, or is taken with every access inside of a buffer, and then the data
-- buffer is as large as the reader knows and not full before the end again.
pub input_byte-InBounds :
    (s : State) (dt : Datagram) (val : ℕ)
    → dt.reader_state ≡ s
    → InBounds dt
    → (Overflows dt × (input_byte dt val ≡ none))
      ⊎ ((dt' : Datagram) × (input_byte dt val ≡ some dt') × InBounds dt')
unfolding input_byte
input_byte-InBounds state_protocol_version dt val e b =
    inr (record dt { protocol_version = val; reader_state = state_crc }, ground arith, ground arith)
input_byte-InBounds state_crc dt val e b = inr (read_crc dt val, ground arith, ground arith)
input_byte-InBounds state_dst_len dt val e b = inr (
  record dt { destination_nodes_len = val; reader_state = state_dst },
  ground arith,
  ground arith,
)
input_byte-InBounds state_dst dt val e b = elim (Option-cases (read_dst dt val)) [
  | inl full ↦ inl (ground arith)
  | inr (dt', e') ↦ inr (dt', ground arith, ground arith)
]
input_byte-InBounds state_data_len dt val e b =
    inr (read_data_len dt val, ground arith, ground arith)
input_byte-InBounds state_data dt val e b = elim (Option-cases (read_data dt val)) [
  | inl full ↦ absurd (ground arith)
  | inr (dt', e') ↦
      inr (dt', ground arith, ground (arith, length-set dt.data_buffer dt.data_bytes_read val))
]
input_byte-InBounds state_trailing dt val e b = inr (dt, ground arith, b)

dst_overflow_from :
    (dt : Datagram) (xs : List ℕ)
    → dt.reader_state ≡ state_dst
    → dt.destination_nodes_read ≤ length dt.destination_nodes
    → length dt.destination_nodes < dt.destination_nodes_len
    → dt.destination_nodes_len < 256
    → length dt.destination_nodes < dt.destination_nodes_read + length xs
    → input_bytes dt xs ≡ none
unfolding input_bytes input_byte
dst_overflow_from dt [] e p q r l = absurd (omega arith)
dst_overflow_from dt (x ∷ xs) e p q r l =
    let next : Datagram = record dt {
      destination_nodes = set dt.destination_nodes dt.destination_nodes_read x;
      destination_nodes_read = dt.destination_nodes_read + 1;
    } in
    ground (
      arith,
      length-set dt.destination_nodes dt.destination_nodes_read x,
      dst_overflow_from next xs,
    )

-- A destination list that is announced, in one byte, to be longer than the receiver's address buffer
-- makes the started reader write behind that buffer, as soon as more addresses came than the buffer
-- has bytes.
pub dst_overflow :
    (dt : Datagram) (version checksum n : ℕ) (xs : List ℕ)
    → n < 256
    → length dt.destination_nodes < n
    → length dt.destination_nodes < length xs
    → input_bytes (start dt) (version ∷ (be32 checksum ++ (n ∷ xs))) ≡ none
unfolding start input_bytes input_byte
dst_overflow dt version checksum n xs small longer enough =
    dst_overflow_from _ xs refl (omega arith) longer small (omega arith)

-- A started reader that is given all bytes of a datagram with no data, with a destination and with
-- room for its destinations, is not complete behind them.
empty_data_waits :
    (dt : Datagram) (m : Message)
    → HasHeader m
    → length m.nodes ≤ length dt.destination_nodes
    → m.bytes ≡ []
    → (dt' : Datagram) × (input_bytes (start dt) (encode m) ≡ some dt') × (is_complete dt' ≡ false)
unfolding is_complete input_bytes
empty_data_waits dt m w fits e =
    let waiting : Datagram = record (received dt m) {
      reader_state = state_data;
      data_buffer = dt.data_buffer;
      data_bytes_read = 0;
    } in
    (waiting, header_taken dt m w fits ∙ ap (input_bytes waiting) e, refl)

-- The data buffer has room, is as large as the reader knows, and is smaller than what is announced.
pub record IsOverAnnounced (dt : Datagram) : Type 0 where
  pub in_data : dt.reader_state ≡ state_data
  pub size_true : dt.data_buffer_size ≡ length dt.data_buffer
  pub announced_more : dt.data_buffer_size < dt.data_len
  pub announced_word : dt.data_len < 2 ^ 32
  pub room : dt.data_bytes_read < dt.data_buffer_size

overannounced_fills :
    (xs : List ℕ) (dt : Datagram)
    → IsOverAnnounced dt
    → dt.data_buffer_size ≤ dt.data_bytes_read + length xs
    → (dt' : Datagram) × (input_bytes dt xs ≡ some dt')
      × (dt'.reader_state ≡ state_trailing)
      × (length dt'.data_buffer < dt'.data_len)
unfolding input_bytes input_byte
overannounced_fills [] dt o h = absurd (omega arith)
overannounced_fills (x ∷ xs) dt o h = elim (dec_lt (dt.data_bytes_read + 1) dt.data_buffer_size) [
  | yes more ↦
      let next : Datagram = record dt {
        data_buffer = set dt.data_buffer dt.data_bytes_read x;
        data_bytes_read = dt.data_bytes_read + 1;
      } in
      let (dt', taken, complete, long) =
        overannounced_fills xs next (ground (arith, length-set dt.data_buffer dt.data_bytes_read x))
          (omega arith) in
      (dt', ground arith, complete, long)
  | no last ↦
      let full : Datagram = record dt {
        data_buffer = set dt.data_buffer dt.data_bytes_read x;
        data_bytes_read = dt.data_bytes_read + 1;
        reader_state = state_trailing;
      } in
      (
        full,
        ground (arith, input_bytes-trailing full xs refl),
        refl,
        omega (arith, length-set dt.data_buffer dt.data_bytes_read x),
      )
]

-- A reader at the data of a datagram that announces more than the receiver's buffer has is complete
-- once that buffer is full, and its check then reads behind the buffer.
pub overannounced_overread :
    (crc32 : ℕ → List ℕ → ℕ) (xs : List ℕ) (dt : Datagram)
    → IsOverAnnounced dt
    → dt.data_buffer_size ≤ dt.data_bytes_read + length xs
    → (dt' : Datagram) × (input_bytes dt xs ≡ some dt')
      × (is_complete dt' ≡ true)
      × (is_valid crc32 dt' ≡ none)
unfolding is_valid is_complete compute_crc
overannounced_overread crc32 xs dt o h =
    let (dt', taken, complete, long) = overannounced_fills xs dt o h in
    (dt', taken, ground arith, ground arith)

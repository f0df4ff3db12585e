-- ===== src/Datagram/Reader/Accept.antt =====
-- The reader and the check of a datagram against the format: a whole message is taken in, and
-- accepted exactly if its version and its checksum are right.
use cvra_bootloader.Prelude.{
  ℕ, ◌^◌, ◌≤◌, ◌<◌, ◌≡◌, refl, ◌∙◌, List, [], ◌∷◌, ◌++◌, some, arith, length, ◌==◌, ◌&&◌,
}
use cvra_bootloader.Prelude.Words.{be32}
use cvra_bootloader.Datagram.{
  Datagram, state_crc, state_dst_len, state_dst, state_data_len, state_data, state_trailing, start,
  input_byte, input_bytes, load, compute_crc, is_valid, can_datagram_version,
}
use cvra_bootloader.Datagram.Wire.{
  Message, encode, HasHeader, IsWellFormed, Fits, message_crc, message_of, overwrite,
  length-overwrite, take-overwrite,
}
use cvra_bootloader.Datagram.Reader.{
  input_bytes-append, input_bytes-crc, input_bytes-dst, input_bytes-data_len, input_bytes-data,
  input_bytes-trailing,
}

-- The datagram once the message is in.
abbrev pub received : Datagram → Message → Datagram
received dt m = record dt {
  protocol_version = m.version;
  crc = m.checksum;
  crc_bytes_read = 4;
  destination_nodes_len = length m.nodes;
  destination_nodes = overwrite dt.destination_nodes 0 m.nodes;
  destination_nodes_read = length m.nodes;
  data_len = length m.bytes;
  data_length_bytes_read = 4;
  data_buffer = overwrite dt.data_buffer 0 m.bytes;
  data_bytes_read = length m.bytes;
  reader_state = state_trailing;
}

-- One part of the input, then the rest.
input_bytes-then :
    (dt dt' : Datagram) (xs ys : List ℕ)
    → input_bytes dt xs ≡ some dt'
    → input_bytes dt (xs ++ ys) ≡ input_bytes dt' ys
input_bytes-then dt dt' xs ys e = rw (input_bytes-append xs ys dt, e)

nodes_taken :
    (dt : Datagram) (xs : List ℕ)
    → 1 ≤ length xs
    → length xs < 256
    → length xs ≤ length dt.destination_nodes
    → input_bytes
        (record dt {
          reader_state = state_dst;
          destination_nodes_read = 0;
          destination_nodes_len = length xs;
        })
        xs
      ≡ some (record dt {
        reader_state = state_data_len;
        destination_nodes = overwrite dt.destination_nodes 0 xs;
        destination_nodes_read = length xs;
        destination_nodes_len = length xs;
      })
nodes_taken dt [] p q r = absurd (omega arith)
nodes_taken dt (x ∷ xs) p q r =
    input_bytes-dst dt dt.destination_nodes 0 (length (x ∷ xs)) x xs (omega arith) q r

bytes_taken :
    (dt : Datagram) (xs : List ℕ)
    → 1 ≤ length xs
    → length xs < 2 ^ 32
    → length xs ≤ length dt.data_buffer
    → length xs ≤ dt.data_buffer_size
    → input_bytes
        (record dt { reader_state = state_data; data_bytes_read = 0; data_len = length xs })
        xs
      ≡ some (record dt {
        reader_state = state_trailing;
        data_buffer = overwrite dt.data_buffer 0 xs;
        data_bytes_read = length xs;
        data_len = length xs;
      })
bytes_taken dt [] p q r s = absurd (omega arith)
bytes_taken dt (x ∷ xs) p q r s =
    input_bytes-data dt dt.data_buffer 0 (length (x ∷ xs)) x xs (omega arith) q r s

-- The reader, field by field.
pub header_taken :
    (dt : Datagram) (m : Message)
    → HasHeader m
    → length m.nodes ≤ length dt.destination_nodes
    → input_bytes (start dt) (encode m)
      ≡ input_bytes
          (record (received dt m) {
            reader_state = state_data;
            data_buffer = dt.data_buffer;
            data_bytes_read = 0;
          })
          m.bytes
unfolding start input_bytes input_byte encode
header_taken dt m w fits =
    let versioned : Datagram = record (start dt) {
      protocol_version = m.version;
      reader_state = state_crc;
    } in
    let summed : Datagram = record versioned {
      crc = m.checksum;
      crc_bytes_read = 4;
      reader_state = state_dst_len;
    } in
    let tail = be32 (length m.bytes) ++ m.bytes in
    let listed : Datagram = record summed {
      destination_nodes_len = length m.nodes;
      reader_state = state_dst;
    } in
    let addressed : Datagram = record listed {
      destination_nodes = overwrite dt.destination_nodes 0 m.nodes;
      destination_nodes_read = length m.nodes;
      reader_state = state_data_len;
    } in
    input_bytes-then versioned summed (be32 m.checksum) (length m.nodes ∷ (m.nodes ++ tail))
      (input_bytes-crc versioned m.checksum w.checksum_word)
    ∙ input_bytes-then listed addressed m.nodes tail
        (nodes_taken listed m.nodes w.some_node w.nodes_byte fits)
    ∙ input_bytes-then addressed _ (be32 (length m.bytes)) m.bytes
        (input_bytes-data_len addressed (length m.bytes) w.bytes_word)

pub input_bytes-encode :
    (dt : Datagram) (m : Message) (rest : List ℕ)
    → IsWellFormed m
    → Fits m dt
    → input_bytes (start dt) (encode m ++ rest) ≡ some (received dt m)
input_bytes-encode dt m rest w f =
    input_bytes-then (start dt) (received dt m) (encode m) rest (
      header_taken dt m w.header f.nodes_fit
      ∙ bytes_taken (record (received dt m) { data_buffer = dt.data_buffer }) m.bytes w.some_byte
          w.bytes_word f.bytes_fit f.bytes_allowed)
    ∙ input_bytes-trailing (received dt m) rest refl

load-overwrite :
    (buf xs : List ℕ) → length xs ≤ length buf → load (overwrite buf 0 xs) (length xs) ≡ some xs
load-overwrite buf xs h = ground (arith, length-overwrite buf 0 xs, take-overwrite buf xs h)

pub message_of-received :
    (dt : Datagram) (m : Message) → Fits m dt → message_of (received dt m) ≡ some m
unfolding message_of
message_of-received dt m f = ground (
  arith,
  load-overwrite dt.destination_nodes m.nodes f.nodes_fit,
  load-overwrite dt.data_buffer m.bytes f.bytes_fit,
)

module _ (crc32 : ℕ → List ℕ → ℕ) where
  compute_crc-received :
      (dt : Datagram) (m : Message)
      → IsWellFormed m
      → Fits m dt
      → compute_crc crc32 (received dt m) ≡ some (message_crc crc32 m)
  unfolding compute_crc message_crc
  compute_crc-received dt m w f = ground (
    arith,
    load-overwrite dt.destination_nodes m.nodes f.nodes_fit,
    load-overwrite dt.data_buffer m.bytes f.bytes_fit,
  )

  pub is_valid-received :
      (dt : Datagram) (m : Message)
      → IsWellFormed m
      → Fits m dt
      → is_valid crc32 (received dt m)
        ≡ some (message_crc crc32 m == m.checksum && m.version == can_datagram_version)
  unfolding is_valid
  is_valid-received dt m w f = rw (compute_crc-received dt m w f, is_valid)

  -- A started reader that is given the bytes of a well-formed message, with room for it in its
  -- buffers, and then any bytes, has no access outside of its buffers, holds that very message, and
  -- calls it valid exactly if the checksum and the version are right.
  pub accepts_exactly :
      (dt : Datagram) (m : Message) (rest : List ℕ)
      → IsWellFormed m
      → Fits m dt
      → (dt' : Datagram) × (input_bytes (start dt) (encode m ++ rest) ≡ some dt')
        × (message_of dt' ≡ some m)
        × (is_valid crc32 dt'
            ≡ some (message_crc crc32 m == m.checksum && m.version == can_datagram_version))
  accepts_exactly dt m rest w f = (
    received dt m,
    input_bytes-encode dt m rest w f,
    message_of-received dt m f,
    is_valid-received dt m w f,
  )

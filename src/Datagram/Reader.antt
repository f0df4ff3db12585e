-- ===== src/Datagram/Reader.antt =====
-- can_datagram_input_byte: what the reader makes of each field.
pub mod Accept
pub mod Prefix
use cvra_bootloader.Prelude.{
  ℕ, ◌+◌, ◌*◌, ◌%◌, ◌/◌, ◌^◌, ◌≤◌, ◌<◌, ◌≡◌, refl, ap, List, [], ◌∷◌, ◌++◌, none, some, arith,
  length, length-set, set, inl, inr, Option-cases,
}
use cvra_bootloader.Prelude.Bits.{bit_or_byte}
use cvra_bootloader.Prelude.Words.{u8, be32}
use cvra_bootloader.Datagram.{
  Datagram, state_crc, state_dst_len, state_dst, state_data_len, state_data, state_trailing,
  shift_in, input_byte, input_bytes,
}
use cvra_bootloader.Datagram.Wire.{overwrite}

pub input_bytes-append :
    (xs ys : List ℕ) (dt : Datagram)
    → input_bytes dt (xs ++ ys)
      ≡ elim (input_bytes dt xs) [ none ↦ none | some dt' ↦ input_bytes dt' ys ]
unfolding input_bytes
input_bytes-append [] ys dt = refl
input_bytes-append (x ∷ xs) ys dt = elim (Option-cases (input_byte dt x)) [
  | inl e ↦ rw (e, input_bytes)
  | inr (dt', e) ↦ rw (e, input_bytes) (input_bytes-append xs ys dt')
]

shift_in-byte : (word val : ℕ) → val < 256 → shift_in word val ≡ word * 256 % 2 ^ 32 + val
shift_in-byte word val h = ground (arith, bit_or_byte (word % 2 ^ 24) val)

-- Four bytes push out what the word held.
pub shift_in-be32 :
    (word x : ℕ)
    → x < 2 ^ 32
    → shift_in
        (shift_in (shift_in (shift_in word (u8 (x / 2 ^ 24))) (u8 (x / 2 ^ 16))) (u8 (x / 2 ^ 8)))
        (u8 (x / 2 ^ 0))
      ≡ x
shift_in-be32 word x h =
    let w1 = shift_in word (u8 (x / 2 ^ 24)) in
    let w2 = shift_in w1 (u8 (x / 2 ^ 16)) in
    let w3 = shift_in w2 (u8 (x / 2 ^ 8)) in
    omega (
      arith,
      shift_in-byte word (u8 (x / 2 ^ 24)) (omega arith),
      shift_in-byte w1 (u8 (x / 2 ^ 16)) (omega arith),
      shift_in-byte w2 (u8 (x / 2 ^ 8)) (omega arith),
      shift_in-byte w3 (u8 (x / 2 ^ 0)) (omega arith),
    )

pub input_bytes-crc :
    (dt : Datagram) (x : ℕ)
    → x < 2 ^ 32
    → input_bytes (record dt { reader_state = state_crc; crc_bytes_read = 0 }) (be32 x)
      ≡ some (record dt { reader_state = state_dst_len; crc_bytes_read = 4; crc = x })
unfolding input_bytes input_byte
input_bytes-crc dt x h =
    ap (λ w. some (record dt { reader_state = state_dst_len; crc_bytes_read = 4; crc = w }))
      (shift_in-be32 dt.crc x h)

pub input_bytes-dst :
    (dt : Datagram) (buf : List ℕ) (i n x : ℕ) (xs : List ℕ)
    → i + length (x ∷ xs) ≡ n
    → n < 256
    → n ≤ length buf
    → input_bytes
        (record dt {
          reader_state = state_dst;
          destination_nodes = buf;
          destination_nodes_read = i;
          destination_nodes_len = n;
        })
        (x ∷ xs)
      ≡ some (record dt {
        reader_state = state_data_len;
        destination_nodes = overwrite buf i (x ∷ xs);
        destination_nodes_read = n;
        destination_nodes_len = n;
      })
unfolding input_bytes input_byte
input_bytes-dst dt buf i n x [] e small fits = ground arith
input_bytes-dst dt buf i n x (y ∷ xs) e small fits =
    ground (arith, length-set buf i x, input_bytes-dst dt (set buf i x) (i + 1) n y xs)

pub input_bytes-data_len :
    (dt : Datagram) (x : ℕ)
    → x < 2 ^ 32
    → input_bytes (record dt { reader_state = state_data_len; data_length_bytes_read = 0 }) (be32 x)
      ≡ some (record dt { reader_state = state_data; data_length_bytes_read = 4; data_len = x })
unfolding input_bytes input_byte
input_bytes-data_len dt x h =
    ap
      (λ w.
        some (record dt { reader_state = state_data; data_length_bytes_read = 4; data_len = w }))
      (shift_in-be32 dt.data_len x h)

pub input_bytes-data :
    (dt : Datagram) (buf : List ℕ) (i n x : ℕ) (xs : List ℕ)
    → i + length (x ∷ xs) ≡ n
    → n < 2 ^ 32
    → n ≤ length buf
    → n ≤ dt.data_buffer_size
    → input_bytes
        (record dt {
          reader_state = state_data;
          data_buffer = buf;
          data_bytes_read = i;
          data_len = n;
        })
        (x ∷ xs)
      ≡ some (record dt {
        reader_state = state_trailing;
        data_buffer = overwrite buf i (x ∷ xs);
        data_bytes_read = n;
        data_len = n;
      })
unfolding input_bytes input_byte
input_bytes-data dt buf i n x [] e small fits allowed = ground arith
input_bytes-data dt buf i n x (y ∷ xs) e small fits allowed =
    ground (arith, length-set buf i x, input_bytes-data dt (set buf i x) (i + 1) n y xs)

-- What follows a complete datagram is dropped.
pub input_bytes-trailing :
    (dt : Datagram) (xs : List ℕ) → dt.reader_state ≡ state_trailing → input_bytes dt xs ≡ some dt
unfolding input_bytes input_byte
input_bytes-trailing dt [] e = refl
input_bytes-trailing dt (x ∷ xs) e = ground (arith, input_bytes-trailing dt xs e)

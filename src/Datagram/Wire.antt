-- ===== src/Datagram/Wire.antt =====
-- PROTOCOL.markdown, "CAN datagram format": what a datagram says, and its bytes on the wire.
use cvra_bootloader.Prelude.{
  ℕ, suc, ◌+◌, ◌^◌, ◌≤◌, ◌<◌, ◌≡◌, refl, ap, ◌∙◌, List, [], ◌∷◌, ◌++◌, Option, none, some, arith,
  length, set, take, length-set,
}
use cvra_bootloader.Prelude.Words.{be32}
use cvra_bootloader.Datagram.{Datagram, load}

pub record Message : Type 0 where
  pub version : ℕ
  pub checksum : ℕ
  pub nodes : List ℕ
  pub bytes : List ℕ

unfoldable pub encode : Message → List ℕ
encode m =
    m.version
    ∷ (be32 m.checksum ++ (length m.nodes ∷ (m.nodes ++ (be32 (length m.bytes) ++ m.bytes))))

-- Values that the fields have room for, with a destination.
pub record HasHeader (m : Message) : Type 0 where
  pub version_byte : m.version < 256
  pub checksum_word : m.checksum < 2 ^ 32
  pub some_node : 1 ≤ length m.nodes
  pub nodes_byte : length m.nodes < 256
  pub bytes_word : length m.bytes < 2 ^ 32

-- And a byte of data.
pub record IsWellFormed (m : Message) : Type 0 where
  pub header : HasHeader m
  pub open header use *
  pub some_byte : 1 ≤ length m.bytes

-- The receiver's buffers have room for the message.
pub record Fits (m : Message) (dt : Datagram) : Type 0 where
  pub nodes_fit : length m.nodes ≤ length dt.destination_nodes
  pub bytes_fit : length m.bytes ≤ length dt.data_buffer
  pub bytes_allowed : length m.bytes ≤ dt.data_buffer_size

-- The checksum that covers the destinations and the data, each behind its length.
module _ (crc32 : ℕ → List ℕ → ℕ) where
  unfoldable pub message_crc : Message → ℕ
  message_crc m =
      crc32 (crc32 (crc32 (crc32 0 (length m.nodes ∷ [])) m.nodes) (be32 (length m.bytes))) m.bytes

-- The message that a datagram's fields and buffers hold.
unfoldable pub message_of : Datagram → Option Message
message_of dt = elim (load dt.destination_nodes dt.destination_nodes_len) [
  | none ↦ none
  | some ns ↦ elim (load dt.data_buffer dt.data_len) [
    | none ↦ none
    | some bs ↦
        some (record { version = dt.protocol_version; checksum = dt.crc; nodes = ns; bytes = bs })
  ]
]

-- Writing a list into a buffer, from an index on.
abbrev pub overwrite : List ℕ → ℕ → List ℕ → List ℕ
overwrite buf i [] = buf
overwrite buf i (x ∷ xs) = overwrite (set buf i x) (i + 1) xs

pub length-overwrite :
    (buf : List ℕ) (i : ℕ) (xs : List ℕ) → length (overwrite buf i xs) ≡ length buf
length-overwrite buf i [] = refl
length-overwrite buf i (x ∷ xs) = length-overwrite (set buf i x) (i + 1) xs ∙ length-set buf i x

overwrite-cons :
    (b : ℕ) (buf : List ℕ) (i : ℕ) (xs : List ℕ)
    → overwrite (b ∷ buf) (suc i) xs ≡ b ∷ overwrite buf i xs
overwrite-cons b buf i [] = refl
overwrite-cons b buf i (x ∷ xs) =
    let e : suc i + 1 ≡ suc (i + 1) = omega arith in
    rw e (overwrite-cons b (set buf i x) (i + 1) xs)

-- What was written is read back.
pub take-overwrite :
    (buf xs : List ℕ) → length xs ≤ length buf → take (length xs) (overwrite buf 0 xs) ≡ xs
take-overwrite buf [] h = refl
take-overwrite [] (x ∷ xs) h = absurd (omega arith)
take-overwrite (b ∷ buf) (x ∷ xs) h =
    rw (overwrite-cons x buf 0 xs) (ap (◌∷◌ x) (take-overwrite buf xs (omega arith)))

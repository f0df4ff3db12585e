-- ===== src/Datagram/Writer.antt =====
-- can_datagram_output_bytes: whatever room each call gives, the calls write the bytes of the
-- message one after the other.
use cvra_bootloader.Prelude.{
  ℕ, zero, suc, ◌+◌, ◌^◌, ◌≤◌, ◌<◌, ◌≡◌, refl, List, [], ◌∷◌, ◌++◌, some, arith, length, leb, inl,
  inr, Bool-cases, get_elem?, take, drop, length-take,
}
use cvra_bootloader.Prelude.Words.{u8, be32}
use cvra_bootloader.Datagram.{
  Datagram, state_protocol_version, state_crc, state_dst_len, state_dst, state_data_len, state_data,
  state_trailing, wrote, finished, output_at, output_bytes, load,
}
use cvra_bootloader.Datagram.Wire.{Message, encode, message_of}

-- The writer has exactly these bytes left to write.
abbrev pub Emits : List ℕ → Datagram → Type 0
Emits [] dt =
    (dt' : Datagram) × (output_at dt.writer_state dt ≡ finished dt')
    × (output_at dt'.writer_state dt' ≡ finished dt')
Emits (x ∷ xs) dt = (dt' : Datagram) × (output_at dt.writer_state dt ≡ wrote x dt') × Emits xs dt'

-- A call with some room writes as many of them as fit, and leaves the others.
pub output_bytes-Emits :
    (room : ℕ) (xs : List ℕ) (dt : Datagram)
    → Emits xs dt
    → (dt' : Datagram) × (output_bytes dt room ≡ some (take room xs, dt'))
      × Emits (drop room xs) dt'
unfolding output_bytes
output_bytes-Emits zero xs dt e = (dt, refl, e)
output_bytes-Emits (suc room) [] dt (dt', e, e') = (dt', rw (e, output_bytes), (dt', e', e'))
output_bytes-Emits (suc room) (x ∷ xs) dt (dt', e, more) =
    let (out, written, left) = output_bytes-Emits room xs dt' more in
    (out, rw (e, output_bytes, written), left)

-- A buffer holds these bytes from an index on.
abbrev Segment : List ℕ → ℕ → List ℕ → Type 0
Segment buf i [] = Unit
Segment buf i (x ∷ xs) = (get_elem? buf i ≡ some x) × Segment buf (i + 1) xs

Segment-cons :
    (b : ℕ) (buf : List ℕ) (i : ℕ) (xs : List ℕ) → Segment buf i xs → Segment (b ∷ buf) (suc i) xs
Segment-cons b buf i [] s = tt
Segment-cons b buf i (x ∷ xs) s =
    let e : suc i + 1 ≡ suc (i + 1) = omega arith in (s.0, rw e (Segment-cons b buf (i + 1) xs s.1))

Segment-take : (n : ℕ) (buf : List ℕ) → n ≤ length buf → Segment buf 0 (take n buf)
Segment-take zero buf h = tt
Segment-take (suc n) [] h = tt
Segment-take (suc n) (b ∷ buf) h =
    (refl, Segment-cons b buf 0 (take n buf) (Segment-take n buf (omega arith)))

Emits-crc :
    (dt : Datagram) (rest : List ℕ)
    → Emits rest (record dt { writer_state = state_dst_len; crc_bytes_written = 4 })
    → Emits (be32 dt.crc ++ rest) (record dt { writer_state = state_crc; crc_bytes_written = 0 })
unfolding output_at
Emits-crc dt rest e = (_, refl, (_, refl, (_, refl, (_, refl, e))))

Emits-data_len :
    (dt : Datagram) (rest : List ℕ)
    → Emits rest (record dt {
      writer_state = state_data;
      data_length_bytes_written = 4;
      data_bytes_written = 0;
    })
    → Emits
        (be32 dt.data_len ++ rest)
        (record dt { writer_state = state_data_len; data_length_bytes_written = 0 })
unfolding output_at
Emits-data_len dt rest e = (_, refl, (_, refl, (_, refl, (_, refl, e))))

Emits-nodes :
    (dt : Datagram) (i x : ℕ) (xs rest : List ℕ)
    → i + length (x ∷ xs) ≡ dt.destination_nodes_len
    → dt.destination_nodes_len < 256
    → Segment dt.destination_nodes i (x ∷ xs)
    → Emits rest (record dt {
      writer_state = state_data_len;
      destination_nodes_written = dt.destination_nodes_len;
      data_length_bytes_written = 0;
    })
    → Emits
        ((x ∷ xs) ++ rest)
        (record dt { writer_state = state_dst; destination_nodes_written = i })
unfolding output_at
Emits-nodes dt i x [] rest n small s e = (_, ground arith, e)
Emits-nodes dt i x (y ∷ xs) rest n small s e = (
  record dt { writer_state = state_dst; destination_nodes_written = i + 1 },
  ground arith,
  Emits-nodes dt (i + 1) y xs rest (omega arith) small s.1 e,
)

Emits-data :
    (dt : Datagram) (i : ℕ) (xs : List ℕ)
    → i + length xs ≡ dt.data_len
    → dt.data_len < 2 ^ 32
    → Segment dt.data_buffer i xs
    → Emits xs (record dt { writer_state = state_data; data_bytes_written = i })
unfolding output_at
Emits-data dt i [] n small s =
    (record dt { writer_state = state_trailing; data_bytes_written = i }, ground arith, refl)
Emits-data dt i (x ∷ xs) n small s = (
  record dt { writer_state = state_data; data_bytes_written = i + 1 },
  ground arith,
  Emits-data dt (i + 1) xs (omega arith) small s.1,
)

load-Segment : (buf xs : List ℕ) (n : ℕ) → load buf n ≡ some xs → Segment buf 0 xs × (length xs ≡ n)
load-Segment buf xs n h = elim (Bool-cases (leb n (length buf))) [
  | inl fits ↦
      let e : take n buf ≡ xs = ground arith in
      rw (← e) (Segment-take n buf (ground arith), ground (arith, length-take n buf))
  | inr out ↦ absurd (ground arith)
]

message_of-fields :
    (dt : Datagram) (m : Message)
    → message_of dt ≡ some m
    → (load dt.destination_nodes dt.destination_nodes_len ≡ some m.nodes)
      × (load dt.data_buffer dt.data_len ≡ some m.bytes)
      × (dt.protocol_version ≡ m.version)
      × (dt.crc ≡ m.checksum)
unfolding message_of
message_of-fields dt m h = ground arith

-- A datagram that was not sent yet, with a destination, in the ranges of its C types.
pub record IsSendable (dt : Datagram) : Type 0 where
  pub fresh : dt.writer_state ≡ state_protocol_version
  pub version_byte : dt.protocol_version < 256
  pub some_node : 1 ≤ dt.destination_nodes_len
  pub nodes_byte : dt.destination_nodes_len < 256
  pub data_word : dt.data_len < 2 ^ 32

Emits-nodes_list :
    (dt : Datagram) (xs rest : List ℕ)
    → 1 ≤ dt.destination_nodes_len
    → length xs ≡ dt.destination_nodes_len
    → dt.destination_nodes_len < 256
    → Segment dt.destination_nodes 0 xs
    → Emits rest (record dt {
      writer_state = state_data_len;
      destination_nodes_written = dt.destination_nodes_len;
      data_length_bytes_written = 0;
    })
    → Emits (xs ++ rest) (record dt { writer_state = state_dst; destination_nodes_written = 0 })
Emits-nodes_list dt [] rest p n small s e = absurd (omega arith)
Emits-nodes_list dt (x ∷ xs) rest p n small s e = Emits-nodes dt 0 x xs rest (omega arith) small s e

-- The bytes of each field in turn.
Emits-fields :
    (dt : Datagram) (ns bs : List ℕ)
    → IsSendable dt
    → Segment dt.destination_nodes 0 ns × (length ns ≡ dt.destination_nodes_len)
    → Segment dt.data_buffer 0 bs × (length bs ≡ dt.data_len)
    → Emits
        (u8 dt.protocol_version
          ∷ (be32 dt.crc ++ (u8 dt.destination_nodes_len ∷ (ns ++ (be32 dt.data_len ++ bs)))))
        dt
unfolding output_at
Emits-fields dt ns bs s (nodes, n) (bytes, k) =
    let crc_next : Datagram = record dt { writer_state = state_crc; crc_bytes_written = 0 } in
    let crc_done : Datagram = record dt { writer_state = state_dst_len; crc_bytes_written = 4 } in
    let listing : Datagram = record crc_done {
      writer_state = state_dst;
      destination_nodes_written = 0;
    } in
    let listed : Datagram = record crc_done {
      writer_state = state_data_len;
      destination_nodes_written = dt.destination_nodes_len;
      data_length_bytes_written = 0;
    } in
    let sized : Datagram = record listed {
      writer_state = state_data;
      data_length_bytes_written = 4;
      data_bytes_written = 0;
    } in
    (
      crc_next,
      rw (s.fresh, output_at),
      Emits-crc dt (u8 dt.destination_nodes_len ∷ (ns ++ (be32 dt.data_len ++ bs))) (
        listing,
        refl,
        Emits-nodes_list crc_done ns (be32 dt.data_len ++ bs) s.some_node n s.nodes_byte nodes
            (Emits-data_len listed bs (Emits-data sized 0 bs (omega arith) s.data_word bytes)),
      ),
    )

encode-fields :
    (dt : Datagram) (m : Message)
    → IsSendable dt
    → dt.protocol_version ≡ m.version
    → dt.crc ≡ m.checksum
    → length m.nodes ≡ dt.destination_nodes_len
    → length m.bytes ≡ dt.data_len
    → encode m
      ≡ u8 dt.protocol_version
        ∷ (be32 dt.crc
            ++ (u8 dt.destination_nodes_len ∷ (m.nodes ++ (be32 dt.data_len ++ m.bytes))))
unfolding encode
encode-fields dt m s v c n k = ground arith

pub Emits-encode :
    (dt : Datagram) (m : Message) → message_of dt ≡ some m → IsSendable dt → Emits (encode m) dt
Emits-encode dt m h s =
    let (nodes, bytes, version, crc) = message_of-fields dt m h in
    let ns = load-Segment dt.destination_nodes m.nodes dt.destination_nodes_len nodes in
    let bs = load-Segment dt.data_buffer m.bytes dt.data_len bytes in
    rw (encode-fields dt m s version crc ns.1 bs.1) (Emits-fields dt m.nodes m.bytes s ns bs)

-- A datagram that holds a message and was not sent yet writes, in a call with any room, the first
-- bytes of that message's encoding, as many as fit, with no access outside of its buffers.
pub output_bytes-encode :
    (dt : Datagram) (m : Message) (room : ℕ)
    → message_of dt ≡ some m
    → IsSendable dt
    → (dt' : Datagram) × (output_bytes dt room ≡ some (take room (encode m), dt'))
      × Emits (drop room (encode m)) dt'
output_bytes-encode dt m room h s = output_bytes-Emits room (encode m) dt (Emits-encode dt m h s)

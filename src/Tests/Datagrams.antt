-- ===== src/Tests/Datagrams.antt =====
-- The theorems on the datagram code at a datagram for one node.
use cvra_bootloader.Prelude.{
  ◌≡◌, ◌⊎◌, inr, refl, true, false, ◌&&◌, ◌==◌, [], ◌∷◌, ◌++◌, none, some, arith, take, drop,
}
use cvra_bootloader.Prelude.Words.{be32}
use cvra_bootloader.Datagram.{
  Datagram, state_protocol_version, state_data, start, input_byte, input_bytes, is_complete,
  is_valid, output_bytes, can_datagram_version,
}
use cvra_bootloader.Datagram.Wire.{Message, encode, HasHeader, message_crc, message_of}
use cvra_bootloader.Datagram.Reader.Accept.{accepts_exactly}
use cvra_bootloader.Datagram.Reader.Prefix.{prefix_incomplete}
use cvra_bootloader.Datagram.Writer.{Emits, IsSendable, output_bytes-encode}
use cvra_bootloader.Datagram.Bounds.{
  InBounds, Overflows, input_byte-InBounds, dst_overflow, IsOverAnnounced, overannounced_overread,
}
use cvra_bootloader.Tests.Toy.{toy, reader, message, message-IsWellFormed, message-Fits}

accepts_exactly_example :
    (dt' : Datagram) × (input_bytes (start reader) (encode message ++ (9 ∷ [])) ≡ some dt')
    × (message_of dt' ≡ some message)
    × (is_valid toy.crc32 dt'
        ≡ some (
            message_crc toy.crc32 message == message.checksum
            && message.version == can_datagram_version))
accepts_exactly_example =
    accepts_exactly toy.crc32 reader message (9 ∷ []) message-IsWellFormed message-Fits

prefix_incomplete_example :
    (dt' : Datagram) × (input_bytes
        (start reader)
        (1 ∷ 0 ∷ 0 ∷ 0 ∷ 17 ∷ 1 ∷ 5 ∷ 0 ∷ 0 ∷ 0 ∷ 3 ∷ 3 ∷ 5 ∷ [])
      ≡ some dt')
    × (is_complete dt' ≡ false)
unfolding encode
prefix_incomplete_example =
    prefix_incomplete reader message (1 ∷ 0 ∷ 0 ∷ 0 ∷ 17 ∷ 1 ∷ 5 ∷ 0 ∷ 0 ∷ 0 ∷ 3 ∷ 3 ∷ 5 ∷ [])
      (0 ∷ []) message-IsWellFormed message-Fits refl (omega arith)

abbrev filled : Datagram
filled = record reader {
  crc = 17;
  destination_nodes_len = 1;
  destination_nodes = 5 ∷ 0 ∷ 0 ∷ [];
  data_len = 3;
  data_buffer = 3 ∷ 5 ∷ 0 ∷ 0 ∷ [];
}

filled-message : message_of filled ≡ some message
unfolding message_of
filled-message = refl

filled-IsSendable : IsSendable filled
filled-IsSendable = record {
  fresh = refl;
  version_byte = omega arith;
  some_node = omega arith;
  nodes_byte = omega arith;
  data_word = omega arith;
}

output_bytes-encode_example :
    (dt' : Datagram) × (output_bytes filled 8 ≡ some (take 8 (encode message), dt'))
    × Emits (drop 8 (encode message)) dt'
output_bytes-encode_example = output_bytes-encode filled message 8 filled-message filled-IsSendable

reader-InBounds : InBounds reader
reader-InBounds = record {
  size_true = omega arith;
  size_word = omega arith;
  room = inr (omega arith);
}

input_byte-InBounds_example :
    (Overflows reader × (input_byte reader 1 ≡ none))
    ⊎ ((dt' : Datagram) × (input_byte reader 1 ≡ some dt') × InBounds dt')
input_byte-InBounds_example =
    input_byte-InBounds state_protocol_version reader 1 refl reader-InBounds

dst_overflow_example :
    input_bytes (start reader) (1 ∷ (be32 17 ++ (4 ∷ (5 ∷ 6 ∷ 7 ∷ 8 ∷ [])))) ≡ none
dst_overflow_example =
    dst_overflow reader 1 17 4 (5 ∷ 6 ∷ 7 ∷ 8 ∷ []) (omega arith) (omega arith) (omega arith)

abbrev no_data : Message
no_data = record message { bytes = [] }

no_data-HasHeader : HasHeader no_data
no_data-HasHeader = record {
  version_byte = omega arith;
  checksum_word = omega arith;
  some_node = omega arith;
  nodes_byte = omega arith;
  bytes_word = omega arith;
}

abbrev announced : Datagram
announced = record reader { reader_state = state_data; data_len = 9 }

announced-IsOverAnnounced : IsOverAnnounced announced
announced-IsOverAnnounced = record {
  in_data = refl;
  size_true = refl;
  announced_more = omega arith;
  announced_word = omega arith;
  room = omega arith;
}

overannounced_overread_example :
    (dt' : Datagram) × (input_bytes announced (1 ∷ 2 ∷ 3 ∷ 4 ∷ []) ≡ some dt')
    × (is_complete dt' ≡ true)
    × (is_valid toy.crc32 dt' ≡ none)
overannounced_overread_example =
    overannounced_overread toy.crc32 (1 ∷ 2 ∷ 3 ∷ 4 ∷ []) announced announced-IsOverAnnounced
      (omega arith)

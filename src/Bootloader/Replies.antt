-- ===== src/Bootloader/Replies.antt =====
-- The replies of a node against the datagram format: the frames that return_datagram sends.
use cvra_bootloader.Prelude.{
  ℕ, zero, suc, ◌+◌, ◌*◌, ◌≤◌, ◌<◌, ◌≡◌, refl, ap, ◌∙◌, ◌⊎◌, inl, inr, Bool, true, false, List, [],
  ◌∷◌, ◌++◌, some, arith, bit_or, if◌then◌else◌, length, take, drop, take-append-drop, length-take,
  length-drop, not, ◌&&◌, all_below, all_below_sound,
}
use cvra_bootloader.Prelude.Words.{be32}
use cvra_bootloader.Platform.{Platform}
use cvra_bootloader.Datagram.{
  Datagram, id_start_mask, id_start_is_set, init, set_address_buffer, set_data_buffer, compute_crc,
  can_datagram_version,
}
use cvra_bootloader.Datagram.Wire.{Message, encode, message_crc, message_of}
use cvra_bootloader.Datagram.Writer.{Emits, output_bytes-Emits, Emits-encode, IsSendable}
use cvra_bootloader.Bootloader.{Frame, send_frames, reply_datagram, return_datagram}

-- Frames of eight bytes and a rest; the first one marks the start of a datagram.
unfoldable pub fragment : ℕ → ℕ → Bool → List ℕ → List Frame
fragment zero source_id first bytes = []
fragment (suc k) source_id first [] = []
fragment (suc k) source_id first (b ∷ bs) =
    record {
      id = if first then bit_or source_id id_start_mask else source_id;
      bytes = take 8 (b ∷ bs);
    }
    ∷ fragment k source_id false (drop 8 (b ∷ bs))

-- The data of the frames put together.
abbrev pub payload : List Frame → List ℕ
payload [] = []
payload (f ∷ fs) = f.bytes ++ payload fs

-- Every frame but the last is full.
abbrev pub IsPacked : List Frame → Type 0
IsPacked [] = Unit
IsPacked (f ∷ []) = (1 ≤ length f.bytes) × (length f.bytes ≤ 8)
IsPacked (f ∷ (g ∷ fs)) = (length f.bytes ≡ 8) × IsPacked (g ∷ fs)

-- The frames have that identifier, and none marks the start of a datagram.
abbrev pub AllFrom : ℕ → List Frame → Type 0
AllFrom id [] = Unit
AllFrom id (f ∷ fs) = (f.id ≡ id) × (id_start_is_set f.id ≡ false) × AllFrom id fs

-- The first frame marks the start of a datagram, and no other does.
abbrev pub StartsOnce : ℕ → List Frame → Type 0
StartsOnce id [] = ⊥
StartsOnce id (f ∷ fs) =
    (f.id ≡ bit_or id id_start_mask) × (id_start_is_set f.id ≡ true) × AllFrom id fs

-- For an identifier of seven bits.
marks_start : ℕ → Bool
marks_start id = id_start_is_set (bit_or id id_start_mask) && not (id_start_is_set id)

marks_start_table : all_below 128 (λ id. marks_start id) ≡ true
unfolding all_below marks_start id_start_is_set
marks_start_table = refl

start_bit :
    (id : ℕ)
    → id < 128
    → (id_start_is_set (bit_or id id_start_mask) ≡ true) × (id_start_is_set id ≡ false)
start_bit id l =
    split _ _
      (unfold marks_start in all_below_sound 128 (λ id. marks_start id) id marks_start_table l)
  where
    split : (a b : Bool) → (a && not b) ≡ true → (a ≡ true) × (b ≡ false)
    split true false e = (refl, refl)
    split true true e = absurd (ground (arith, e))
    split false b e = absurd (ground (arith, e))

payload-fragment :
    (k source_id : ℕ) (first : Bool) (bytes : List ℕ)
    → length bytes ≤ 8 * k
    → payload (fragment k source_id first bytes) ≡ bytes
unfolding fragment
payload-fragment zero source_id first [] h = refl
payload-fragment zero source_id first (b ∷ bs) h = absurd (omega arith)
payload-fragment (suc k) source_id first [] h = refl
payload-fragment (suc k) source_id first (b ∷ bs) h =
    ap (◌++◌ (take 8 (b ∷ bs)))
      (payload-fragment k source_id false (drop 8 (b ∷ bs)) (omega (arith, length-drop 8 (b ∷ bs))))
    ∙ take-append-drop 8 (b ∷ bs)

AllFrom-fragment :
    (k id : ℕ) (bytes : List ℕ)
    → id_start_is_set id ≡ false
    → AllFrom id (fragment k id false bytes)
unfolding fragment
AllFrom-fragment zero id bytes e = tt
AllFrom-fragment (suc k) id [] e = tt
AllFrom-fragment (suc k) id (b ∷ bs) e = (refl, e, AllFrom-fragment k id (drop 8 (b ∷ bs)) e)

send_frames-fragment :
    (bus : ℕ → Bool) (k n source_id : ℕ) (first : Bool) (bytes : List ℕ) (dt : Datagram)
    → ((i : ℕ) → bus i ≡ true)
    → Emits bytes dt
    → send_frames bus k n source_id first dt ≡ some (fragment k source_id first bytes)
unfolding send_frames fragment
send_frames-fragment bus zero n source_id first bytes dt all e = refl
send_frames-fragment bus (suc k) n source_id first [] dt all e =
    let (dt', written, left) = output_bytes-Emits 8 [] dt e in rw (written, send_frames)
send_frames-fragment bus (suc k) n source_id first (b ∷ bs) dt all e =
    let (dt', written, left) = output_bytes-Emits 8 (b ∷ bs) dt e in
    rw (
      written,
      send_frames,
      all n,
      send_frames-fragment bus k (n + 1) source_id false (drop 8 (b ∷ bs)) dt' all left,
    )

pub fragment-nil : (k id : ℕ) (first : Bool) → fragment k id first [] ≡ []
unfolding fragment
fragment-nil zero id first = refl
fragment-nil (suc k) id first = refl

IsPacked-cons :
    (f : Frame) (fs : List Frame)
    → 1 ≤ length f.bytes
    → length f.bytes ≤ 8
    → (fs ≡ []) ⊎ (length f.bytes ≡ 8)
    → IsPacked fs
    → IsPacked (f ∷ fs)
IsPacked-cons f [] h h' full r = (h, h')
IsPacked-cons f (g ∷ fs) h h' (inl none_left) r = absurd (ground arith)
IsPacked-cons f (g ∷ fs) h h' (inr full) r = (full, r)

IsPacked-fragment :
    (k id : ℕ) (first : Bool) (bytes : List ℕ) → IsPacked (fragment k id first bytes)
unfolding fragment
IsPacked-fragment zero id first bytes = tt
IsPacked-fragment (suc k) id first [] = tt
IsPacked-fragment (suc k) id first (b ∷ bs) =
    IsPacked-cons
      (record { id = if first then bit_or id id_start_mask else id; bytes = take 8 (b ∷ bs) })
      (fragment k id false (drop 8 (b ∷ bs))) (omega (arith, length-take 8 (b ∷ bs)))
      (omega (arith, length-take 8 (b ∷ bs))) (full (drop 8 (b ∷ bs)) refl)
      (IsPacked-fragment k id false (drop 8 (b ∷ bs)))
  where
    full :
        (rest : List ℕ)
        → drop 8 (b ∷ bs) ≡ rest
        → (fragment k id false (drop 8 (b ∷ bs)) ≡ []) ⊎ (length (take 8 (b ∷ bs)) ≡ 8)
    full [] e = inl (rw e (fragment-nil k id false))
    full (c ∷ cs) e =
        inr (omega (arith, ap length e, length-drop 8 (b ∷ bs), length-take 8 (b ∷ bs)))

-- What a reply says: to one node, under the checksum of its content.
unfoldable pub reply_message : (ℕ → List ℕ → ℕ) → ℕ → List ℕ → Message
reply_message crc32 dest_id bytes = record {
  version = can_datagram_version;
  checksum = crc32 (crc32 (crc32 (crc32 0 (1 ∷ [])) (dest_id ∷ [])) (be32 (length bytes))) bytes;
  nodes = dest_id ∷ [];
  bytes = bytes;
}

-- Its checksum is the one that the reader of a datagram computes.
reply_message_checksum :
    (crc32 : ℕ → List ℕ → ℕ) (dest_id : ℕ) (bytes : List ℕ)
    → message_crc crc32 (reply_message crc32 dest_id bytes)
      ≡ (reply_message crc32 dest_id bytes).checksum
unfolding reply_message message_crc
reply_message_checksum crc32 dest_id bytes = refl

length-encode_reply :
    (crc32 : ℕ → List ℕ → ℕ) (dest_id : ℕ) (bytes : List ℕ)
    → length (encode (reply_message crc32 dest_id bytes)) ≡ length bytes + 11
unfolding reply_message encode
length-encode_reply crc32 dest_id bytes = omega arith

reply_datagram-message :
    (p : Platform) (dest_id : ℕ) (bytes : List ℕ) (len : ℕ)
    → len ≤ length bytes
    → len < 800
    → (dt : Datagram) × (reply_datagram p dest_id bytes len ≡ some dt)
      × (message_of dt ≡ some (reply_message p.crc32 dest_id (take len bytes)))
      × IsSendable dt
unfolding reply_datagram compute_crc init set_address_buffer set_data_buffer message_of
    reply_message
reply_datagram-message p dest_id bytes len fits small =
    let filled : Datagram =
      record (set_data_buffer (set_address_buffer init (dest_id ∷ [])) bytes len) {
        crc = (reply_message p.crc32 dest_id (take len bytes)).checksum;
        destination_nodes_len = 1;
        data_len = len;
      } in
    (
      filled,
      ground (arith, length-take len bytes),
      ground (arith, length-take len bytes),
      ground arith,
    )

StartsOnce-fragment :
    (k id b : ℕ) (bs : List ℕ) → id < 128 → StartsOnce id (fragment (suc k) id true (b ∷ bs))
unfolding fragment
StartsOnce-fragment k id b bs l =
    (refl, (start_bit id l).0, AllFrom-fragment k id (drop 8 (b ∷ bs)) (start_bit id l).1)

StartsOnce-encode :
    (id : ℕ) (m : Message) → id < 128 → StartsOnce id (fragment 100 id true (encode m))
unfolding encode
StartsOnce-encode id m l = StartsOnce-fragment 99 id m.version _ l

-- A reply of at most 255 bytes of a buffer that has them, over a bus that takes every frame: its frames
-- put together are the encoding of the message to that node.
pub return_datagram_frames :
    (p : Platform) (bus : ℕ → Bool) (source_id dest_id : ℕ) (bytes : List ℕ) (len : ℕ)
    → ((i : ℕ) → bus i ≡ true)
    → len ≤ 255
    → len ≤ length bytes
    → let m = reply_message p.crc32 dest_id (take len bytes) in
      (return_datagram p bus source_id dest_id bytes len
        ≡ some (fragment 100 source_id true (encode m)))
      × (payload (fragment 100 source_id true (encode m)) ≡ encode m)
unfolding return_datagram
return_datagram_frames p bus source_id dest_id bytes len all small fits =
    let m = reply_message p.crc32 dest_id (take len bytes) in
    let (dt, filled, holds, sendable) =
      reply_datagram-message p dest_id bytes len fits (omega arith) in
    (
      rw (filled, return_datagram)
          (send_frames-fragment bus 100 0 source_id true (encode m) dt all
            (Emits-encode dt m holds sendable)),
      payload-fragment 100 source_id true (encode m) (
          omega
            (arith, length-encode_reply p.crc32 dest_id (take len bytes), length-take len bytes)),
    )

-- A reply of at most 255 bytes of a buffer that has them, from a node with an identifier of seven bits,
-- as the protocol has them, and over a bus that takes every frame, is sent whole: its frames put
-- together are the encoding of the message to that node, with the version and the checksum that a
-- receiver computes; all frames but the last have eight bytes; and the first one alone is marked as
-- the start of a datagram, while all have the node's identifier but for that mark.
pub return_datagram_lem :
    (p : Platform) (bus : ℕ → Bool) (source_id dest_id : ℕ) (bytes : List ℕ) (len : ℕ)
    → ((i : ℕ) → bus i ≡ true)
    → source_id < 128
    → len ≤ 255
    → len ≤ length bytes
    → let m = reply_message p.crc32 dest_id (take len bytes) in
      (frames : List Frame) × (return_datagram p bus source_id dest_id bytes len ≡ some frames)
      × (payload frames ≡ encode m)
      × (message_crc p.crc32 m ≡ m.checksum)
      × IsPacked frames
      × StartsOnce source_id frames
return_datagram_lem p bus source_id dest_id bytes len all seven_bits small fits =
    let m = reply_message p.crc32 dest_id (take len bytes) in
    let (sent, carried) = return_datagram_frames p bus source_id dest_id bytes len all small fits in
    (
      fragment 100 source_id true (encode m),
      sent,
      carried,
      reply_message_checksum p.crc32 dest_id (take len bytes),
      IsPacked-fragment 100 source_id true (encode m),
      StartsOnce-encode source_id m seven_bits,
    )

-- ===== src/Bootloader/Loop/Delivery.antt =====
-- From the frames of a datagram to its command: what the rounds of the main loop come to.
use cvra_bootloader.Prelude.{
  ℕ, zero, suc, ◌+◌, ◌*◌, ◌≤◌, ◌<◌, ◌≡◌, ◌⊎◌, refl, sym, ◌∙◌, Bool, true, false, ◌&&◌, not, List,
  [], ◌∷◌, ◌++◌, some, arith, bit_or, if◌then◌else◌, length, take, drop, take-append-drop,
  length-take, length-drop, inl, inr, length-append, all_below, all_below_sound,
}
use cvra_bootloader.Prelude.Words.{be32}
use cvra_bootloader.Platform.{Platform}
use cvra_bootloader.Datagram.{
  Datagram, id_start_mask, id_start_is_set, is_valid, can_datagram_version,
}
use cvra_bootloader.Datagram.Wire.{Message, encode, IsWellFormed, Fits, message_crc, take-overwrite}
use cvra_bootloader.Datagram.Reader.Accept.{received, is_valid-received}
use cvra_bootloader.Datagram.Reader.Prefix.{prefix_incomplete}
use cvra_bootloader.Timer.{Timer, datagram_timeout_reset}
use cvra_bootloader.Command.Dispatch.{execute_datagram_commands}
use cvra_bootloader.Bootloader.{Frame, Board, Node, success, error_unspecified}
use cvra_bootloader.Bootloader.Replies.{fragment}
use cvra_bootloader.Bootloader.Loop.{
  Inputs, running, is_for, is_addressed, on_end, on_valid, after_command, restarted, round, rounds,
}
use cvra_bootloader.Bootloader.Loop.Rounds.{
  Delivers, round-frame, on_frame-first, rounds-next, deliver_rest,
}

abbrev starts_apart : ℕ → Bool
starts_apart id = not (id_start_is_set id) && id_start_is_set (bit_or id id_start_mask)

starts_apart_table : all_below 128 (λ id. starts_apart id) ≡ true
unfolding all_below id_start_is_set
starts_apart_table = refl

-- Bit 7 of an identifier below 128 is clear, and `|` sets it.
pub start_bit :
    (id : ℕ)
    → id < 128
    → (id_start_is_set id ≡ false) × (id_start_is_set (bit_or id id_start_mask) ≡ true)
start_bit id h =
    let both : starts_apart id ≡ true =
      all_below_sound 128 (λ id. starts_apart id) id starts_apart_table h in
    ground arith

zero_start : bit_or 0 id_start_mask ≡ id_start_mask
zero_start = refl

is_for-start :
    (own id : ℕ)
    → (id ≡ 0) ⊎ (id ≡ own)
    → (is_for own id ≡ true) × (is_for own (bit_or id id_start_mask) ≡ true)
unfolding is_for
is_for-start own id (inl e) = ground (arith, zero_start)
is_for-start own id (inr e) = ground arith

length-encode : (m : Message) → length (encode m) ≡ length m.nodes + length m.bytes + 10
unfolding encode
length-encode m = omega (arith, length-append m.nodes (be32 (length m.bytes) ++ m.bytes))

module _ (p : Platform) (board : Board) where
  -- The node when a valid datagram is in.
  abbrev pub delivered : Node p → Message → Timer → Node p
  delivered s m t = record s {
    dt = received s.dt m;
    timer = t;
    datagram_timeout_running = false;
    status = success;
  }

  on_valid-received :
      (s : Node p) (m : Message) (i : Inputs) (id : ℕ) (t : Timer) (dt : Datagram)
      → Fits m dt
      → on_valid p board i id (record s {
        dt = received dt m;
        timer = t;
        datagram_timeout_running = true;
        status = error_unspecified;
      })
        ≡ (if is_addressed m.nodes s.config.id
            then after_command p board i.bus id
                (record s {
                  dt = received dt m;
                  timer = t;
                  datagram_timeout_running = false;
                  status = success;
                  bootloader_timeout_enabled = false;
                })
                (execute_datagram_commands p
                  (received dt m).data_buffer
                  (length m.bytes)
                  s.output_buf
                  board.output_buffer_size
                  s.config
                  s.flash
                  success
                  i.locals)
            else running (
                restarted p board (record s {
                  dt = received dt m;
                  timer = t;
                  datagram_timeout_running = false;
                  status = success;
                })))
  unfolding on_valid
  on_valid-received s m i id t dt f = rw (take-overwrite dt.destination_nodes m.nodes f.nodes_fit)

  on_end-valid :
      (s : Node p) (i : Inputs) (id : ℕ)
      → is_valid p.crc32 s.dt ≡ some true
      → on_end p board i id s ≡ on_valid p board i id s
  unfolding on_end
  on_end-valid s i id e = rw (e, on_end)

  -- The rounds up to the end of the datagram.
  arrive :
      (k id : ℕ) (bytes : List ℕ) (ins : List Inputs) (s : Node p) (m : Message)
      → IsWellFormed m
      → Fits m s.dt
      → (is_for s.config.id id ≡ true) × (is_for s.config.id (bit_or id id_start_mask) ≡ true)
      → id < 128
      → encode m ≡ bytes
      → 9 ≤ length bytes
      → length bytes ≤ 8 * k
      → Delivers s.timer (fragment k id true bytes) ins
      → (i : Inputs) × (t : Timer) × (rounds p board ins s
          ≡ on_end p board i id (record s {
            dt = received s.dt m;
            timer = t;
            datagram_timeout_running = true;
            status = error_unspecified;
          }))
  unfolding fragment
  arrive zero id bytes ins s m w f own small e long h d = absurd (omega arith)
  arrive (suc k) id [] ins s m w f own small e long h d = absurd (omega arith)
  arrive (suc k) id (b ∷ bs) [] s m w f own small e long h d = absurd d
  arrive (suc k) id (b ∷ bs) (i ∷ is) s m w f own small e long h (fr, bt, dgt, d) =
      let head = take 8 (b ∷ bs) in
      let rest = drop 8 (b ∷ bs) in
      let frame : Frame = record { id = bit_or id id_start_mask; bytes = head } in
      let e' : encode m ≡ head ++ rest = e ∙ sym (take-append-drop 8 (b ∷ bs)) in
      let some_left : 1 ≤ length rest = omega (arith, length-drop 8 (b ∷ bs)) in
      let (dt', taken, incomplete) = prefix_incomplete s.dt m head rest w f e' some_left in
      let s' : Node p = record s {
        dt = dt';
        timer = datagram_timeout_reset s.timer i.time_frame;
        datagram_timeout_running = true;
        status = error_unspecified;
      } in
      let one : round p board i s ≡ running s' =
        round-frame p board i frame s fr bt dgt
        ∙ on_frame-first p board i frame s dt' own.1 (start_bit id small).1 taken incomplete
            (omega (arith, length-take 8 (b ∷ bs))) in
      let (i', t, tail) =
        deliver_rest p board k id rest is s' s.dt m head w f own.0 (start_bit id small).0 e' taken
          some_left (omega (arith, length-drop 8 (b ∷ bs))) d in
      (i', t, rounds-next p board i is s s' one ∙ tail)

  -- The frames of a well-formed message with the right version and checksum, from eight-byte
  -- fragments that bear the node's identifier or the broadcast one, without a timeout meanwhile and
  -- without an access outside of a buffer, lead the node to run the message's bytes as a command if
  -- it is among the destinations, with the bootloader timeout disabled, and else to wait for the next
  -- datagram with everything but its reader, its timer and its status as before.
  pub deliver :
      (s : Node p) (id k : ℕ) (m : Message) (ins : List Inputs)
      → IsWellFormed m
      → Fits m s.dt
      → message_crc p.crc32 m ≡ m.checksum
      → m.version ≡ can_datagram_version
      → (id ≡ 0) ⊎ (id ≡ s.config.id)
      → id < 128
      → length (encode m) ≤ 8 * k
      → Delivers s.timer (fragment k id true (encode m)) ins
      → (i : Inputs) × (t : Timer) × (take (length m.bytes) (received s.dt m).data_buffer ≡ m.bytes)
        × (rounds p board ins s ≡ (
            if is_addressed m.nodes s.config.id
            then after_command p board i.bus id
                (record (delivered s m t) { bootloader_timeout_enabled = false })
                (execute_datagram_commands p
                  (received s.dt m).data_buffer
                  (length m.bytes)
                  s.output_buf
                  board.output_buffer_size
                  s.config
                  s.flash
                  success
                  i.locals)
            else running (restarted p board (delivered s m t))))
  deliver s id k m ins w f sum version own small room d =
      let (i, t, arrived) =
        arrive k id (encode m) ins s m w f (is_for-start s.config.id id own) small refl
          (omega (arith, length-encode m, w.some_node, w.some_byte)) room d in
      let ended : Node p = record s {
        dt = received s.dt m;
        timer = t;
        datagram_timeout_running = true;
        status = error_unspecified;
      } in
      let good : is_valid p.crc32 (received s.dt m) ≡ some true =
        is_valid-received p.crc32 s.dt m w f ∙ ground arith in
      (
        i,
        t,
        take-overwrite s.dt.data_buffer m.bytes f.bytes_fit,
        arrived ∙ on_end-valid ended i id good ∙ on_valid-received s m i id t s.dt f,
      )

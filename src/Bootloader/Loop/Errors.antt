-- ===== src/Bootloader/Loop/Errors.antt =====
-- The length of a reply in the main loop of bootloader.c, which is an `int` that the loop takes into
-- a `uint8_t`.
use cvra_bootloader.Prelude.{
  ℕ, ◌-◌, ◌%◌, ◌<◌, ◌≤◌, ◌≡◌, ◌∙◌, refl, length, take, Bool, true, false, List, ◌++◌, ◌∷◌, none,
  some, arith, ◌==◌, reverse,
}
use cvra_bootloader.Prelude.Words.{u8}
use cvra_bootloader.Prelude.Int.{pos, neg}
use cvra_bootloader.Platform.{Platform}
use cvra_bootloader.Command.{Call, Locals, or_kept}
use cvra_bootloader.Command.Dispatch.{
  finished, execute_datagram_commands, execute_call, get_command_by_index, command_set_version,
  err_invalid_command, err_command_not_found, err_invalid_command_set_version,
}
use cvra_bootloader.Datagram.{start}
use cvra_bootloader.Datagram.Wire.{encode}
use cvra_bootloader.Bootloader.Replies.{fragment, payload, reply_message, return_datagram_frames}
use cvra_bootloader.Bootloader.{Frame, Board, Node, return_datagram, without_start, success}
use cvra_bootloader.Bootloader.Loop.{Round, running, restart, answer, after_command}

module _ (p : Platform) (board : Board) where
  -- The first `n` bytes of the output buffer go out as a reply that reports success.
  abbrev replied : (ℕ → Bool) → ℕ → Node p → ℕ → Round p
  replied bus id s n =
      restart p board
        (elim (return_datagram p bus s.config.id (u8 (without_start id)) s.output_buf n) [
          | none ↦ none
          | some frames ↦ some (record s {
            sent = reverse frames ++ s.sent;
            status = success;
            leds = board.led_success ∷ s.leds;
          })
        ])

  -- What the handler changed.
  abbrev taken_over : Node p → Call p → Node p
  taken_over s c = record s { config = c.config; flash = c.flash; output_buf = p.memory c.out }

  -- A reply of `n` bytes, with `n` no multiple of 256, is sent cut to its first `n % 256` bytes and
  -- with success; so it is sent whole when it is of 1 to 255 bytes.
  reply_length_is_cut :
      (bus : ℕ → Bool) (id n : ℕ) (s : Node p) (c : Call p)
      → 0 < n % 256
      → after_command p board bus id s (finished (pos n) c)
        ≡ replied bus id (taken_over s c) (n % 256)
  unfolding after_command answer
  reply_length_is_cut bus id n s c h = ground arith

  -- The version, the index and the command of a datagram's data that the interpreter refuses, and
  -- the error code.
  pub data Rejected (bytes : List ℕ) (data_len : ℕ) (locals : Locals) : ℕ → Type 0 where
    bad_version :
        (or_kept (p.read_int (p.ro_init bytes data_len)).0 locals.number == command_set_version)
          ≡ false
        → Rejected bytes data_len locals err_invalid_command_set_version
    bad_index :
        (or_kept (p.read_int (p.ro_init bytes data_len)).0 locals.number == command_set_version)
          ≡ true
        → (p.read_int (p.read_int (p.ro_init bytes data_len)).1).0 ≡ none
        → Rejected bytes data_len locals err_invalid_command
    not_found :
        (i : ℕ)
        → (or_kept (p.read_int (p.ro_init bytes data_len)).0 locals.number == command_set_version)
          ≡ true
        → (p.read_int (p.read_int (p.ro_init bytes data_len)).1).0 ≡ some i
        → get_command_by_index (u8 i) ≡ none
        → Rejected bytes data_len locals err_command_not_found

  Rejected-code :
      (bytes : List ℕ) (data_len e : ℕ) (locals : Locals) (s : Node p)
      → Rejected bytes data_len locals e
      → (execute_datagram_commands p bytes data_len s.output_buf board.output_buffer_size s.config
          s.flash s.status locals)
        ≡ finished (neg e) (record {
          args = p.ro_init bytes data_len;
          out = p.init s.output_buf board.output_buffer_size;
          config = s.config;
          flash = s.flash;
          status = s.status;
        })
  unfolding execute_datagram_commands execute_call
  Rejected-code bytes data_len e locals s (bad_version v) = rw (v, execute_call) refl
  Rejected-code bytes data_len e locals s (bad_index v i) = rw (v, i) refl
  Rejected-code bytes data_len e locals s (not_found i v ix n) = rw (v, ix, n) refl

  Rejected-replied :
      (bus : ℕ → Bool) (id : ℕ) (bytes : List ℕ) (data_len e : ℕ) (locals : Locals) (s : Node p)
      → Rejected bytes data_len locals e
      → after_command p board bus id s (
          execute_datagram_commands p bytes data_len s.output_buf board.output_buffer_size s.config
            s.flash s.status locals)
        ≡ replied bus id
            (record s { output_buf = p.memory (p.init s.output_buf board.output_buffer_size) })
            (256 - e)
  unfolding after_command answer
  Rejected-replied bus id bytes data_len e locals s r =
      rw (Rejected-code bytes data_len e locals s r) (code_cases e r)
    where
      code_cases :
          (e : ℕ)
          → Rejected bytes data_len locals e
          → after_command p board bus id s (
              finished (neg e) (record {
                args = p.ro_init bytes data_len;
                out = p.init s.output_buf board.output_buffer_size;
                config = s.config;
                flash = s.flash;
                status = s.status;
              }))
            ≡ replied bus id
                (record s { output_buf = p.memory (p.init s.output_buf board.output_buffer_size) })
                (256 - e)
      code_cases e (bad_version v) = refl
      code_cases e (bad_index v i) = refl
      code_cases e (not_found i v ix n) = refl

  Rejected-nonzero :
      (bytes : List ℕ) (data_len e : ℕ) (locals : Locals) → Rejected bytes data_len locals e → 0 < e
  Rejected-nonzero bytes data_len e locals (bad_version v) = omega arith
  Rejected-nonzero bytes data_len e locals (bad_index v i) = omega arith
  Rejected-nonzero bytes data_len e locals (not_found i v ix n) = omega arith

  -- The node behind a reply that reports success.
  abbrev pub answered : Node p → List ℕ → List Frame → Node p
  answered s output_buf frames = record s {
    dt = start s.dt;
    datagram_timeout_running = false;
    output_buf = output_buf;
    sent = reverse frames ++ s.sent;
    status = success;
    leds = board.led_success ∷ s.leds;
  }

  -- A datagram that the node takes and whose command is refused, for its version, its index or since
  -- there is no such command, is answered with success: the frames that go out carry the encoding of a
  -- message with the first 251, 253 or 252 bytes that the output buffer happens to hold, and the node
  -- takes up the next round. The loop's error branch is not taken, nor is a wrong version ignored. The
  -- conditions: the output buffer has that many bytes, and the bus takes every frame.
  pub error_codes_as_success :
      (bus : ℕ → Bool) (id : ℕ) (bytes : List ℕ) (data_len e : ℕ) (locals : Locals) (s : Node p)
      → Rejected bytes data_len locals e
      → ((i : ℕ) → bus i ≡ true)
      → 256 - e ≤ length (p.memory (p.init s.output_buf board.output_buffer_size))
      → let old = p.memory (p.init s.output_buf board.output_buffer_size) in
        (frames : List Frame) × (after_command p board bus id s (
            execute_datagram_commands p bytes data_len s.output_buf board.output_buffer_size
              s.config s.flash s.status locals)
          ≡ running (answered s old frames))
        × (payload frames
            ≡ encode (reply_message p.crc32 (u8 (without_start id)) (take (256 - e) old)))
  error_codes_as_success bus id bytes data_len e locals s r all room =
      let old = p.memory (p.init s.output_buf board.output_buffer_size) in
      let dest = u8 (without_start id) in
      let m = reply_message p.crc32 dest (take (256 - e) old) in
      let (sent, carried) =
        return_datagram_frames p bus s.config.id dest old (256 - e) all
          (omega (arith, Rejected-nonzero bytes data_len e locals r)) room in
      (
        fragment 100 s.config.id true (encode m),
        Rejected-replied bus id bytes data_len e locals s r ∙ rw sent refl,
        carried,
      )

-- ===== src/Bootloader/Loop.antt =====
-- bootloader_main of bootloader.c: the start, and one round of the main loop.
pub mod Rounds
pub mod Delivery
pub mod Errors
pub mod Safety
pub mod Start
pub mod Invariant
pub mod Buffers
pub mod Recovery
use cvra_bootloader.Prelude.{
  ℕ, zero, suc, ◌+◌, ◌-◌, Bool, true, false, not, ◌&&◌, ◌||◌, List, [], ◌∷◌, ◌++◌, Option, none,
  some, bit_or, bit_and, ◌==◌, ltb, leb, if◌then◌else◌, length, take, reverse, drop, replicate,
}
use cvra_bootloader.Prelude.Words.{u8}
use cvra_bootloader.Prelude.Int.{to_u8}
use cvra_bootloader.Platform.{Platform, read_bytes}
use cvra_bootloader.Config.{Config, config_is_valid, config_read}
use cvra_bootloader.Datagram.{
  Datagram, id_start_mask, id_start_is_set, input_bytes, is_complete, is_valid,
}
use cvra_bootloader.Datagram
use cvra_bootloader.Timer.{
  Timer, bootloader_timeout_start, bootloader_timeout_reached, datagram_timeout_reset,
  datagram_timeout_reached,
}
use cvra_bootloader.Command.{Call, Locals}
use cvra_bootloader.Command.Settings.{boot_arg_start_bootloader_no_timeout, jump_argument}
use cvra_bootloader.Command.Dispatch.{Executed, finished, reset, broken, execute_datagram_commands}
use cvra_bootloader.Bootloader.{
  Frame, Board, Node, error_unspecified, success, error_corrupt_datagram, error_datagram_timeout,
  without_start, return_datagram, return_error_datagram,
}

-- What a round reads from outside: the counter at its three reads, the frame that
-- can_interface_read_message gives, which frames of a reply the bus takes, and what uninitialised
-- variables of a handler hold.
pub record Inputs : Type 0 where
  pub time_bootloader : ℕ
  pub time_datagram : ℕ
  pub time_frame : ℕ
  pub frame : Option Frame
  pub bus : ℕ → Bool
  pub locals : Locals

-- A round ends in the next one, in a reset with a boot argument, or in an access outside of a buffer.
pub data Round (p : Platform) : Type 0 where
  running : Node p → Round p
  jumped : ℕ → Node p → Round p
  stray : Round p

-- `for (i = 0; i < dt.destination_nodes_len; i++)`, on the addresses.
unfoldable pub is_addressed : List ℕ → ℕ → Bool
is_addressed [] id = false
is_addressed (n ∷ ns) id = if n == id then true else is_addressed ns id

-- The four identifiers that the node listens to.
unfoldable pub is_for : ℕ → ℕ → Bool
is_for own id = id == id_start_mask || id == 0 || id == bit_or own id_start_mask || id == own

module _ (p : Platform) (board : Board) where
  -- The configuration at the start. `config` and `key` are what the uninitialised variables hold.
  unfoldable pub load_config : p.Flash → Config → List ℕ → Option Config
  load_config flash config key =
      let page1 = read_bytes (p.byte_at flash) p.config1_addr p.config_page_size in
      let page2 = read_bytes (p.byte_at flash) p.config2_addr p.config_page_size in
      let from1 = config_read p config key page1 p.config_page_size in
      let from2 = config_read p config key page2 p.config_page_size in
      if config_is_valid p flash p.config1_addr p.config_page_size
      then from1
      else if config_is_valid p flash p.config2_addr p.config_page_size
      then from2
      else some (record config {
        device_class = board.platform_device_class;
        board_name = board.platform_default_name;
        id = board.platform_default_id;
        application_crc = 0xDEADC0DE;
        application_size = 0;
        update_count = 1;
      })

  -- From the start of `bootloader_main` to its loop, without BOOTLOADER_TIMEOUT_DISABLE. The
  -- buffers are of the sizes that C declares, and hold anything.
  unfoldable pub boot :
      ℕ → p.Flash → Timer → ℕ → ℕ → List ℕ → List ℕ → List ℕ → Config → List ℕ → Option (Node p)
  unfolding load_config
  boot arg flash timer time_ms status addr_buf data_buf output_buf config key =
      elim (load_config flash config key) [
        | none ↦ none
        | some loaded ↦
            let dt =
              Datagram.set_data_buffer (Datagram.set_address_buffer Datagram.init addr_buf) data_buf
                board.input_buffer_size in
            some (record {
              config = record loaded {
                bootloader_commit = board.bootloader_commit;
                bootloader_version = board.bootloader_version;
              };
              dt = Datagram.start dt;
              output_buf = output_buf;
              bootloader_timeout_enabled = not (arg == boot_arg_start_bootloader_no_timeout);
              datagram_timeout_running = false;
              flash = flash;
              status = status;
              timer = bootloader_timeout_start timer time_ms;
              sent = [];
              leds =
                  if arg == boot_arg_start_bootloader_no_timeout then board.led_error ∷ [] else [];
            })
      ]

  -- return_error_datagram, `set_status` and the error LED.
  unfoldable pub complain : (ℕ → Bool) → Node p → ℕ → ℕ → Option (Node p)
  complain bus s code status =
      elim (return_error_datagram p bus s.config.id s.output_buf board.output_buffer_size code) [
        | none ↦ none
        | some (frames, output_buf) ↦ some (record s {
          output_buf = output_buf;
          sent = reverse frames ++ s.sent;
          status = status;
          leds = board.led_error ∷ s.leds;
        })
      ]

  -- can_datagram_start and the end of the datagram timeout.
  abbrev pub restarted : Node p → Node p
  restarted s = record s { dt = Datagram.start s.dt; datagram_timeout_running = false }

  abbrev pub restart : Option (Node p) → Round p
  restart none = stray
  restart (some s) = running (restarted s)

  -- The reply, where `ret` is what execute_datagram_commands returned.
  unfoldable pub answer : (ℕ → Bool) → ℕ → ℕ → Node p → Option (Node p)
  answer bus id reply_length s =
      if ltb 0 reply_length
      then elim (return_datagram p bus s.config.id (u8 (without_start id)) s.output_buf
          reply_length) [
            | none ↦ none
            | some frames ↦ some (record s {
              sent = reverse frames ++ s.sent;
              status = success;
              leds = board.led_success ∷ s.leds;
            })
          ]
      else complain bus s (u8 (256 - reply_length)) (u8 (256 - reply_length))

  -- A handler resets, or its effects are taken over and the reply is sent.
  unfoldable pub after_command : (ℕ → Bool) → ℕ → Node p → Executed p → Round p
  after_command bus id s (finished ret c) = restart (
      answer bus id (to_u8 ret)
        (record s { config = c.config; flash = c.flash; output_buf = p.memory c.out }))
  after_command bus id s (reset arg c) =
      jumped arg (record s { flash = c.flash; config = c.config })
  after_command bus id s broken = stray

  unfoldable pub on_valid : Inputs → ℕ → Node p → Round p
  on_valid i id s =
      let s = record s { datagram_timeout_running = false; status = success } in
      let dt = s.dt in
      let executed =
        execute_datagram_commands p dt.data_buffer dt.data_len s.output_buf board.output_buffer_size
          s.config s.flash s.status i.locals in
      if is_addressed (take dt.destination_nodes_len dt.destination_nodes) s.config.id
      then after_command i.bus id (record s { bootloader_timeout_enabled = false }) executed
      else running (restarted s)

  unfoldable pub on_end : Inputs → ℕ → Node p → Round p
  on_end i id s = elim (is_valid p.crc32 s.dt) [
    | none ↦ stray
    | some true ↦ on_valid i id s
    | some false ↦ restart (complain i.bus s error_corrupt_datagram error_corrupt_datagram)
  ]

  unfoldable pub begin_frame : Inputs → Frame → Node p → Node p
  begin_frame i f s =
      let s = record s { timer = datagram_timeout_reset s.timer i.time_frame } in
      if id_start_is_set f.id
      then record s {
        dt = Datagram.start s.dt;
        datagram_timeout_running = true;
        status = error_unspecified;
      }
      else s

  unfoldable pub on_frame : Inputs → Frame → Node p → Round p
  on_frame i f s =
      let s' = begin_frame i f s in
      if is_for s.config.id f.id
      then elim (input_bytes s'.dt f.bytes) [
        | none ↦ stray
        | some dt ↦
            let s'' = record s' { dt = dt } in
            if is_complete dt || ltb (length f.bytes) 8 then on_end i f.id s'' else running s''
      ]
      else running s

  -- The datagram timeout.
  unfoldable pub on_datagram_timeout : Inputs → Node p → Option (Node p)
  on_datagram_timeout i s =
      if s.datagram_timeout_running && datagram_timeout_reached s.timer i.time_datagram
      then elim (complain i.bus s error_datagram_timeout error_datagram_timeout) [
        | none ↦ none
        | some s' ↦ some (restarted s')
      ]
      else some s

  -- The body of `while (true)`.
  unfoldable pub round : Inputs → Node p → Round p
  round i s =
      if s.bootloader_timeout_enabled && bootloader_timeout_reached s.timer i.time_bootloader
      then jumped (jump_argument p s.config s.flash) s
      else elim (on_datagram_timeout i s) [
        | none ↦ stray
        | some s' ↦ elim i.frame [ none ↦ running s' | some f ↦ on_frame i f s' ]
      ]

  -- The loop, for as many rounds as there are inputs.
  unfoldable pub rounds : List Inputs → Node p → Round p
  rounds [] s = running s
  rounds (i ∷ is) s = elim (round i s) [
    | running s' ↦ rounds is s'
    | jumped arg s' ↦ jumped arg s'
    | stray ↦ stray
  ]

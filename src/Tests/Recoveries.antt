-- ===== src/Tests/Recoveries.antt =====
-- The theorems on the buffers and the recovery of the main loop at concrete inputs.
use cvra_bootloader.Prelude.{
  ◌≡◌, refl, inr, true, false, List, [], ◌∷◌, ◌++◌, some, arith, take, if◌then◌else◌,
}
use cvra_bootloader.Timer.{
  Timer, bootloader_timeout_reached, datagram_timeout_reached, datagram_timeout_reset,
  bootloader_timeout_start,
}
use cvra_bootloader.Datagram
use cvra_bootloader.Datagram.{Datagram, state_data_len}
use cvra_bootloader.Datagram.Wire.{encode}
use cvra_bootloader.Datagram.Reader.Accept.{received}
use cvra_bootloader.Command.Dispatch.{execute_datagram_commands}
use cvra_bootloader.Bootloader.{Node, success}
use cvra_bootloader.Bootloader.Replies.{fragment}
use cvra_bootloader.Bootloader.Loop.{
  Inputs, running, is_addressed, restarted, after_command, begin_frame, on_frame, is_for,
  on_datagram_timeout, round, rounds,
}
use cvra_bootloader.Bootloader.Loop.Rounds.{Delivers}
use cvra_bootloader.Bootloader.Loop.Delivery.{delivered}
use cvra_bootloader.Bootloader.Loop.Buffers.{given}
use cvra_bootloader.Bootloader.Loop.Recovery.{recovers}
use cvra_bootloader.Tests.Toy.{
  toy, board, node, reader, timer, config, message, message-IsWellFormed, message-Fits,
}
use cvra_bootloader.Tests.Nodes.{input, inputs, message-checksum, message-length}

-- A datagram that breaks off behind its first frame.
abbrev broken_off : List Inputs
broken_off = input 2 (some (record { id = 133; bytes = 1 ∷ 0 ∷ 0 ∷ 0 ∷ 9 ∷ 1 ∷ 4 ∷ 0 ∷ [] })) ∷ []

abbrev left_over : Node toy
left_over = record node {
  dt = record reader {
    crc = 9;
    destination_nodes_len = 1;
    destination_nodes = 4 ∷ 0 ∷ 0 ∷ [];
    crc_bytes_read = 4;
    destination_nodes_read = 1;
    data_length_bytes_read = 1;
    reader_state = state_data_len;
  };
  datagram_timeout_running = true;
  timer = datagram_timeout_reset timer 2;
}

runs : rounds toy board broken_off node ≡ running left_over
unfolding rounds round on_datagram_timeout on_frame begin_frame is_for bootloader_timeout_reached
    datagram_timeout_reached datagram_timeout_reset Datagram.input_bytes Datagram.input_byte
    Datagram.is_complete Datagram.id_start_is_set Datagram.start
runs = refl

inputs-Delivers_later : Delivers left_over.timer (fragment 2 5 true (encode message)) inputs
unfolding fragment encode bootloader_timeout_reached datagram_timeout_reached datagram_timeout_reset
inputs-Delivers_later = (refl, refl, refl, (refl, refl, refl, tt))

recovers_example :
    (i : Inputs) × (t : Timer) × (take 3 (received left_over.dt message).data_buffer
      ≡ message.bytes)
    × (rounds toy board (broken_off ++ inputs) node ≡ (
        if is_addressed message.nodes 5
        then after_command toy board i.bus 5
            (record (delivered toy board left_over message t) {
              bootloader_timeout_enabled = false;
            })
            (execute_datagram_commands toy
              (received left_over.dt message).data_buffer
              3
              left_over.output_buf
              board.output_buffer_size
              left_over.config
              left_over.flash
              success
              i.locals)
        else running (restarted toy board (delivered toy board left_over message t))))
recovers_example =
    recovers toy board broken_off inputs node left_over 5 2 message runs message-IsWellFormed
      message-Fits message-checksum refl (inr refl) (omega arith) (omega (arith, message-length))
      inputs-Delivers_later

abbrev booted : Node toy
booted = record node {
  config = record config { id = 1; application_crc = 0xDEADC0DE };
  dt = Datagram.start (given toy board (0 ∷ 0 ∷ 0 ∷ []) (0 ∷ 0 ∷ 0 ∷ 0 ∷ []));
  timer = bootloader_timeout_start timer 7;
}

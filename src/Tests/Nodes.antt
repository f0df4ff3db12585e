-- ===== src/Tests/Nodes.antt =====
-- The theorems on the main loop and the replies at a node on the small platform.
use cvra_bootloader.Prelude.{
  ℕ, ◌≡◌, refl, inr, true, false, List, [], ◌∷◌, Option, none, some, arith, take, length, replicate,
  if◌then◌else◌,
}
use cvra_bootloader.Platform.{read_bytes}
use cvra_bootloader.Prelude.Words.{u8}
use cvra_bootloader.Timer.{
  Timer, bootloader_timeout_reached, datagram_timeout_reached, datagram_timeout_reset,
}
use cvra_bootloader.Datagram.Wire.{encode, message_crc}
use cvra_bootloader.Datagram.Reader.Accept.{received}
use cvra_bootloader.Command.{Call}
use cvra_bootloader.Command.Settings.{jump_argument}
use cvra_bootloader.Command.Dispatch.{execute_datagram_commands}
use cvra_bootloader.Bootloader.{Frame, Node, return_datagram, success, without_start}
use cvra_bootloader.Bootloader.Replies.{
  fragment, payload, IsPacked, StartsOnce, reply_message, return_datagram_lem,
}
use cvra_bootloader.Bootloader.Loop.{
  Inputs, running, jumped, is_addressed, restarted, after_command, round, rounds,
}
use cvra_bootloader.Bootloader.Loop.Rounds.{Delivers}
use cvra_bootloader.Bootloader.Loop.Delivery.{deliver, delivered}
use cvra_bootloader.Bootloader.Loop.Errors.{answered, Rejected, bad_version, error_codes_as_success}
use cvra_bootloader.Boot.{reset_handler-reboot_system}
use cvra_bootloader.Bootloader.Loop.Safety.{Safe, IsKeptUntilStray, rounds-Safe}
use cvra_bootloader.Bootloader.Loop.Start.{application_starts_intact}
use cvra_bootloader.Tests.Toy.{
  toy, board, node, config, locals, blank_flash, message, message-IsWellFormed, message-Fits,
  toy-Confines,
}

abbrev pub input : ℕ → Option Frame → Inputs
input time f = record {
  time_bootloader = time;
  time_datagram = time;
  time_frame = time;
  frame = f;
  bus = λ n. true;
  locals = locals;
}

abbrev pub inputs : List Inputs
inputs =
    input 3 (some (record { id = 133; bytes = 1 ∷ 0 ∷ 0 ∷ 0 ∷ 17 ∷ 1 ∷ 5 ∷ 0 ∷ [] }))
    ∷ input 4 (some (record { id = 5; bytes = 0 ∷ 0 ∷ 3 ∷ 3 ∷ 5 ∷ 0 ∷ [] }))
    ∷ []

inputs-Delivers : Delivers node.timer (fragment 2 5 true (encode message)) inputs
unfolding fragment encode bootloader_timeout_reached datagram_timeout_reached datagram_timeout_reset
inputs-Delivers = (refl, refl, refl, (refl, refl, refl, tt))

pub message-checksum : message_crc toy.crc32 message ≡ message.checksum
unfolding message_crc
message-checksum = refl

pub message-length : length (encode message) ≡ 14
unfolding encode
message-length = refl

deliver_example :
    (i : Inputs) × (t : Timer) × (take 3 (received node.dt message).data_buffer ≡ message.bytes)
    × (rounds toy board inputs node ≡ (
        if is_addressed message.nodes 5
        then after_command toy board i.bus 5
            (record (delivered toy board node message t) { bootloader_timeout_enabled = false })
            (execute_datagram_commands toy
              (received node.dt message).data_buffer
              3
              node.output_buf
              board.output_buffer_size
              node.config
              node.flash
              success
              i.locals)
        else running (restarted toy board (delivered toy board node message t))))
deliver_example =
    deliver toy board node 5 2 message inputs message-IsWellFormed message-Fits message-checksum
      refl (inr refl) (omega arith) (omega (arith, message-length)) inputs-Delivers

rounds-Safe_example :
    Safe toy board 8
      (IsKeptUntilStray toy board 8 inputs node)
      blank_flash
      (rounds toy board inputs node)
rounds-Safe_example =
    rounds-Safe toy board 8 toy-Confines (omega arith) (omega arith) (omega arith) inputs node

-- The bootloader timeout, after 100 milliseconds.
timed_out : rounds toy board (input 100 none ∷ []) node ≡ jumped 2 node
unfolding rounds round bootloader_timeout_reached jump_argument read_bytes
timed_out = refl

application_starts_intact_example :
    toy.crc32 0 (read_bytes (toy.byte_at node.flash) toy.app_addr node.config.application_size)
    ≡ node.config.application_crc
application_starts_intact_example =
    application_starts_intact toy board 8 toy-Confines (omega arith) (omega arith) (omega arith)
      (input 100 none ∷ []) node node 2 timed_out (reset_handler-reboot_system 2 (omega arith))

return_datagram_example :
    let m = reply_message toy.crc32 5 (take 2 (1 ∷ 2 ∷ 3 ∷ [])) in
    (frames : List Frame) × (return_datagram toy (λ i. true) 5 5 (1 ∷ 2 ∷ 3 ∷ []) 2 ≡ some frames)
    × (payload frames ≡ encode m)
    × (message_crc toy.crc32 m ≡ m.checksum)
    × IsPacked frames
    × StartsOnce 5 frames
return_datagram_example =
    return_datagram_lem toy (λ i. true) 5 5 (1 ∷ 2 ∷ 3 ∷ []) 2 (λ i. refl) (omega arith)
      (omega arith) (omega arith)

abbrev call : Call toy
call = record {
  args = record { mem = []; pos = 0 };
  out = record { mem = 1 ∷ 2 ∷ 3 ∷ []; pos = 2 };
  config = config;
  flash = blank_flash;
  status = 1;
}

old_version : Rejected toy board (2 ∷ 5 ∷ 0 ∷ []) 3 locals 5
old_version = bad_version refl

-- With an output buffer that holds 300 bytes of an earlier reply.
abbrev worn_buffer : List ℕ
worn_buffer = replicate 300 7

abbrev worn_node : Node toy
worn_node = record node { output_buf = worn_buffer }

error_codes_as_success_example :
    (frames : List Frame) × (after_command toy board
        (λ n. true)
        5
        worn_node
        (execute_datagram_commands toy
          (2 ∷ 5 ∷ 0 ∷ [])
          3
          worn_buffer
          board.output_buffer_size
          node.config
          node.flash
          node.status
          locals)
      ≡ running (answered toy board worn_node worn_buffer frames))
    × (payload frames
        ≡ encode (reply_message toy.crc32 (u8 (without_start 5)) (take 251 worn_buffer)))
error_codes_as_success_example =
    error_codes_as_success toy board (λ n. true) 5 (2 ∷ 5 ∷ 0 ∷ []) 3 5 locals worn_node old_version
      (λ i. refl) (omega arith)

-- ===== src/Tests/Drivers.antt =====
-- The theorems on the timers, the start, the FIFO and the flash writer at concrete inputs.
use cvra_bootloader.Prelude.{
  none, min, ◌==◌, ◌<◌, ◌≤◌, ℕ, ◌+◌, ◌≤◌, ◌≡◌, ◌↔◌, refl, Bool, true, false, [], ◌∷◌, ◌++◌, some,
  arith, length, ltb, leb, if◌then◌else◌,
}
use cvra_bootloader.Timer.{
  bootloader_timeout_start, bootloader_timeout_reached, datagram_timeout_reset,
  datagram_timeout_reached,
}
use cvra_bootloader.Timer.Elapsed.{ticks, timeouts_exact}
use cvra_bootloader.Boot.{reboot_system, reset_handler, asked, reset_handler-reboot_system}
use cvra_bootloader.Fifo.{Fifo, CanFrame, can_receive_to_buffer, can_receive_from_buffer}
use cvra_bootloader.Fifo.Queue.{elements, IsValid, IsPopped, frames, buffer_is_queue}
use cvra_bootloader.Flash.Stm32f4.{
  Hardware, flash_address_is_valid, flash_get_sector_size, mark_sectors,
}
use cvra_bootloader.Flash.Stm32f4.Programming.{is_finished, mark_sectors-is_finished}
use cvra_bootloader.Led.{Leds, led_on}
use cvra_bootloader.Led.Shine.{processed, led_on-shines}
use cvra_bootloader.Can.{
  Attempt, can_transmission_complete, can_transmission_successful, wait, wait_timeout, is_sent,
  can_interface_send_message,
}
use cvra_bootloader.Can.Filters.{can_set_filters}
use cvra_bootloader.Can.Setup.Nucleo.{nucleo, can2_pb12_pb13}
use cvra_bootloader.Can.Setup.Allowed.{in_order, at_reset}
use cvra_bootloader.Can.Setup.Leds.{LedPins, set_up_pins, set_up_pins-in_order}
use cvra_bootloader.Can.Filters.Accepted.{accepts, filters-is_for}
use cvra_bootloader.Bootloader.Loop.{is_for}
use cvra_bootloader.Fifo.Interrupted.{Taken, interrupted_read, interrupted_read_lem}
use cvra_bootloader.Fifo.Interrupts.{interrupts, room, Handled, interrupts-frames}
use cvra_bootloader.Can.Single.{IsSteady, single_send_message, any_sent, send_messages_agree}
use cvra_bootloader.Can.Retries.{IsGood, send_message-IsGood}
use cvra_bootloader.Tests.Toy.{timer}

-- Over the wrap-around of the counter.
timeouts_exact_example :
    ((bootloader_timeout_reached
          (bootloader_timeout_start timer 0xFFFF_FFF0)
          (ticks 120 0xFFFF_FFF0)
        ≡ true)
      ↔ (100 ≤ 120))
    × ((datagram_timeout_reached (datagram_timeout_reset timer 0xFFFF_FFF0) (ticks 120 0xFFFF_FFF0)
          ≡ true)
        ↔ (10 ≤ 120))
timeouts_exact_example = timeouts_exact timer 0xFFFF_FFF0 120 (omega arith) (omega arith)

reset_handler-reboot_system_example : reset_handler (reboot_system 2) ≡ asked 2
reset_handler-reboot_system_example = reset_handler-reboot_system 2 (omega arith)

abbrev frame : CanFrame
frame = record { id = 5; dlc = 1; bytes = 7 ∷ [] }

-- One frame waits at the end of the array.
abbrev fifo : Fifo
fifo = record { buffer = λ i. frame; push_index = 0; pop_index = 299 }

fifo-IsValid : IsValid fifo
fifo-IsValid = record { push_below = omega arith; pop_below = omega arith }

one_waits : frames fifo ≡ frame ∷ []
unfolding elements
one_waits = refl

buffer_is_queue_example :
    IsValid (can_receive_to_buffer (some frame) fifo)
    × (frames (can_receive_to_buffer (some frame) fifo)
        ≡ (if ltb (length (frames fifo)) 299 then frames fifo ++ (frame ∷ []) else frames fifo))
    × IsPopped fifo (can_receive_from_buffer fifo)
buffer_is_queue_example = buffer_is_queue fifo frame fifo-IsValid

-- Three frames that the hardware holds, and a handler that runs twice.
interrupts-frames_example :
    Handled
      (min 2 (room fifo))
      (frame ∷ frame ∷ frame ∷ [])
      fifo
      (interrupts 2 (frame ∷ frame ∷ frame ∷ []) fifo)
interrupts-frames_example = interrupts-frames 2 (frame ∷ frame ∷ frame ∷ []) fifo fifo-IsValid

-- Two runs of the handler, one behind the test and one behind the copy.
interrupted_read_example :
    Taken
      (min 2 (room fifo))
      frame
      []
      (frame ∷ frame ∷ frame ∷ [])
      (interrupted_read 1 1 (frame ∷ frame ∷ frame ∷ []) fifo)
interrupted_read_example =
    interrupted_read_lem 1 1 (frame ∷ frame ∷ frame ∷ []) fifo frame [] fifo-IsValid one_waits

-- A megabyte of flash memory, of which the counter of its operations is all that is kept.
abbrev counter : Hardware
counter = record {
  Hw = ℕ;
  flash_unlock = λ n. n;
  flash_lock = λ n. n;
  flash_erase_sector = λ n sector. (true, n + 1);
  flash_program = λ n page bytes. n + 1;
  flash_begin = 0x08000000;
  flash_end = 0x08100000;
  flash_sector_index_max = 11;
}

abbrev no_flags : ℕ → Bool
no_flags sector = false

in_flash : flash_address_is_valid counter 0x08000004 ≡ true
unfolding flash_address_is_valid
in_flash = refl

mark_sectors-is_finished_example :
    is_finished (mark_sectors counter 2 no_flags 0x08000004 0x08000006) ≡ true
mark_sectors-is_finished_example =
    mark_sectors-is_finished counter (omega arith) 2 no_flags 0x08000004 0x08000006 in_flash
      (omega arith)

-- The last sector starts at 0x080E0000.
last_sector : flash_get_sector_size counter 0x080E0800 ≡ 0x20000
unfolding flash_get_sector_size flash_address_is_valid
last_sector = refl

-- Both LEDs are off for a long time.
abbrev dark : Leds
dark = record {
  led1 = record { lit = false; start_ms = 0 };
  led2 = record { lit = false; start_ms = 0 };
}

led_on-shines_example : (processed 50 60 1000 (led_on 50 1000 1 dark)).led1.lit ≡ ltb 60 50
led_on-shines_example =
    led_on-shines 50 60 1000 dark (omega arith) (omega arith) (omega arith) refl (omega arith)

abbrev at_once : Attempt
at_once = record { rqcp0 = λ k. true; txok0 = λ k. true }

at_once-sent : can_interface_send_message (λ i. at_once) 2 0 ≡ true
unfolding can_interface_send_message is_sent wait can_transmission_complete
    can_transmission_successful
at_once-sent = refl

send_message-IsGood_example : (i : ℕ) × (i ≤ 2) × (0 ≤ i) × IsGood at_once
send_message-IsGood_example = send_message-IsGood (λ i. at_once) 2 0 at_once-sent

abbrev stuck : Attempt
stuck = record { rqcp0 = λ k. false; txok0 = λ k. false }

-- The n-th attempt is complete at the n-th read, and the one with number 2 is successful.
abbrev third_time : ℕ → Attempt
third_time n = record { rqcp0 = λ k. leb n k; txok0 = λ k. n == 2 }

below_timeout : (n : ℕ) → min n 5 < wait_timeout
below_timeout n = omega arith

third_time-IsSteady : (n : ℕ) → IsSteady (third_time (min n 5)) (min n 5) (min n 5 == 2)
third_time-IsSteady n = record {
  before = λ j l. ground arith;
  behind = λ j l. ground arith;
  result = λ j l. refl;
}

send_messages_agree_example :
    (can_interface_send_message (λ n. third_time (min n 5)) 3 0 ≡ any_sent (λ n. min n 5 == 2) 3 0)
    × (single_send_message wait_timeout (λ n. third_time (min n 5)) 3 0
        ≡ some (any_sent (λ n. min n 5 == 2) 3 0))
send_messages_agree_example =
    send_messages_agree (λ n. third_time (min n 5)) (λ n. min n 5) (λ n. min n 5 == 2) 3
      third_time-IsSteady below_timeout

-- A frame arrives before the fourth read.
abbrev arrived : ℕ → Bool
arrived n = leb 3 n

arrived-stays : (k : ℕ) → arrived k ≡ true → arrived (k + 1) ≡ true
arrived-stays k h = ground arith

filters-is_for_example :
    (accepts (can_set_filters true 10) 138 ≡ is_for 10 138)
    × (accepts (can_set_filters false 10) 138 ≡ ltb 138 256)
filters-is_for_example = filters-is_for 10 138 (omega arith) (omega arith)

-- The pins that the board takes if nothing else is chosen.
abbrev led_pins : LedPins
led_pins = record { led1 = some (0, 5); led2 = none }

set_up_pins-in_order_example :
    in_order (set_up_pins led_pins (nucleo can2_pb12_pb13 true true)) at_reset ≡ true
set_up_pins-in_order_example =
    set_up_pins-in_order led_pins (nucleo can2_pb12_pb13 true true) (omega arith) tt (omega arith)
      (omega arith) tt

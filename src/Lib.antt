-- ===== src/Lib.antt =====
-- A bootloader for nodes on a CAN bus. A node reads CAN frames, puts them together to datagrams, runs
-- the command in a datagram that is meant for it, and answers with a datagram. The commands erase,
-- write, read and check flash memory, change the configuration, and start the application.
--
-- The parts, from the bottom:
--   Prelude    shared names, Boolean tests, lists, bits, words of 8 and 32 bits, C strings.
--   Datagram   can_datagram.h, can_datagram.c: the reader (can_datagram_input_byte), the writer
--              (can_datagram_output_bytes) and the checksum. Wire has the format itself, as the
--              encoding of a message; Reader and Writer compare the code with it; Bounds is about
--              the buffers.
--   Platform   what the core takes from elsewhere: crc32, MessagePack (cmp and cmp_mem_access), the
--              flash writer (flash_writer.h) and the constants of the linker script. All these are
--              parameters, and no theorem assumes more of them than its statement says.
--   Config     config.h, config.c: the configuration and its pages in flash memory; Saved is about the
--              MessagePack in a page, with what cmp is relied on for (IsCmp).
--   Command    command.h, command.c, error.h: one function per handler, in Erase, Write, Region and
--              Settings, and in Dispatch the table and execute_datagram_commands. A handler takes a
--              Call (arguments, reply, configuration, flash memory, status) to an Outcome.
--   Timer      platform/mcu/armv7-m/timeout_timer.c: the millisecond counter and both timeouts.
--   Bootloader bootloader.c: the state of a node, the replies (return_datagram,
--              return_error_datagram), and in Loop the body of the main loop as a function of what a
--              round reads from outside.
--   Boot       platform/mcu/armv7-m/boot.c, boot_arg.c: the boot argument over a reset; in Memory the loops
--              of bootloader_startup and of boot.c that initialise the variables; in Vectors the table of
--              vector_table.c and what an exception leads to.
--   Clock      platform/mcu/stm32f4/clock.c, and the set-ups of the clocks in platform/*/platform.c, as the
--              calls that they make, in order, with the clock tree that these set.
--   Boards     platform/*/platform.c, a file for each board that has a can_interface_init of its own; Table
--              puts them together, and SetUp is about all of them. Layouts has platform/*/platform.h and
--              platform/*/linkerscript.ld of all eight boards, with the flash writer of each, and Kept in it
--              puts these under the safety of the core.
--   Fifo       can_fifo.h, platform/mcu/stm32f4/can_fifo.c and the two functions of
--              platform/mcu/stm32f4/can_interface.c that use it: the buffer of received frames; in
--              Interrupts the handler can2_rx0_isr, and in Interrupted the read that it comes between.
--   Can        platform/mcu/stm32f4/can_interface.c: can_interface_send_message with the status register
--              as what each read of it gives, can_set_filters, the calls of
--              can_interface_init in their order (Setup), and the poll for a frame, which
--              stm32f1/can_interface.c and stm32f3/can_interface.c have in the same form; in Single the
--              sending loop of those two. Setup/Leds has led_init of platform/mcu/stm32f4/led.c and what
--              platform_main of platform/nucleo-board-stm32f446re/platform.c makes of the two.
--   Led        platform/mcu/stm32f4/led.c: led_on and led_process.
--   Flash      flash_page_is_erased; in Stm32f4 platform/mcu/stm32f4/flash_writer.c; in Stm32f1
--              platform/mcu/stm32f1/flash_writer.c and platform/mcu/stm32f3/flash_writer.c, which have
--              the same code. libopencm3 and the registers are parameters, and IsFlash in each says what
--              the manuals promise of the memory. Confined, Apart and Configured put the writers under the
--              core.
--   Tests      a small platform, and the theorems at concrete inputs.
--
-- The main loop (Loop.round) gives the bytes of a frame to the reader, asks it whether the datagram is
-- complete and valid, runs Dispatch.execute_datagram_commands on its data, and sends the reply with the
-- writer. A command that ends in a reset ends the rounds with a boot argument, which Boot takes over.
--
-- Numbers are natural numbers with the wrap-around of C's types written out. An access outside of a
-- buffer is a value of its own (none, fault, broken, stray). What uninitialised variables hold is an
-- argument. send_frames has the bound of 100 frames that the code has, and a reply of up to 255 bytes
-- needs 34; the loop over the sectors of a write has one round per byte as fuel, and ends within it;
-- the wait of the STM32F1 and STM32F3 for a sent frame has fuel and is none if it has not ended, and
-- 100,000 reads are enough where the STM32F4 does not time out; `rounds` runs for as many rounds as there
-- are inputs.
--
-- Not modelled: the jumps in assembly (boot.s, and start_app of boot.c), led_blink and the other blinking,
-- update_systick_counter and what else nothing calls, the calls for the AFIO of the STM32F103, the set-ups
-- of the clocks that are libopencm3's, and the client, which is in Python. The memory and the registers that
-- the hardware has are as its reference manuals describe them, at the definitions that say so.
-- The build is the one with no optional macro defined but CAN_RX_BUFFER_ENABLED, CAN_USE_INTERRUPTS in the
-- vector table and the handler, and the two LEDs, and
-- with the default size of the FIFO. The interrupt handlers are functions that
-- run as a whole between the other steps.
pub mod Prelude
pub mod Datagram
pub mod Platform
pub mod Config
pub mod Flash
pub mod Command
pub mod Timer
pub mod Fifo
pub mod Led
pub mod Can
pub mod Boot
pub mod Clock
pub mod Boards
mod Tests
pub mod Bootloader

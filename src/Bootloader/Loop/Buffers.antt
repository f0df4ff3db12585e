-- ===== src/Bootloader/Loop/Buffers.antt =====
-- The reader's buffers from bootloader_main's start on and through its loop.
use cvra_bootloader.Prelude.{ℕ, List, Option, none, some}
use cvra_bootloader.Platform.{Platform}
use cvra_bootloader.Datagram.{Datagram, can_datagram_version, input_byte}
use cvra_bootloader.Datagram
use cvra_bootloader.Datagram.Bounds.{InBounds}
use cvra_bootloader.Datagram.Sizes.{SameSizes, SameSizes-refl, SameSizes-Fits}
use cvra_bootloader.Datagram.Sizes
use cvra_bootloader.Timer.{Timer}
use cvra_bootloader.Config.{Config}
use cvra_bootloader.Bootloader.{Board, Node}

-- The reader's invariant, against the sizes at a moment before: the buffers have these sizes, and the
-- data buffer is as large as the reader knows and not full before the end of a datagram.
abbrev pub IsKept : Datagram → Datagram → Type 0
IsKept before dt = InBounds dt × SameSizes before dt

module _ (p : Platform) (board : Board) where
  -- The reader with the buffers of bootloader_main.
  abbrev pub given : List ℕ → List ℕ → Datagram
  given addr_buf data_buf =
      Datagram.set_data_buffer (Datagram.set_address_buffer Datagram.init addr_buf) data_buf
        board.input_buffer_size

  abbrev OnBooted : (Datagram → Type 0) → Option (Node p) → Type 0
  OnBooted Q none = Unit
  OnBooted Q (some s) = Q s.dt

-- ===== src/Bootloader/Loop/Recovery.antt =====
-- The main loop takes a datagram whatever came before it.
use mathlib.Core.Path.{subst}
use cvra_bootloader.Prelude.{
  ℕ, ◌*◌, ◌≤◌, ◌<◌, ◌≡◌, ◌⊎◌, refl, ap, ◌∙◌, true, false, List, [], ◌∷◌, ◌++◌, Option, none, some,
  length, take, if◌then◌else◌,
}
use cvra_bootloader.Platform.{Platform}
use cvra_bootloader.Datagram.{Datagram, can_datagram_version, start, input_bytes}
use cvra_bootloader.Datagram.Wire.{Message, encode, IsWellFormed, Fits, message_crc}
use cvra_bootloader.Datagram.Sizes.{
  SameSizes, SameSizes-refl, SameSizes-trans, SameSizes-Fits, start-SameSizes, input_bytes-OnSome,
}
use cvra_bootloader.Datagram.Sizes
use cvra_bootloader.Datagram.Reader.Accept.{received}
use cvra_bootloader.Timer.{Timer}
use cvra_bootloader.Command.Dispatch.{execute_datagram_commands}
use cvra_bootloader.Bootloader.{Board, Node, success}
use cvra_bootloader.Bootloader.Replies.{fragment}
use cvra_bootloader.Bootloader.Loop.{
  Inputs, Round, running, jumped, stray, is_addressed, restarted, after_command, round, rounds,
}
use cvra_bootloader.Bootloader.Loop.Rounds.{Delivers}
use cvra_bootloader.Bootloader.Loop.Delivery.{delivered, deliver}
use cvra_bootloader.Bootloader.Loop.Invariant.{Holds, OnSome, rounds-Holds}

module _ (p : Platform) (board : Board) where
  abbrev continue_with : List Inputs → Round p → Round p
  continue_with ins (running s) = rounds p board ins s
  continue_with ins (jumped arg s) = jumped arg s
  continue_with ins stray = stray

  rounds-append :
      (before ins : List Inputs) (s : Node p)
      → rounds p board (before ++ ins) s ≡ continue_with ins (rounds p board before s)
  unfolding rounds
  rounds-append [] ins s = refl
  rounds-append (i ∷ before) ins s = next (round p board i s) (λ s'. rounds-append before ins s')
    where
      next :
          (r : Round p)
          → ((s' : Node p)
              → rounds p board (before ++ ins) s' ≡ continue_with ins (rounds p board before s'))
          → (elim r [
            | running s' ↦ rounds p board (before ++ ins) s'
            | jumped arg s' ↦ jumped arg s'
            | stray ↦ stray
          ])
            ≡ continue_with ins (elim r [
              | running s' ↦ rounds p board before s'
              | jumped arg s' ↦ jumped arg s'
              | stray ↦ stray
            ])
      next (running s') rest = rest s'
      next (jumped arg s') rest = refl
      next stray rest = refl

  bytes-SameSizes :
      (before dt : Datagram) (bytes : List ℕ)
      → SameSizes before dt
      → OnSome (SameSizes before) (input_bytes dt bytes)
  bytes-SameSizes before dt bytes e = on_some (input_bytes dt bytes) (input_bytes-OnSome dt bytes)
    where
      on_some : (o : Option Datagram) → Sizes.OnSome dt o → OnSome (SameSizes before) o
      on_some none f = tt
      on_some (some dt') f = SameSizes-trans before dt dt' e f

  rounds-SameSizes :
      (ins : List Inputs) (s : Node p) → Holds p board (SameSizes s.dt) (rounds p board ins s)
  rounds-SameSizes ins s =
      rounds-Holds p board (SameSizes s.dt)
        (λ dt e. SameSizes-trans s.dt dt (start dt) e (start-SameSizes dt)) (bytes-SameSizes s.dt)
        ins s (SameSizes-refl s.dt)

  -- Whatever frames came before, broken off, corrupt or meant for others, as long as the node still runs:
  -- the frames of a well-formed message with the right version and checksum, which fits into the
  -- buffers, lead it to run the message's bytes as a command if it is among the destinations, and else
  -- to wait for the next datagram. The frames are eight-byte fragments that bear the node's identifier
  -- or the broadcast one, and come without a timeout in between.
  pub recovers :
      (before ins : List Inputs) (s s' : Node p) (id k : ℕ) (m : Message)
      → rounds p board before s ≡ running s'
      → IsWellFormed m
      → Fits m s.dt
      → message_crc p.crc32 m ≡ m.checksum
      → m.version ≡ can_datagram_version
      → (id ≡ 0) ⊎ (id ≡ s'.config.id)
      → id < 128
      → length (encode m) ≤ 8 * k
      → Delivers s'.timer (fragment k id true (encode m)) ins
      → (i : Inputs) × (t : Timer) × (take (length m.bytes) (received s'.dt m).data_buffer
          ≡ m.bytes)
        × (rounds p board (before ++ ins) s ≡ (
            if is_addressed m.nodes s'.config.id
            then after_command p board i.bus id
                (record (delivered p board s' m t) { bootloader_timeout_enabled = false })
                (execute_datagram_commands p
                  (received s'.dt m).data_buffer
                  (length m.bytes)
                  s'.output_buf
                  board.output_buffer_size
                  s'.config
                  s'.flash
                  success
                  i.locals)
            else running (restarted p board (delivered p board s' m t))))
  recovers before ins s s' id k m runs w f sum version own small room d =
      let same : SameSizes s.dt s'.dt =
        subst (Holds p board (SameSizes s.dt)) runs (rounds-SameSizes before s) in
      let (i, t, bytes, came) =
        deliver p board s' id k m ins w (SameSizes-Fits m s.dt s'.dt same f) sum version own small
          room d in
      (i, t, bytes, rounds-append before ins s ∙ ap (continue_with ins) runs ∙ came)

-- ===== src/Bootloader/Loop/Safety.antt =====
-- What the main loop of bootloader.c never does, whatever frames come in: it does not touch the
-- bootloader's own flash memory, and it does not start an application that fails its check.
use cvra_bootloader.Prelude.{
  ℕ, ◌≤◌, ◌≡◌, refl, ap, ◌∙◌, sym, Bool, true, false, Bool-cases, inl, inr, List, [], ◌∷◌, ◌++◌,
  take, Option, none, some, arith, if◌then◌else◌, ltb, ◌||◌, ◌&&◌, length,
}
use mathlib.Core.Path.{subst}
use cvra_bootloader.Prelude.Int.{to_u8}
use cvra_bootloader.Platform.{Platform, read_bytes}
use cvra_bootloader.Datagram.{is_valid, is_complete, input_bytes, Datagram}
use cvra_bootloader.Timer.{bootloader_timeout_reached}
use cvra_bootloader.Command.Settings.{jump_argument, boot_arg_start_application}
use cvra_bootloader.Command.Dispatch.{Executed, finished, reset, broken}
use cvra_bootloader.Command.Protection.{SameBelow, Confines}
use cvra_bootloader.Command.Protection.Execute.{Preserves, execute-Preserves}
use cvra_bootloader.Command.Verified.{ResetChecked, execute-ResetChecked}
use cvra_bootloader.Bootloader.{Frame, Board, Node}
use cvra_bootloader.Bootloader.Loop.{
  Inputs, Round, running, jumped, stray, is_for, is_addressed, complain, restart, answer,
  after_command, on_valid, on_end, begin_frame, on_frame, on_datagram_timeout, round, rounds,
}

module _ (p : Platform) (board : Board) (lo : ℕ) where
  -- The bytes below `lo` are those of `before`, and a reset follows the check of the application; for
  -- an access outside of a buffer, what is given.
  abbrev pub Safe : Type 0 → p.Flash → Round p → Type 0
  Safe if_stray before (running s) = SameBelow p lo before s.flash
  Safe if_stray before (jumped arg s) =
      SameBelow p lo before s.flash × (arg ≡ jump_argument p s.config s.flash)
  Safe if_stray before stray = if_stray

  -- Some round makes an access outside of a buffer, and the bytes below `lo` are kept up to it.
  abbrev pub IsKeptUntilStray : List Inputs → Node p → Type 0
  IsKeptUntilStray ins s =
      (first : List Inputs) × (i : Inputs) × (rest : List Inputs) × (s' : Node p) × (ins
        ≡ first ++ (i ∷ rest))
      × (rounds p board first s ≡ running s')
      × SameBelow p lo s.flash s'.flash
      × (round p board i s' ≡ stray)

  -- The flash memory of a node, if there is one.
  abbrev flash_or : p.Flash → Option (Node p) → p.Flash
  flash_or flash none = flash
  flash_or flash (some s) = s.flash

  complain-flash :
      (bus : ℕ → Bool) (s : Node p) (code status : ℕ)
      → flash_or s.flash (complain p board bus s code status) ≡ s.flash
  unfolding complain
  complain-flash bus s code status = ground arith

  answer-flash :
      (bus : ℕ → Bool) (id n : ℕ) (s : Node p)
      → flash_or s.flash (answer p board bus id n s) ≡ s.flash
  unfolding answer complain
  answer-flash bus id n s = ground arith

  restart-Safe :
      (before now : p.Flash) (o : Option (Node p))
      → SameBelow p lo before now
      → flash_or now o ≡ now
      → Safe Unit before (restart p board o)
  restart-Safe before now none h e = tt
  restart-Safe before now (some s) h e = λ x l. ap (λ f. p.byte_at f x) e ∙ h x l

  after_command-Safe :
      (F : Type 0) (bus : ℕ → Bool) (id : ℕ) (s : Node p) (e : Executed p)
      → Preserves p lo F s.flash e
      → ResetChecked p e
      → Safe Unit s.flash (after_command p board bus id s e)
  unfolding after_command
  after_command-Safe F bus id s (finished ret c) h g =
      restart-Safe s.flash c.flash _ h (answer-flash bus id (to_u8 ret) _)
  after_command-Safe F bus id s (reset arg c) h g = (h, g)
  after_command-Safe F bus id s broken h g = tt

  module _ (k : Confines p lo) (app : lo ≤ p.app_addr) (c1 : lo ≤ p.config1_addr)
      (c2 : lo ≤ p.config2_addr) where
    on_valid-Safe : (i : Inputs) (id : ℕ) (s : Node p) → Safe Unit s.flash (on_valid p board i id s)
    unfolding on_valid
    on_valid-Safe i id s =
        elim (Bool-cases
          (is_addressed (take s.dt.destination_nodes_len s.dt.destination_nodes) s.config.id)) [
            | inl e ↦ rw e (
                after_command-Safe _ i.bus id _ _
                  (execute-Preserves p lo k _ _ _ _ _ s.flash _ i.locals app c1 c2)
                  (execute-ResetChecked p _ _ _ _ _ s.flash _ i.locals))
            | inr e ↦ rw e λ x l. refl
          ]

    on_end-Safe : (i : Inputs) (id : ℕ) (s : Node p) → Safe Unit s.flash (on_end p board i id s)
    unfolding on_end
    on_end-Safe i id s = on_end_cases (is_valid p.crc32 s.dt)
      where
        on_end_cases :
            (o : Option Bool)
            → Safe Unit s.flash (elim o [
              | none ↦ stray
              | some true ↦ on_valid p board i id s
              | some false ↦ restart p board (complain p board i.bus s 2 2)
            ])
        on_end_cases none = tt
        on_end_cases (some true) = on_valid-Safe i id s
        on_end_cases (some false) =
            restart-Safe s.flash s.flash _ (λ x l. refl) (complain-flash i.bus s 2 2)

    begin_frame-flash :
        (i : Inputs) (f : Frame) (s : Node p) → (begin_frame p board i f s).flash ≡ s.flash
    unfolding begin_frame
    begin_frame-flash i f s = ground arith

    on_frame-Safe :
        (i : Inputs) (f : Frame) (s : Node p) → Safe Unit s.flash (on_frame p board i f s)
    unfolding on_frame
    on_frame-Safe i f s =
        taken (begin_frame p board i f s) (is_for s.config.id f.id) (begin_frame-flash i f s)
      where
        ended :
            (s' : Node p) (dt : Datagram) (b : Bool)
            → s'.flash ≡ s.flash
            → Safe Unit s.flash (
                if b
                then on_end p board i f.id (record s' { dt = dt })
                else running (record s' { dt = dt }))
        ended s' dt true e = rw (← e) (on_end-Safe i f.id (record s' { dt = dt }))
        ended s' dt false e = λ x l. ap (λ f. p.byte_at f x) e

        taken :
            (s' : Node p) (b : Bool)
            → s'.flash ≡ s.flash
            → Safe Unit s.flash (
                if b
                then elim (input_bytes s'.dt f.bytes) [
                  | none ↦ stray
                  | some dt ↦
                      let s'' = record s' { dt = dt } in
                      if is_complete dt || ltb (length f.bytes) 8
                      then on_end p board i f.id s''
                      else running s''
                ]
                else running s)
        taken s' true e = input_cases (input_bytes s'.dt f.bytes)
          where
            input_cases :
                (o : Option Datagram)
                → Safe Unit s.flash (elim o [
                  | none ↦ stray
                  | some dt ↦
                      let s'' = record s' { dt = dt } in
                      if is_complete dt || ltb (length f.bytes) 8
                      then on_end p board i f.id s''
                      else running s''
                ])
            input_cases none = tt
            input_cases (some dt) = ended s' dt (is_complete dt || ltb (length f.bytes) 8) e
        taken s' false e = λ x l. refl

    timeout-flash :
        (i : Inputs) (s : Node p) → flash_or s.flash (on_datagram_timeout p board i s) ≡ s.flash
    unfolding on_datagram_timeout complain
    timeout-flash i s = ground arith

    round-Safe : (i : Inputs) (s : Node p) → Safe Unit s.flash (round p board i s)
    unfolding round
    round-Safe i s =
        elim (Bool-cases
          (s.bootloader_timeout_enabled && bootloader_timeout_reached s.timer i.time_bootloader)) [
            | inl e ↦ rw e ((λ x l. refl), refl)
            | inr e ↦
                rw e (frame_cases (on_datagram_timeout p board i s) i.frame (timeout-flash i s))
          ]
      where
        frame_cases :
            (o : Option (Node p)) (f : Option Frame)
            → flash_or s.flash o ≡ s.flash
            → Safe Unit s.flash (elim o [
              | none ↦ stray
              | some s' ↦ elim f [ none ↦ running s' | some f ↦ on_frame p board i f s' ]
            ])
        frame_cases none f e = tt
        frame_cases (some s') none e = λ x l. ap (λ f. p.byte_at f x) e
        frame_cases (some s') (some f) e = rw (← e) (on_frame-Safe i f s')

    -- A round in front of the others.
    later_stray :
        (i : Inputs) (is : List Inputs) (s s' : Node p)
        → round p board i s ≡ running s'
        → SameBelow p lo s.flash s'.flash
        → IsKeptUntilStray is s'
        → IsKeptUntilStray (i ∷ is) s
    unfolding rounds
    later_stray i is s s' e h (first, i', rest, last, parts, ran, kept, out) = (
      i ∷ first,
      i',
      rest,
      last,
      ap (◌∷◌ i) parts,
      (rw (rounds, e) ran),
      (λ x l. kept x l ∙ h x l),
      out,
    )

    Safe-from :
        (i : Inputs) (is : List Inputs) (s s' : Node p) (r : Round p)
        → round p board i s ≡ running s'
        → SameBelow p lo s.flash s'.flash
        → Safe (IsKeptUntilStray is s') s'.flash r
        → Safe (IsKeptUntilStray (i ∷ is) s) s.flash r
    Safe-from i is s s' (running t) e h g = λ x l. g x l ∙ h x l
    Safe-from i is s s' (jumped arg t) e h (g, a) = ((λ x l. g x l ∙ h x l), a)
    Safe-from i is s s' stray e h g = later_stray i is s s' e h g

    -- A round, and the rounds behind it.
    next-Safe :
        (i : Inputs) (is : List Inputs) (s : Node p) (r : Round p)
        → round p board i s ≡ r
        → Safe Unit s.flash r
        → ((s' : Node p) → Safe (IsKeptUntilStray is s') s'.flash (rounds p board is s'))
        → Safe (IsKeptUntilStray (i ∷ is) s) s.flash (elim r [
          | running s' ↦ rounds p board is s'
          | jumped arg s' ↦ jumped arg s'
          | stray ↦ stray
        ])
    unfolding rounds
    next-Safe i is s (running s') e h rest = Safe-from i is s s' _ e h (rest s')
    next-Safe i is s (jumped arg s') e h rest = h
    next-Safe i is s stray e h rest = ([], i, is, s, refl, refl, (λ x l. refl), e)

    -- Whatever the frames, the clock and the bus are, and for any number of rounds that make no access
    -- outside of a buffer: every byte of flash memory below `lo` stays as it was, and when the node
    -- resets, the boot argument is that of the check of the application. If some round makes an access
    -- outside of a buffer, every byte below `lo` is still unchanged when that round begins; of what
    -- comes behind it nothing is said. The conditions: `lo` is at most the start of the application and of
    -- both configuration pages, and the hardware keeps an erasure and a write from `lo` on to the bytes
    -- from `lo` on.
    pub rounds-Safe :
        (ins : List Inputs) (s : Node p)
        → Safe (IsKeptUntilStray ins s) s.flash (rounds p board ins s)
    unfolding rounds
    rounds-Safe [] s = λ x l. refl
    rounds-Safe (i ∷ is) s =
        next-Safe i is s (round p board i s) refl (round-Safe i s) (λ s'. rounds-Safe is s')

  -- The boot argument starts the application only if the checksum of its bytes is the configured one.
  jump_argument-start :
      (s : Node p)
      → jump_argument p s.config s.flash ≡ boot_arg_start_application
      → p.crc32 0 (read_bytes (p.byte_at s.flash) p.app_addr s.config.application_size)
        ≡ s.config.application_crc
  unfolding jump_argument
  jump_argument-start s e = ground arith

  -- When the main loop ends with the boot argument that starts the application, the checksum of the
  -- application's bytes in flash memory is the configured one. The conditions: `lo` is at most the
  -- start of the application and of both configuration pages, and the hardware keeps an erasure and a
  -- write from `lo` on to the bytes from `lo` on.
  pub started_application_is_intact :
      (k : Confines p lo)
      → lo ≤ p.app_addr
      → lo ≤ p.config1_addr
      → lo ≤ p.config2_addr
      → (ins : List Inputs) (s s' : Node p)
      → rounds p board ins s ≡ jumped boot_arg_start_application s'
      → p.crc32 0 (read_bytes (p.byte_at s'.flash) p.app_addr s'.config.application_size)
        ≡ s'.config.application_crc
  started_application_is_intact k app c1 c2 ins s s' e =
      let safe : Safe (IsKeptUntilStray ins s) s.flash (jumped boot_arg_start_application s') =
        subst (λ r. Safe (IsKeptUntilStray ins s) s.flash r) e (rounds-Safe k app c1 c2 ins s) in
      jump_argument-start s' (sym safe.1)

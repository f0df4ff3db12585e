-- ===== src/Bootloader/Loop/Invariant.antt =====
-- What the main loop keeps of its reader. A predicate on the reader that can_datagram_start and the bytes
-- of a frame keep is kept by all rounds.
use cvra_bootloader.Prelude.{
  ℕ, Bool, true, false, Bool-cases, Option-cases, ◌-◌, inl, inr, List, [], ◌∷◌, Option, none, some,
  length, ltb, take, ◌&&◌, ◌||◌, if◌then◌else◌,
}
use cvra_bootloader.Prelude.Words.{u8}
use cvra_bootloader.Prelude.Int.{to_u8}
use cvra_bootloader.Platform.{Platform}
use cvra_bootloader.Datagram.{Datagram, start, id_start_is_set, input_bytes, is_complete, is_valid}
use cvra_bootloader.Timer.{bootloader_timeout_reached, datagram_timeout_reached}
use cvra_bootloader.Command.Dispatch.{Executed, finished, reset, broken}
use cvra_bootloader.Bootloader.{
  Frame, Board, Node, return_datagram, return_error_datagram, without_start,
}
use cvra_bootloader.Bootloader.Loop.{
  Inputs, Round, running, jumped, stray, is_addressed, is_for, complain, answer, restart, restarted,
  after_command, on_valid, on_end, begin_frame, on_frame, on_datagram_timeout, round, rounds,
}

-- `Q` of the datagram behind the bytes, if they are taken.
abbrev pub OnSome : (Datagram → Type 0) → Option Datagram → Type 0
OnSome Q none = Unit
OnSome Q (some dt) = Q dt

module _ (p : Platform) (board : Board) (Q : Datagram → Type 0) where
  -- `Q` of the reader after a round.
  abbrev pub Holds : Round p → Type 0
  Holds (running s) = Q s.dt
  Holds (jumped arg s) = Q s.dt
  Holds stray = Unit

  abbrev HoldsNode : Option (Node p) → Type 0
  HoldsNode none = Unit
  HoldsNode (some s) = Q s.dt

  module _ (on_start : (dt : Datagram) → Q dt → Q (start dt))
      (on_bytes : (dt : Datagram) (bytes : List ℕ) → Q dt → OnSome Q (input_bytes dt bytes)) where
    complain-Holds :
        (bus : ℕ → Bool) (s : Node p) (code status : ℕ)
        → Q s.dt
        → HoldsNode (complain p board bus s code status)
    unfolding complain
    complain-Holds bus s code status q =
        elim (Option-cases
          (return_error_datagram p bus s.config.id s.output_buf board.output_buffer_size code)) [
            | inl e ↦ rw (e, HoldsNode) tt
            | inr (r, e) ↦ rw (e, HoldsNode) q
          ]

    answer-Holds :
        (bus : ℕ → Bool) (id n : ℕ) (s : Node p) → Q s.dt → HoldsNode (answer p board bus id n s)
    unfolding answer
    answer-Holds bus id n s q =
        let frames = return_datagram p bus s.config.id (u8 (without_start id)) s.output_buf n in
        elim (Bool-cases (ltb 0 n)) [
          | inl e ↦ elim (Option-cases frames) [
            | inl e' ↦ rw (e, e', HoldsNode) tt
            | inr (fs, e') ↦ rw (e, e', HoldsNode) q
          ]
          | inr e ↦ rw e (complain-Holds bus s (u8 (256 - n)) (u8 (256 - n)) q)
        ]

    restart-Holds : (o : Option (Node p)) → HoldsNode o → Holds (restart p board o)
    restart-Holds none q = tt
    restart-Holds (some s) q = on_start s.dt q

    after_command-Holds :
        (bus : ℕ → Bool) (id : ℕ) (s : Node p) (e : Executed p)
        → Q s.dt
        → Holds (after_command p board bus id s e)
    unfolding after_command
    after_command-Holds bus id s (finished ret c) q =
        restart-Holds _ (answer-Holds bus id (to_u8 ret) _ q)
    after_command-Holds bus id s (reset arg c) q = q
    after_command-Holds bus id s broken q = tt

    on_valid-Holds : (i : Inputs) (id : ℕ) (s : Node p) → Q s.dt → Holds (on_valid p board i id s)
    unfolding on_valid
    on_valid-Holds i id s q =
        elim (Bool-cases
          (is_addressed (take s.dt.destination_nodes_len s.dt.destination_nodes) s.config.id)) [
            | inl e ↦ rw e (after_command-Holds i.bus id _ _ q)
            | inr e ↦ rw e (on_start s.dt q)
          ]

    on_end-Holds : (i : Inputs) (id : ℕ) (s : Node p) → Q s.dt → Holds (on_end p board i id s)
    unfolding on_end
    on_end-Holds i id s q = on_end_cases (is_valid p.crc32 s.dt)
      where
        on_end_cases :
            (o : Option Bool)
            → Holds (elim o [
              | none ↦ stray
              | some true ↦ on_valid p board i id s
              | some false ↦ restart p board (complain p board i.bus s 2 2)
            ])
        on_end_cases none = tt
        on_end_cases (some true) = on_valid-Holds i id s q
        on_end_cases (some false) = restart-Holds _ (complain-Holds i.bus s 2 2 q)

    begin_frame-Holds :
        (i : Inputs) (f : Frame) (s : Node p) → Q s.dt → Q (begin_frame p board i f s).dt
    unfolding begin_frame
    begin_frame-Holds i f s q = elim (Bool-cases (id_start_is_set f.id)) [
      | inl e ↦ rw e (on_start s.dt q)
      | inr e ↦ rw e q
    ]

    on_frame-Holds : (i : Inputs) (f : Frame) (s : Node p) → Q s.dt → Holds (on_frame p board i f s)
    unfolding on_frame
    on_frame-Holds i f s q =
        let s' = begin_frame p board i f s in
        elim (Bool-cases (is_for s.config.id f.id)) [
          | inr e ↦ rw e q
          | inl e ↦ rw e (
              taken s' (input_bytes s'.dt f.bytes)
                (on_bytes s'.dt f.bytes (begin_frame-Holds i f s q)))
        ]
      where
        taken :
            (s' : Node p) (o : Option Datagram)
            → OnSome Q o
            → Holds (elim o [
              | none ↦ stray
              | some dt ↦
                  let s'' = record s' { dt = dt } in
                  if is_complete dt || ltb (length f.bytes) 8
                  then on_end p board i f.id s''
                  else running s''
            ])
        taken s' none q' = tt
        taken s' (some dt) q' = elim (Bool-cases (is_complete dt || ltb (length f.bytes) 8)) [
          | inl e ↦ rw e (on_end-Holds i f.id (record s' { dt = dt }) q')
          | inr e ↦ rw e q'
        ]

    timeout-Holds : (i : Inputs) (s : Node p) → Q s.dt → HoldsNode (on_datagram_timeout p board i s)
    unfolding on_datagram_timeout
    timeout-Holds i s q =
        let complained = complain p board i.bus s 6 6 in
        elim (Bool-cases
          (s.datagram_timeout_running && datagram_timeout_reached s.timer i.time_datagram)) [
            | inr e ↦ rw e q
            | inl e ↦ rw e (again complained (complain-Holds i.bus s 6 6 q))
          ]
      where
        again :
            (o : Option (Node p))
            → HoldsNode o
            → HoldsNode (elim o [ none ↦ none | some s' ↦ some (restarted p board s') ])
        again none h = tt
        again (some s') h = on_start s'.dt h

    pub round-Holds : (i : Inputs) (s : Node p) → Q s.dt → Holds (round p board i s)
    unfolding round
    round-Holds i s q =
        elim (Bool-cases
          (s.bootloader_timeout_enabled && bootloader_timeout_reached s.timer i.time_bootloader)) [
            | inl e ↦ rw e q
            | inr e ↦ rw e (framed (on_datagram_timeout p board i s) i.frame (timeout-Holds i s q))
          ]
      where
        framed :
            (o : Option (Node p)) (f : Option Frame)
            → HoldsNode o
            → Holds (elim o [
              | none ↦ stray
              | some s' ↦ elim f [ none ↦ running s' | some f ↦ on_frame p board i f s' ]
            ])
        framed none f h = tt
        framed (some s') none h = h
        framed (some s') (some f) h = on_frame-Holds i f s' h

    pub rounds-Holds : (ins : List Inputs) (s : Node p) → Q s.dt → Holds (rounds p board ins s)
    unfolding rounds
    rounds-Holds [] s q = q
    rounds-Holds (i ∷ is) s q =
        next (round p board i s) (round-Holds i s q) (λ s'. rounds-Holds is s')
      where
        next :
            (r : Round p)
            → Holds r
            → ((s' : Node p) → Q s'.dt → Holds (rounds p board is s'))
            → Holds (elim r [
              | running s' ↦ rounds p board is s'
              | jumped arg s' ↦ jumped arg s'
              | stray ↦ stray
            ])
        next (running s') h rest = rest s' h
        next (jumped arg s') h rest = h
        next stray h rest = tt

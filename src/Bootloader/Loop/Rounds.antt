-- ===== src/Bootloader/Loop/Rounds.antt =====
-- A datagram from the bus to the command: the rounds of the main loop that take its frames.
use cvra_bootloader.Prelude.{
  ℕ, zero, suc, ◌*◌, ◌≤◌, ◌≡◌, refl, sym, ap, ◌∙◌, true, false, List, [], ◌∷◌, ◌++◌, some, arith,
  length, take, drop, take-append-drop, length-take, length-drop, dec_lt, append_assoc, take-all,
  drop-all,
}
use cvra_bootloader.Platform.{Platform}
use cvra_bootloader.Datagram.{Datagram, id_start_is_set, start, input_bytes, is_complete}
use cvra_bootloader.Datagram.Wire.{Message, encode, IsWellFormed, Fits}
use cvra_bootloader.Datagram.Reader.{input_bytes-append}
use cvra_bootloader.Datagram.Reader.Accept.{received}
use cvra_bootloader.Datagram.Reader.Prefix.{prefix_incomplete, whole_taken}
use cvra_bootloader.Timer.{
  Timer, bootloader_timeout_reached, datagram_timeout_reset, datagram_timeout_reached,
}
use cvra_bootloader.Bootloader.{Frame, Board, Node, error_unspecified}
use cvra_bootloader.Bootloader.Replies.{fragment, fragment-nil}
use cvra_bootloader.Bootloader.Loop.{
  Inputs, Round, running, jumped, stray, on_end, is_for, on_frame, begin_frame, on_datagram_timeout,
  round, rounds,
}

-- Each round reads the next frame, and no timeout is reached in it.
abbrev pub Delivers : Timer → List Frame → List Inputs → Type 0
Delivers t [] [] = Unit
Delivers t [] (i ∷ is) = ⊥
Delivers t (f ∷ fs) [] = ⊥
Delivers t (f ∷ fs) (i ∷ is) =
    (i.frame ≡ some f)
    × (bootloader_timeout_reached t i.time_bootloader ≡ false)
    × (datagram_timeout_reached t i.time_datagram ≡ false)
    × Delivers (datagram_timeout_reset t i.time_frame) fs is

Delivers-nil :
    (t : Timer) (fs : List Frame) (is : List Inputs) → fs ≡ [] → Delivers t fs is → is ≡ []
Delivers-nil t [] [] e d = refl
Delivers-nil t [] (i ∷ is) e d = absurd d
Delivers-nil t (f ∷ fs) is e d = absurd (ground arith)

is_complete-received : (dt : Datagram) (m : Message) → is_complete (received dt m) ≡ true
unfolding is_complete
is_complete-received dt m = refl

module _ (p : Platform) (board : Board) where
  -- A round with a frame and no timeout.
  pub round-frame :
      (i : Inputs) (f : Frame) (s : Node p)
      → i.frame ≡ some f
      → bootloader_timeout_reached s.timer i.time_bootloader ≡ false
      → datagram_timeout_reached s.timer i.time_datagram ≡ false
      → round p board i s ≡ on_frame p board i f s
  unfolding round on_datagram_timeout
  round-frame i f s e b d = rw (b, d, e, round) (ground arith)

  -- A frame that does not start a datagram, and after which the datagram is not complete.
  on_frame-next :
      (i : Inputs) (f : Frame) (s : Node p) (dt : Datagram)
      → is_for s.config.id f.id ≡ true
      → id_start_is_set f.id ≡ false
      → input_bytes s.dt f.bytes ≡ some dt
      → is_complete dt ≡ false
      → length f.bytes ≡ 8
      → on_frame p board i f s
        ≡ running (record s { dt = dt; timer = datagram_timeout_reset s.timer i.time_frame })
  unfolding on_frame begin_frame
  on_frame-next i f s dt own mark taken more full = ground arith

  on_frame-last :
      (i : Inputs) (f : Frame) (s : Node p) (dt : Datagram)
      → is_for s.config.id f.id ≡ true
      → id_start_is_set f.id ≡ false
      → input_bytes s.dt f.bytes ≡ some dt
      → is_complete dt ≡ true
      → on_frame p board i f s
        ≡ on_end p board i f.id
            (record s { dt = dt; timer = datagram_timeout_reset s.timer i.time_frame })
  unfolding on_frame begin_frame
  on_frame-last i f s dt own mark taken done = ground arith

  pub on_frame-first :
      (i : Inputs) (f : Frame) (s : Node p) (dt : Datagram)
      → is_for s.config.id f.id ≡ true
      → id_start_is_set f.id ≡ true
      → input_bytes (start s.dt) f.bytes ≡ some dt
      → is_complete dt ≡ false
      → length f.bytes ≡ 8
      → on_frame p board i f s
        ≡ running (record s {
          dt = dt;
          timer = datagram_timeout_reset s.timer i.time_frame;
          datagram_timeout_running = true;
          status = error_unspecified;
        })
  unfolding on_frame begin_frame
  on_frame-first i f s dt own mark taken more full = ground arith

  resume-last :
      (r : Round p)
      → elim r [ running s' ↦ running s' | jumped arg s' ↦ jumped arg s' | stray ↦ stray ] ≡ r
  resume-last (running s') = refl
  resume-last (jumped arg s') = refl
  resume-last stray = refl

  rounds-one : (i : Inputs) (s : Node p) → rounds p board (i ∷ []) s ≡ round p board i s
  unfolding rounds
  rounds-one i s = resume-last (round p board i s)

  pub rounds-next :
      (i : Inputs) (is : List Inputs) (s s' : Node p)
      → round p board i s ≡ running s'
      → rounds p board (i ∷ is) s ≡ rounds p board is s'
  unfolding rounds
  rounds-next i is s s' e = rw (e, rounds)

  -- The rounds of the frames behind the first, when some bytes `xs` of the message are in.
  pub deliver_rest :
      (k id : ℕ) (ys : List ℕ) (ins : List Inputs) (s : Node p) (dt : Datagram) (m : Message)
      (xs : List ℕ)
      → IsWellFormed m
      → Fits m dt
      → is_for s.config.id id ≡ true
      → id_start_is_set id ≡ false
      → encode m ≡ xs ++ ys
      → input_bytes (start dt) xs ≡ some s.dt
      → 1 ≤ length ys
      → length ys ≤ 8 * k
      → Delivers s.timer (fragment k id false ys) ins
      → (i : Inputs) × (t : Timer) × (rounds p board ins s
          ≡ on_end p board i id (record s { dt = received dt m; timer = t }))
  unfolding fragment
  deliver_rest zero id ys ins s dt m xs w f own mark e taken h h' d = absurd (omega arith)
  deliver_rest (suc k) id [] ins s dt m xs w f own mark e taken h h' d = absurd (omega arith)
  deliver_rest (suc k) id (b ∷ bs) [] s dt m xs w f own mark e taken h h' d = absurd d
  deliver_rest (suc k) id (b ∷ bs) (i ∷ is) s dt m xs w f own mark e taken h h' (fr, bt, dgt, d) =
      let frame : Frame = record { id = id; bytes = take 8 (b ∷ bs) } in
      let step : (ys : List ℕ) → input_bytes (start dt) (xs ++ ys) ≡ input_bytes s.dt ys =
        λ ys. rw (input_bytes-append xs ys (start dt), taken) in
      elim (dec_lt 8 (length (b ∷ bs))) [
        | yes more ↦
            let rest = drop 8 (b ∷ bs) in
            let e' : encode m ≡ (xs ++ take 8 (b ∷ bs)) ++ rest =
              e
              ∙ ap (◌++◌ xs) (sym (take-append-drop 8 (b ∷ bs)))
              ∙ sym (append_assoc xs (take 8 (b ∷ bs)) rest) in
            let some_left : 1 ≤ length rest = omega (arith, length-drop 8 (b ∷ bs)) in
            let (dt', taken', incomplete) =
              prefix_incomplete dt m (xs ++ take 8 (b ∷ bs)) rest w f e' some_left in
            let s' : Node p = record s {
              dt = dt';
              timer = datagram_timeout_reset s.timer i.time_frame;
            } in
            let one : round p board i s ≡ running s' =
              round-frame i frame s fr bt dgt
              ∙ on_frame-next i frame s dt' own mark (sym (step (take 8 (b ∷ bs))) ∙ taken')
                  incomplete (omega (arith, length-take 8 (b ∷ bs))) in
            let (i', t, tail) =
              deliver_rest k id rest is s' dt m (xs ++ take 8 (b ∷ bs)) w f own mark e' taken'
                some_left (omega (arith, length-drop 8 (b ∷ bs))) d in
            (i', t, rounds-next i is s s' one ∙ tail)
        | no fewer ↦
            let whole : take 8 (b ∷ bs) ≡ b ∷ bs = take-all 8 (b ∷ bs) (omega arith) in
            let none_left : drop 8 (b ∷ bs) ≡ [] = drop-all 8 (b ∷ bs) (omega arith) in
            let taken' : input_bytes s.dt (take 8 (b ∷ bs)) ≡ some (received dt m) =
              ap (input_bytes s.dt) whole
              ∙ sym (step (b ∷ bs))
              ∙ whole_taken dt m xs (b ∷ bs) w f e in
            let over : is ≡ [] =
              Delivers-nil _ _ is (ap (fragment k id false) none_left ∙ fragment-nil k id false)
                d in
            (
              i,
              datagram_timeout_reset s.timer i.time_frame,
              ap (λ l. rounds p board (i ∷ l) s) over
                  ∙ rounds-one i s
                  ∙ round-frame i frame s fr bt dgt
                  ∙ on_frame-last i frame s (received dt m) own mark taken'
                      (is_complete-received dt m),
            )
      ]

-- ===== src/Datagram/Reader/Prefix.antt =====
-- The reader is complete only at the last byte of a message.
use cvra_bootloader.Prelude.{
  ℕ, suc, ◌≤◌, ◌≡◌, ◌≢◌, refl, sym, ap, ◌∙◌, inl, inr, false, List, [], ◌∷◌, ◌++◌, none, some,
  arith, length, Option-cases, append-nil, append_assoc,
}
use cvra_bootloader.Prelude.Words.{be32}
use cvra_bootloader.Datagram.{Datagram, State, state_trailing, start, input_bytes, is_complete}
use cvra_bootloader.Datagram.Wire.{Message, encode, IsWellFormed, Fits, message_of}
use cvra_bootloader.Datagram.Reader.{input_bytes-append, input_bytes-trailing}
use cvra_bootloader.Datagram.Reader.Accept.{received, input_bytes-encode, message_of-received}

-- The list with its last entry changed.
bump_last : List ℕ → List ℕ
bump_last [] = []
bump_last (x ∷ []) = suc x ∷ []
bump_last (x ∷ (y ∷ ys)) = x ∷ bump_last (y ∷ ys)

length-bump_last : (xs : List ℕ) → length (bump_last xs) ≡ length xs
unfolding bump_last
length-bump_last [] = refl
length-bump_last (x ∷ []) = refl
length-bump_last (x ∷ (y ∷ ys)) = ap suc (length-bump_last (y ∷ ys))

bump_last-ne : (xs : List ℕ) → 1 ≤ length xs → bump_last xs ≢ xs
unfolding bump_last
bump_last-ne [] h e = absurd (omega arith)
bump_last-ne (x ∷ []) h e = ground arith
bump_last-ne (x ∷ (y ∷ ys)) h e = bump_last-ne (y ∷ ys) (omega arith) (ground arith)

bump_last-cons : (x : ℕ) (ys : List ℕ) → 1 ≤ length ys → bump_last (x ∷ ys) ≡ x ∷ bump_last ys
unfolding bump_last
bump_last-cons x [] h = absurd (omega arith)
bump_last-cons x (y ∷ ys) h = refl

bump_last-append : (xs ys : List ℕ) → 1 ≤ length ys → bump_last (xs ++ ys) ≡ xs ++ bump_last ys
unfolding bump_last
bump_last-append [] ys h = refl
bump_last-append (x ∷ []) ys h = bump_last-cons x ys h
bump_last-append (x ∷ (x' ∷ xs)) ys h = ap (◌∷◌ x) (bump_last-append (x' ∷ xs) ys h)

-- The message with its last byte changed.
bumped : Message → Message
bumped m = record m { bytes = bump_last m.bytes }

-- The bytes before the data.
header_of : Message → ℕ → List ℕ
header_of m n = m.version ∷ (be32 m.checksum ++ (length m.nodes ∷ (m.nodes ++ be32 n)))

encode-header_of : (m : Message) → encode m ≡ header_of m (length m.bytes) ++ m.bytes
unfolding encode header_of
encode-header_of m =
    ap (λ t. m.version ∷ (be32 m.checksum ++ (length m.nodes ∷ t)))
      (sym (append_assoc m.nodes (be32 (length m.bytes)) m.bytes))

encode-bumped : (m : Message) → 1 ≤ length m.bytes → encode (bumped m) ≡ bump_last (encode m)
unfolding bumped bump_last header_of
encode-bumped m h =
    encode-header_of (bumped m)
    ∙ ap (λ n. header_of m n ++ bump_last m.bytes) (length-bump_last m.bytes)
    ∙ sym (bump_last-append (header_of m (length m.bytes)) m.bytes h)
    ∙ ap bump_last (sym (encode-header_of m))

bumped-IsWellFormed : (m : Message) → IsWellFormed m → IsWellFormed (bumped m)
unfolding bumped
bumped-IsWellFormed m w = ground (arith, length-bump_last m.bytes)

bumped-Fits : (m : Message) (dt : Datagram) → Fits m dt → Fits (bumped m) dt
unfolding bumped
bumped-Fits m dt f = ground (arith, length-bump_last m.bytes)

pub whole_taken :
    (dt : Datagram) (m : Message) (xs ys : List ℕ)
    → IsWellFormed m
    → Fits m dt
    → encode m ≡ xs ++ ys
    → input_bytes (start dt) (xs ++ ys) ≡ some (received dt m)
whole_taken dt m xs ys w f e =
    ap (input_bytes (start dt)) (sym e ∙ sym (append-nil (encode m)))
    ∙ input_bytes-encode dt m [] w f

-- A prefix that completes the datagram leaves nothing for the bytes behind it.
complete_prefix :
    (dt dt' : Datagram) (m : Message) (xs ys : List ℕ)
    → IsWellFormed m
    → Fits m dt
    → encode m ≡ xs ++ ys
    → input_bytes (start dt) xs ≡ some dt'
    → dt'.reader_state ≡ state_trailing
    → message_of dt' ≡ some m
complete_prefix dt dt' m xs ys w f e taken done =
    let split : input_bytes (start dt) (xs ++ ys) ≡ input_bytes dt' ys =
      rw (input_bytes-append xs ys (start dt), taken) in
    let same : some dt' ≡ some (received dt m) =
      sym (input_bytes-trailing dt' ys done) ∙ sym split ∙ whole_taken dt m xs ys w f e in
    let dt'-eq : dt' ≡ received dt m = ground arith in
    ap message_of dt'-eq ∙ message_of-received dt m f

-- Neither of two messages with one prefix can be complete with it, unless they are one.
not_complete :
    (dt dt' : Datagram) (m : Message) (xs ys : List ℕ) (s : State)
    → IsWellFormed m
    → Fits m dt
    → encode m ≡ xs ++ ys
    → 1 ≤ length ys
    → input_bytes (start dt) xs ≡ some dt'
    → dt'.reader_state ≡ s
    → is_complete dt' ≡ false
unfolding is_complete bumped
not_complete dt dt' m xs ys state_trailing w f e more taken at =
    let e' : encode (bumped m) ≡ xs ++ bump_last ys =
      encode-bumped m w.some_byte ∙ ap bump_last e ∙ bump_last-append xs ys more in
    let m' =
      complete_prefix dt dt' (bumped m) xs (bump_last ys) (bumped-IsWellFormed m w)
        (bumped-Fits m dt f) e' taken at in
    let clash : some (bumped m) ≡ some m = sym m' ∙ complete_prefix dt dt' m xs ys w f e taken at in
    let bytes : bump_last m.bytes ≡ m.bytes = ground arith in
    absurd (bump_last-ne m.bytes w.some_byte bytes)
not_complete dt dt' m xs ys other w f e more taken at = ground arith

-- A started reader that is given some, but not all, bytes of a well-formed message for which its
-- buffers have room takes them with no access outside of its buffers, and is not complete.
pub prefix_incomplete :
    (dt : Datagram) (m : Message) (xs ys : List ℕ)
    → IsWellFormed m
    → Fits m dt
    → encode m ≡ xs ++ ys
    → 1 ≤ length ys
    → (dt' : Datagram) × (input_bytes (start dt) xs ≡ some dt') × (is_complete dt' ≡ false)
prefix_incomplete dt m xs ys w f e more = elim (Option-cases (input_bytes (start dt) xs)) [
  | inl lost ↦
      let split : input_bytes (start dt) (xs ++ ys) ≡ none =
        rw (input_bytes-append xs ys (start dt), lost) in
      let clash : none ≡ some (received dt m) = sym split ∙ whole_taken dt m xs ys w f e in
      absurd (ground arith)
  | inr (dt', taken) ↦
      (dt', taken, not_complete dt dt' m xs ys dt'.reader_state w f e more taken refl)
]

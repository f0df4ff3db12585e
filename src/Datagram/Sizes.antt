-- ===== src/Datagram/Sizes.antt =====
-- can_datagram.c keeps the sizes of its buffers.
use cvra_bootloader.Prelude.{
  ℕ, ◌≡◌, refl, ◌∙◌, inl, inr, List, [], ◌∷◌, Option, none, some, arith, length, length-set, ltb,
  Bool-cases,
}
use cvra_bootloader.Datagram.{
  Datagram, State, state_protocol_version, state_crc, state_dst_len, state_dst, state_data_len,
  state_data, state_trailing, start, input_at, input_byte, input_bytes,
}
use cvra_bootloader.Datagram.Wire.{Message, Fits}

-- The address buffer and the data buffer have the sizes that they had, and the reader goes by the same
-- size.
pub record SameSizes (dt dt' : Datagram) : Type 0 where
  pub same_nodes : length dt'.destination_nodes ≡ length dt.destination_nodes
  pub same_data : length dt'.data_buffer ≡ length dt.data_buffer
  pub same_size : dt'.data_buffer_size ≡ dt.data_buffer_size

pub SameSizes-refl : (dt : Datagram) → SameSizes dt dt
SameSizes-refl dt = record { same_nodes = refl; same_data = refl; same_size = refl }

pub SameSizes-trans : (a b c : Datagram) → SameSizes a b → SameSizes b c → SameSizes a c
SameSizes-trans a b c e f = record {
  same_nodes = f.same_nodes ∙ e.same_nodes;
  same_data = f.same_data ∙ e.same_data;
  same_size = f.same_size ∙ e.same_size;
}

-- What fits before fits after.
pub SameSizes-Fits : (m : Message) (dt dt' : Datagram) → SameSizes dt dt' → Fits m dt → Fits m dt'
SameSizes-Fits m dt dt' e f = record {
  nodes_fit = omega (arith, e.same_nodes, f.nodes_fit);
  bytes_fit = omega (arith, e.same_data, f.bytes_fit);
  bytes_allowed = omega (arith, e.same_size, f.bytes_allowed);
}

pub start-SameSizes : (dt : Datagram) → SameSizes dt (start dt)
unfolding start
start-SameSizes dt = record { same_nodes = refl; same_data = refl; same_size = refl }

abbrev pub OnSome : Datagram → Option Datagram → Type 0
OnSome dt none = Unit
OnSome dt (some dt') = SameSizes dt dt'

input_at-OnSome : (s : State) (dt : Datagram) (val : ℕ) → OnSome dt (input_at s dt val)
unfolding input_at
input_at-OnSome state_protocol_version dt val = record {
  same_nodes = refl;
  same_data = refl;
  same_size = refl;
}
input_at-OnSome state_crc dt val = record { same_nodes = refl; same_data = refl; same_size = refl }
input_at-OnSome state_dst_len dt val = record {
  same_nodes = refl;
  same_data = refl;
  same_size = refl;
}
input_at-OnSome state_dst dt val =
    let i = dt.destination_nodes_read in
    elim (Bool-cases (ltb i (length dt.destination_nodes))) [
      | inl l ↦
          rw (l, OnSome)
            (record {
              same_nodes = length-set dt.destination_nodes i val;
              same_data = refl;
              same_size = refl;
            })
      | inr l ↦ rw (l, OnSome) tt
    ]
input_at-OnSome state_data_len dt val = record {
  same_nodes = refl;
  same_data = refl;
  same_size = refl;
}
input_at-OnSome state_data dt val =
    let i = dt.data_bytes_read in
    elim (Bool-cases (ltb i (length dt.data_buffer))) [
      | inl l ↦
          rw (l, OnSome)
            (record {
              same_nodes = refl;
              same_data = length-set dt.data_buffer i val;
              same_size = refl;
            })
      | inr l ↦ rw (l, OnSome) tt
    ]
input_at-OnSome state_trailing dt val = SameSizes-refl dt

input_byte-OnSome : (dt : Datagram) (val : ℕ) → OnSome dt (input_byte dt val)
unfolding input_byte
input_byte-OnSome dt val = input_at-OnSome dt.reader_state dt val

-- The bytes of a frame.
pub input_bytes-OnSome : (dt : Datagram) (bytes : List ℕ) → OnSome dt (input_bytes dt bytes)
unfolding input_bytes
input_bytes-OnSome dt [] = SameSizes-refl dt
input_bytes-OnSome dt (val ∷ vals) =
    behind (input_byte dt val) (input_byte-OnSome dt val) (λ dt'. input_bytes-OnSome dt' vals)
  where
    behind :
        (o : Option Datagram)
        → OnSome dt o
        → ((dt' : Datagram) → OnSome dt' (input_bytes dt' vals))
        → OnSome dt (elim o [ none ↦ none | some dt' ↦ input_bytes dt' vals ])
    behind none e rest = tt
    behind (some dt') e rest = on_some (input_bytes dt' vals) (rest dt')
      where
        on_some : (o : Option Datagram) → OnSome dt' o → OnSome dt o
        on_some none f = tt
        on_some (some dt'') f = SameSizes-trans dt dt' dt'' e f

-- ===== src/Boards/Filters.antt =====
-- The filters of the boards against the frames that the main loop takes, and the bit rates of the boards that
-- set up their clocks themselves.
use cvra_bootloader.Prelude.{
  ℕ, ◌<◌, ◌≡◌, refl, ◌∙◌, Bool, true, false, ◌||◌, ◌&&◌, not, Bool-cases, inl, inr, ltb, arith, [],
  ◌∷◌, all_below, all_below_sound, bit_or,
}
use cvra_bootloader.Datagram.{id_start_mask}
use cvra_bootloader.Bootloader.Loop.{is_for}
use cvra_bootloader.Can.Filters.{can_set_filters, promiscuous_filter}
use cvra_bootloader.Can.Filters.Accepted.{accepts, lets_through, filters-is_for}
use cvra_bootloader.Boards.{
  Board, can_io_board, motor_board_v1, rc_board_v1, uwb_beacon, olimex_e407,
  nucleo_board_stm32f103rb, nucleo_board_stm32f334r8,
}
use cvra_bootloader.Boards.Table.{filter_of}

-- The rc-board-v1 has a filter of its own.
abbrev pub is_open : Board → Bool
is_open rc_board_v1 = true
is_open board = false

open_table : all_below 2048 (λ id. lets_through (filter_of rc_board_v1) id) ≡ true
unfolding all_below
open_table = refl

or_end : (b : Bool) → (b || false) ≡ b
or_end true = refl
or_end false = refl

one_filter : (id : ℕ) → id < 2048 → (lets_through promiscuous_filter id || false) ≡ ltb id 256
unfolding can_set_filters
one_filter id h = (filters-is_for 0 id (omega arith) h).1

start_below_table : all_below 256 (λ own. ltb (bit_or own id_start_mask) 256) ≡ true
unfolding all_below
start_below_table = refl

-- The main loop takes only identifiers of one byte.
is_for-below : (own id : ℕ) → own < 256 → is_for own id ≡ true → ltb id 256 ≡ true
unfolding is_for
is_for-below own id h e =
    let small : ltb (bit_or own id_start_mask) 256 ≡ true =
      all_below_sound 256 (λ own. ltb (bit_or own id_start_mask) 256) own start_below_table h in
    ground arith

-- The filters of all boards but the rc-board-v1 let through the frames with an identifier of one byte, and that
-- one all frames with a standard identifier.
filter_of-accepts :
    (b : Board) (id : ℕ) → id < 2048 → accepts (filter_of b ∷ []) id ≡ (is_open b || ltb id 256)
filter_of-accepts can_io_board id h = one_filter id h
filter_of-accepts motor_board_v1 id h = one_filter id h
filter_of-accepts uwb_beacon id h = one_filter id h
filter_of-accepts olimex_e407 id h = one_filter id h
filter_of-accepts nucleo_board_stm32f103rb id h = one_filter id h
filter_of-accepts (nucleo_board_stm32f334r8 m port pin) id h = one_filter id h
filter_of-accepts rc_board_v1 id h =
    or_end (lets_through (filter_of rc_board_v1) id)
    ∙ all_below_sound 2048 (λ id. lets_through (filter_of rc_board_v1) id) id open_table h

-- The filter of each board that has a can_interface_init of its own lets through a frame with a standard
-- identifier exactly if the identifier has one byte, or if the board is the rc-board-v1; so each frame that the
-- main loop of a node with an identifier of one byte takes is let through.
pub boards-is_for :
    (b : Board) (own id : ℕ)
    → own < 256
    → id < 2048
    → (accepts (filter_of b ∷ []) id ≡ (is_open b || ltb id 256))
      × ((is_for own id && not (accepts (filter_of b ∷ []) id)) ≡ false)
boards-is_for b own id h h' = (
  filter_of-accepts b id h',
  elim (Bool-cases (is_for own id)) [
    | inl e ↦
        let below : ltb id 256 ≡ true = is_for-below own id h e in
        rw (filter_of-accepts b id h', e, below) (ends (is_open b))
    | inr e ↦ rw e refl
  ],
)
  where
    ends : (b : Bool) → (true && not (b || true)) ≡ false
    ends true = refl
    ends false = refl

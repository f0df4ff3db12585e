-- ===== src/Can/Filters/Accepted.antt =====
-- The frames that the CAN filters let through against the frames that the main loop takes.
use cvra_bootloader.Prelude.{
  ℕ, ◌*◌, ◌^◌, ◌<◌, ◌≡◌, refl, Bool, true, false, List, [], ◌∷◌, arith, bit_or, bit_and, ◌==◌, ◌||◌,
  if◌then◌else◌, all_below, all_below_sound, ltb, not,
}
use cvra_bootloader.Prelude.Words.{u32, ◌<<<◌}
use cvra_bootloader.Datagram.{id_start_mask}
use cvra_bootloader.Bootloader.Loop.{is_for}
use cvra_bootloader.Can.Filters.{Filter, exact_mask, promiscuous_filter, can_set_filters}

-- The filter register of the hardware for a data frame with a standard identifier of 11 bits, as the
-- reference manual has it: the identifier in the highest bits, and IDE and RTR at 0.
abbrev pub frame_register : ℕ → ℕ
frame_register id = u32 (id <<< 21)

-- A filter in mask mode lets through what agrees with its identifier at the bits of its mask.
abbrev pub lets_through : Filter → ℕ → Bool
lets_through filter id = bit_and (frame_register id) filter.mask == bit_and filter.id filter.mask

abbrev pub accepts : List Filter → ℕ → Bool
accepts [] id = false
accepts (filter ∷ filters) id = lets_through filter id || accepts filters id

abbrev keeps_identifier : ℕ → Bool
keeps_identifier id = bit_and (u32 (id <<< 21)) exact_mask == id * 2 ^ 21

keeps_identifier_table : all_below 2048 (λ id. keeps_identifier id) ≡ true
unfolding all_below
keeps_identifier_table = refl

-- The exact mask keeps an identifier whole.
exact_mask_lem : (id : ℕ) → id < 2048 → bit_and (u32 (id <<< 21)) exact_mask ≡ id * 2 ^ 21
exact_mask_lem id h =
    let kept : keeps_identifier id ≡ true =
      all_below_sound 2048 (λ id. keeps_identifier id) id keeps_identifier_table h in
    ground arith

start_identifier_table : all_below 256 (λ own. ltb (bit_or own id_start_mask) 2048) ≡ true
unfolding all_below
start_identifier_table = refl

start_identifier_small : (own : ℕ) → own < 256 → bit_or own id_start_mask < 2048
start_identifier_small own h =
    let small : ltb (bit_or own id_start_mask) 2048 ≡ true =
      all_below_sound 256 (λ own. ltb (bit_or own id_start_mask) 2048) own start_identifier_table
        h in
    ground arith

exact-lets_through :
    (number other id : ℕ)
    → other < 2048
    → id < 2048
    → lets_through (record { number = number; id = u32 (other <<< 21); mask = exact_mask }) id
      ≡ (id == other)
exact-lets_through number other id h h' =
    rw (exact_mask_lem id h', exact_mask_lem other h) (ground arith)

promiscuous_table :
    all_below 2048
      (λ id. if lets_through promiscuous_filter id then ltb id 256 else not (ltb id 256))
    ≡ true
unfolding all_below
promiscuous_table = refl

promiscuous-lets_through : (id : ℕ) → id < 2048 → lets_through promiscuous_filter id ≡ ltb id 256
promiscuous-lets_through id h = agrees _ _ (
    all_below_sound 2048
      (λ id. if lets_through promiscuous_filter id then ltb id 256 else not (ltb id 256)) id
      promiscuous_table h)
  where
    agrees : (a b : Bool) → (if a then b else not b) ≡ true → a ≡ b
    agrees true b h = ground arith
    agrees false b h = ground arith

or_false : (b : Bool) → (b || false) ≡ b
or_false true = refl
or_false false = refl

assoc_end : (a b c d : Bool) → (a || (b || (c || (d || false)))) ≡ (a || b || c || d)
assoc_end true b c d = refl
assoc_end false true c d = refl
assoc_end false false true d = refl
assoc_end false false false d = or_false d

-- For a node with an identifier of one byte and a frame with a standard identifier, of 11 bits, the
-- filters of CAN_FILTERS_ENABLED let through exactly the frames that the main loop takes, and the one
-- filter without it exactly those with an identifier below 256.
pub filters-is_for :
    (own id : ℕ)
    → own < 256
    → id < 2048
    → (accepts (can_set_filters true own) id ≡ is_for own id)
      × (accepts (can_set_filters false own) id ≡ ltb id 256)
unfolding can_set_filters is_for
filters-is_for own id h h' = (
  rw
      (
        exact-lets_through 1 0x080 id (omega arith) h',
        exact-lets_through 2 0 id (omega arith) h',
        exact-lets_through 3 (bit_or own id_start_mask) id (start_identifier_small own h) h',
        exact-lets_through 4 own id (omega arith) h',
      )
      (assoc_end (id == 0x080) (id == 0) (id == bit_or own id_start_mask) (id == own)),
  rw (promiscuous-lets_through id h') (or_false (ltb id 256)),
)

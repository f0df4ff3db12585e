-- ===== src/Can/Filters.antt =====
-- can_set_filters of platform/mcu/stm32f4/can_interface.c, and the filter of the other boards.
pub mod Accepted
use cvra_bootloader.Prelude.{
  ℕ, ◌+◌, ◌-◌, ◌^◌, Bool, true, false, List, [], ◌∷◌, bit_or, bit_and, ◌==◌, ◌||◌, if◌then◌else◌,
}
use cvra_bootloader.Prelude.Words.{u32, ◌<<<◌}
use cvra_bootloader.Datagram.{id_start_mask}

-- A call of `can_filter_id_mask_32bit_init`, for CAN1 and the FIFO 0, that enables the filter.
pub record Filter : Type 0 where
  pub number : ℕ
  pub id : ℕ
  pub mask : ℕ

-- `(0x7FF << 21) | 0x6`
abbrev pub exact_mask : ℕ
exact_mask = bit_or (0x7FF <<< 21) 0x6

-- `6 | (7<<29)`
abbrev pub promiscuous_mask : ℕ
promiscuous_mask = bit_or 6 (7 <<< 29)

-- The filter that all boards have without CAN_FILTERS_ENABLED.
abbrev pub promiscuous_filter : Filter
promiscuous_filter = record { number = 0; id = 0; mask = promiscuous_mask }

abbrev exact_filter : ℕ → ℕ → Filter
exact_filter number id = record { number = number; id = u32 (id <<< 21); mask = exact_mask }

-- The filters that `can_set_filters` initialises, with and without CAN_FILTERS_ENABLED.
unfoldable pub can_set_filters : Bool → ℕ → List Filter
can_set_filters can_filters_enabled id =
    if can_filters_enabled
    then exact_filter 1 0x080
      ∷ exact_filter 2 0x000
      ∷ exact_filter 3 (bit_or id id_start_mask)
      ∷ exact_filter 4 id
      ∷ []
    else promiscuous_filter ∷ []

-- The filter master register behind it: `CAN_FMR &= ~mask; CAN_FMR |= bank << 8`, where the mask is
-- libopencm3's, and the bank is 0 for CAN2 and 27 for CAN1.
unfoldable pub start_bank : Bool → ℕ → ℕ → ℕ
start_bank use_can2 can2sb_mask fmr =
    bit_or (bit_and fmr (2 ^ 32 - 1 - can2sb_mask)) ((if use_can2 then 0 else 27) <<< 8)

-- ===== src/Flash/Stm32f4/Flags.antt =====
-- flash_sector_is_erased of the STM32F4: what the flags say of the flash memory.
use mathlib.Core.Path.{subst}
use cvra_bootloader.Prelude.{
  dec_lt, ℕ_discrete, ℕ, zero, suc, ◌+◌, ◌≤◌, ◌<◌, ◌≡◌, ◌≢◌, ◌⊎◌, inl, inr, refl, sym, ◌∙◌, Bool,
  true, false, not, Bool-cases, List, Option, none, some, length, arith, ltb, leb, if◌then◌else◌,
}
use cvra_bootloader.Prelude.Words.{u32}
use cvra_bootloader.Flash.Stm32f4.{
  Hardware, Writer, Marking, marked, given_up, unfinished, flagged, flash_address_is_valid,
  flash_get_sector_size, flash_address_to_sector, flash_writer_unlock, flash_writer_lock,
  flash_writer_page_erase, mark_sectors, flash_writer_page_write, program_marked,
}
use cvra_bootloader.Flash.Stm32f4.Sectors.{
  sector_start, sector_size, InSector, sectors_in_order, sector_end, sector_of_address,
}

abbrev flags_of : Marking → ℕ → Bool
flags_of (marked flags) = flags
flags_of (given_up flags) = flags
flags_of (unfinished flags) = flags

-- When the loop comes to its end, the flag of the sector is cleared.
abbrev IsCleared : ℕ → Marking → Type 0
IsCleared n (marked flags) = flags n ≡ false
IsCleared n (given_up flags) = Unit
IsCleared n (unfinished flags) = Unit

unflagged : (flags : ℕ → Bool) (sector n : ℕ) → flagged flags sector false n ≡ true → flags n ≡ true
unflagged flags sector n f = ground arith

-- The three tests of the loop body, with what follows for each.
module _ (P : Marking → Type 0) (flags flags' : ℕ → Bool) (rest : Marking) where
  round_cases :
      (a b c : Bool)
      → (a ≡ true → P (marked flags))
      → (a ≡ false → b ≡ true → P (given_up flags))
      → (a ≡ false → b ≡ false → c ≡ true → P rest)
      → (a ≡ false → b ≡ false → c ≡ false → P (given_up flags'))
      → P (
          if a
          then marked flags
          else if b
          then given_up flags
          else if c
          then rest
          else given_up flags')
  round_cases true b c end out more stop = end refl
  round_cases false true c end out more stop = out refl refl
  round_cases false false true end out more stop = more refl refl refl
  round_cases false false false end out more stop = stop refl refl refl

module _ (h : Hardware) where
  -- The loop sets no flag.
  marking-clears :
      (fuel : ℕ) (flags : ℕ → Bool) (a stop n : ℕ)
      → flags_of (mark_sectors h fuel flags a stop) n ≡ true
      → flags n ≡ true
  unfolding mark_sectors
  marking-clears zero flags a stop n = elim (Bool-cases (ltb a stop)) [
    | inl l ↦ rw l (λ e. e)
    | inr l ↦ rw l (λ e. e)
  ]
  marking-clears (suc fuel) flags a stop n =
      let sector = flash_address_to_sector h a in
      let flags' = flagged flags sector false in
      let a' = u32 (a + flash_get_sector_size h a) in
      let rest = mark_sectors h fuel flags' a' stop in
      round_cases (λ m. flags_of m n ≡ true → flags n ≡ true) flags flags' rest (not (ltb a stop))
        (leb h.flash_sector_index_max sector) (flash_address_is_valid h a') (λ x e. e) (λ x y e. e)
        (λ x y z e. unflagged flags sector n (marking-clears fuel flags' a' stop n e))
        (λ x y z e. unflagged flags sector n e)

  no_flag-IsCleared : (m : Marking) (n : ℕ) → ((flags_of m n ≡ true) → ⊥) → IsCleared n m
  no_flag-IsCleared (marked flags) n no_flag = ground (arith, no_flag)
  no_flag-IsCleared (given_up flags) n no_flag = tt
  no_flag-IsCleared (unfinished flags) n no_flag = tt

  marking-IsCleared :
      (fuel : ℕ) (flags : ℕ → Bool) (a stop : ℕ)
      → 0 < fuel
      → a < stop
      → IsCleared (flash_address_to_sector h a) (mark_sectors h fuel flags a stop)
  unfolding mark_sectors
  marking-IsCleared zero flags a stop nonempty l = absurd (omega arith)
  marking-IsCleared (suc fuel) flags a stop nonempty l =
      let sector = flash_address_to_sector h a in
      let flags' = flagged flags sector false in
      let a' = u32 (a + flash_get_sector_size h a) in
      let rest = mark_sectors h fuel flags' a' stop in
      round_cases (λ m. IsCleared sector m) flags flags' rest (not (ltb a stop))
        (leb h.flash_sector_index_max sector) (flash_address_is_valid h a')
        (λ x. absurd (ground arith)) (λ x y. tt)
        (λ x y z.
          no_flag-IsCleared rest sector
            λ f. absurd (ground (arith, marking-clears fuel flags' a' stop sector f)))
        (λ x y z. tt)

module _ (h : Hardware) (byte_at : h.Hw → ℕ → ℕ) where
  -- The flash memory of the reference manual: an erasure without an error takes a whole sector, no
  -- erasure touches another sector, and a programming touches only its own bytes.
  pub record IsFlash : Type 0 where
    pub unlock_same : (s : h.Hw) (x : ℕ) → byte_at (h.flash_unlock s) x ≡ byte_at s x
    pub lock_same : (s : h.Hw) (x : ℕ) → byte_at (h.flash_lock s) x ≡ byte_at s x
    pub erase_erases :
        (s : h.Hw) (n x : ℕ)
        → (h.flash_erase_sector s n).0 ≡ true
        → InSector n x
        → byte_at (h.flash_erase_sector s n).1 x ≡ 0xff
    pub erase_apart :
        (s : h.Hw) (n x : ℕ) → ¬ InSector n x → byte_at (h.flash_erase_sector s n).1 x ≡ byte_at s x
    pub program_apart :
        (s : h.Hw) (a : ℕ) (bytes : List ℕ) (x : ℕ)
        → x < a ⊎ a + length bytes ≤ x
        → byte_at (h.flash_program s a bytes) x ≡ byte_at s x

  -- A sector with its flag set holds nothing but 0xFF.
  abbrev pub AreSound : Writer h → Type 0
  AreSound w =
      (n : ℕ) → w.flash_sector_is_erased n ≡ true → (x : ℕ) → InSector n x → byte_at w.hw x ≡ 0xff

  abbrev pub OnSome : Option (Writer h) → Type 0
  OnSome none = Unit
  OnSome (some w) = AreSound w

  module _ (k : IsFlash) where
    pub unlock-AreSound : (w : Writer h) → AreSound w → AreSound (flash_writer_unlock h w)
    unfolding flash_writer_unlock
    unlock-AreSound w sound n f x i = k.unlock_same w.hw x ∙ sound n f x i

    pub lock-AreSound : (w : Writer h) → AreSound w → AreSound (flash_writer_lock h w)
    unfolding flash_writer_lock
    lock-AreSound w sound n f x i = k.lock_same w.hw x ∙ sound n f x i

    -- Another sector's bytes are not touched by an erasure.
    sector-apart : (n m x : ℕ) → InSector n x → m ≢ n → ¬ InSector m x
    sector-apart n m x i ne i' = elim (dec_lt n m) [
      | yes l ↦ absurd (omega (arith, sectors_in_order n m l, i, i'))
      | no nl ↦
          let l : m < n = omega (arith, nl, ne) in
          absurd (omega (arith, sectors_in_order m n l, i, i'))
    ]

    -- After the erasure of a sector, with its flag or without.
    erased_sound :
        (w : Writer h) (m : ℕ)
        → AreSound w
        → w.flash_sector_is_erased m ≡ false
        → AreSound (record w { hw = (h.flash_erase_sector w.hw m).1 })
    erased_sound w m sound clear n f x i =
        k.erase_apart w.hw m x (sector-apart n m x i (λ e. absurd (ground (arith, e, f, clear))))
        ∙ sound n f x i

    set_sound :
        (w : Writer h) (m : ℕ)
        → AreSound w
        → w.flash_sector_is_erased m ≡ false
        → (h.flash_erase_sector w.hw m).0 ≡ true
        → AreSound (record {
          hw = (h.flash_erase_sector w.hw m).1;
          flash_sector_is_erased = flagged w.flash_sector_is_erased m true;
        })
    set_sound w m sound clear good n f x i = elim (ℕ_discrete n m) [
      | yes e ↦ k.erase_erases w.hw m x good (subst (λ j. InSector j x) e i)
      | no ne ↦ erased_sound w m sound clear n (ground (arith, f, ne)) x i
    ]

    -- The flags stay sound under an erasure, of any address, with or without an error of the hardware.
    pub page_erase-AreSound :
        (w : Writer h) (page : ℕ) → AreSound w → OnSome (flash_writer_page_erase h w page)
    unfolding flash_writer_page_erase
    page_erase-AreSound w page sound =
        let n = flash_address_to_sector h page in
        elim (Bool-cases (flash_address_is_valid h page)) [
          | inr v ↦ rw v sound
          | inl v ↦ elim (Bool-cases (leb h.flash_sector_index_max n)) [
            | inl l ↦ rw (v, l) tt
            | inr l ↦ elim (Bool-cases (w.flash_sector_is_erased n)) [
              | inl f ↦ rw (v, l, f) sound
              | inr f ↦ elim (Bool-cases (h.flash_erase_sector w.hw n).0) [
                | inl good ↦ rw (v, l, f, good) (set_sound w n sound f good)
                | inr bad ↦ rw (v, l, f, bad) (erased_sound w n sound f)
              ]
            ]
          ]
        ]

    marked_sound :
        (w : Writer h) (page n : ℕ) (bytes : List ℕ) (m : Marking)
        → AreSound w
        → InSector n page
        → page + length bytes ≤ sector_start n + sector_size n
        → ((j : ℕ) → flags_of m j ≡ true → w.flash_sector_is_erased j ≡ true)
        → (0 < length bytes → IsCleared n m)
        → AreSound (program_marked h w page bytes m)
    marked_sound w page n bytes (marked flags) sound i inside clears cleared j f x i' =
        k.program_apart w.hw page bytes x (beside (ℕ_discrete j n)) ∙ sound j (clears j f) x i'
      where
        beside : Dec (j ≡ n) → x < page ⊎ page + length bytes ≤ x
        beside (yes e) = elim (dec_lt 0 (length bytes)) [
          | yes l ↦ absurd (ground (arith, cleared l, f, e))
          | no nl ↦ elim (dec_lt x page) [ yes l ↦ inl l | no nl' ↦ inr (omega (arith, nl, nl')) ]
        ]
        beside (no ne) = elim (dec_lt x page) [
          | yes l ↦ inl l
          | no nl ↦ elim (dec_lt x (page + length bytes)) [
            | yes l ↦
                let here : InSector n x = (omega (arith, nl, i), omega (arith, l, inside)) in
                absurd (sector-apart j n x i' (λ e. ne (sym e)) here)
            | no nl' ↦ inr (omega (arith, nl'))
          ]
        ]
    marked_sound w page n bytes (given_up flags) sound i inside clears cleared j f x i' =
        sound j (clears j f) x i'
    marked_sound w page n bytes (unfinished flags) sound i inside clears cleared j f x i' =
        sound j (clears j f) x i'

    -- The flags stay sound under a write that stays in one sector of the first bank. Flash
    -- memory does not begin below 0x08000000.
    pub page_write-AreSound :
        (w : Writer h) (page : ℕ) (bytes : List ℕ)
        → 0x08000000 ≤ h.flash_begin
        → page < 0x08100000
        → page + length bytes
          ≤ sector_start (flash_address_to_sector h page)
            + sector_size (flash_address_to_sector h page)
        → AreSound w
        → AreSound (flash_writer_page_write h w page bytes)
    unfolding flash_writer_page_write
    page_write-AreSound w page bytes from below inside sound =
        let n = flash_address_to_sector h page in
        let stop = u32 (page + length bytes) in
        elim (Bool-cases (flash_address_is_valid h page)) [
          | inr v ↦ rw v sound
          | inl v ↦ elim (Bool-cases (flash_address_is_valid h stop)) [
            | inr v' ↦ rw (v, v') sound
            | inl v' ↦
                let (i, few, size) = sector_of_address h from page v below in
                let last = sector_end n few in
                let near : 0 < length bytes → page < stop =
                  λ nonempty. omega (arith, nonempty, inside, last) in
                rw (v, v')
                  (marked_sound w page n bytes _ sound i inside
                    (λ j f. marking-clears h (length bytes) w.flash_sector_is_erased page stop j f)
                    (λ nonempty.
                      marking-IsCleared h (length bytes) w.flash_sector_is_erased page stop nonempty
                        (near nonempty)))
          ]
        ]

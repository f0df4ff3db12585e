-- ===== src/Command/PowerCut.antt =====
-- command_config_write_to_flash under a loss of power: the order in which it updates the two
-- configuration pages.
use cvra_bootloader.Prelude.{
  ℕ, zero, suc, ◌+◌, ◌≤◌, ◌<◌, ◌≡◌, ◌⊎◌, inl, inr, refl, ap₂, ◌∙◌, Bool, true, ◌&&◌, List, [], ◌∷◌,
  length, arith, and_comm, Bool-cases,
}
use cvra_bootloader.Platform.{Platform, FlashWriter, read_bytes}
use cvra_bootloader.Config.{config_is_valid}
use cvra_bootloader.Command.Settings.{write_pages_in_turn, write_config_pages}

-- The bytes of two memories agree on an area.
abbrev pub SameArea : (ℕ → ℕ) → (ℕ → ℕ) → ℕ → ℕ → Type 0
SameArea at at' a n = (i : ℕ) → i < n → at' (a + i) ≡ at (a + i)

-- They read the same there.
pub read_bytes-same :
    (at at' : ℕ → ℕ) (n a : ℕ) → SameArea at at' a n → read_bytes at' a n ≡ read_bytes at a n
unfolding read_bytes
read_bytes-same at at' zero a h = refl
read_bytes-same at at' (suc n) a h =
    let here : at' a ≡ at a = ground (arith, h 0 (omega arith)) in
    ap₂ ◌∷◌ here (
      read_bytes-same at at' n (a + 1)
        λ i l. let e : a + 1 + i ≡ a + suc i = omega arith in rw e (h (suc i) (omega arith)))

-- The platform with a flash writer that also writes down, latest first, every erasure and write: its
-- address, and the flash memory that it finds.
module _ (p : Platform) where
  pub record Logged : Type 0 where
    pub hw : p.Flash
    pub log : List (ℕ × p.Flash)

  abbrev pub logged_writer : FlashWriter
  logged_writer = record {
    Flash = Logged;
    byte_at = λ s. p.byte_at s.hw;
    unlock = λ s. record s { hw = p.unlock s.hw };
    lock = λ s. record s { hw = p.lock s.hw };
    page_erase = λ s a. record { hw = p.page_erase s.hw a; log = (a, s.hw) ∷ s.log };
    page_write = λ s a bytes. record { hw = p.page_write s.hw a bytes; log = (a, s.hw) ∷ s.log };
  }

  abbrev pub logged : Platform
  logged = record p { flash_writer = logged_writer }

  abbrev pub page_is_valid : p.Flash → ℕ → Bool
  page_is_valid s a = config_is_valid p s a p.config_page_size

  -- The hardware: an erasure or a write of a page's length at one page leaves the other one alone.
  pub record Apart (page other : ℕ) : Type 0 where
    pub erase_apart :
        (s : p.Flash)
        → SameArea (p.byte_at s) (p.byte_at (p.page_erase s page)) other p.config_page_size
    pub write_apart :
        (s : p.Flash) (bytes : List ℕ)
        → length bytes ≤ p.config_page_size
        → SameArea (p.byte_at s) (p.byte_at (p.page_write s page bytes)) other p.config_page_size

  -- And the lock is no memory.
  pub record Separate : Type 0 where
    pub apart12 : Apart p.config1_addr p.config2_addr
    pub apart21 : Apart p.config2_addr p.config1_addr
    pub unlock_same : (s : p.Flash) (a : ℕ) → p.byte_at (p.unlock s) a ≡ p.byte_at s a
    pub lock_same : (s : p.Flash) (a : ℕ) → p.byte_at (p.lock s) a ≡ p.byte_at s a

  -- An operation on one configuration page that finds the other one valid.
  abbrev pub IsCovered : ℕ × p.Flash → Type 0
  IsCovered (a, before) =
      ((a ≡ p.config1_addr) × (page_is_valid before p.config2_addr ≡ true))
      ⊎ ((a ≡ p.config2_addr) × (page_is_valid before p.config1_addr ≡ true))

  abbrev pub AllCovered : List (ℕ × p.Flash) → Type 0
  AllCovered [] = Unit
  AllCovered (e ∷ es) = IsCovered e × AllCovered es

  page_is_valid-same :
      (s s' : p.Flash) (a : ℕ)
      → SameArea (p.byte_at s) (p.byte_at s') a p.config_page_size
      → page_is_valid s' a ≡ page_is_valid s a
  unfolding config_is_valid
  page_is_valid-same s s' a h =
      rw (read_bytes-same (p.byte_at s) (p.byte_at s') p.config_page_size a h)

  -- A page after flash_write_and_verify, and the log of it.
  abbrev pub rewritten : p.Flash → ℕ → List ℕ → p.Flash
  rewritten s a page = p.lock (p.page_write (p.page_erase (p.unlock s) a) a page)

  valid_logged :
      (s : Logged) (a : ℕ) → config_is_valid logged s a p.config_page_size ≡ page_is_valid s.hw a
  unfolding config_is_valid
  valid_logged s a = refl

  module _ (sep : Separate) (page : List ℕ) (fits : length page ≤ p.config_page_size) where
    unlocked-valid : (s : p.Flash) (a : ℕ) → page_is_valid (p.unlock s) a ≡ page_is_valid s a
    unlocked-valid s a = page_is_valid-same s (p.unlock s) a λ i l. sep.unlock_same s (a + i)

    module _ (a other : ℕ) (apart : Apart a other) where
      erased-valid :
          (s : p.Flash) → page_is_valid (p.page_erase (p.unlock s) a) other ≡ page_is_valid s other
      erased-valid s =
          page_is_valid-same (p.unlock s) (p.page_erase (p.unlock s) a) other
            (apart.erase_apart (p.unlock s))
          ∙ unlocked-valid s other

      rewritten-valid :
          (s : p.Flash) → page_is_valid (rewritten s a page) other ≡ page_is_valid s other
      rewritten-valid s =
          let erased = p.page_erase (p.unlock s) a in
          let written = p.page_write erased a page in
          page_is_valid-same written (p.lock written) other
            (λ i l. sep.lock_same written (other + i))
          ∙ page_is_valid-same erased written other (apart.write_apart erased page fits)
          ∙ erased-valid s

    -- One page after the other, starting with `a`, when the other page is valid.
    module _ (a other : ℕ) (ab : Apart a other) (ba : Apart other a)
        (cover : (s : p.Flash) → page_is_valid s other ≡ true → IsCovered (a, s))
        (cover' : (s : p.Flash) → page_is_valid s a ≡ true → IsCovered (other, s)) where
      -- The state that write_pages_in_turn returns, and what is valid in it.
      abbrev InTurn : Bool × Logged → Type 0
      InTurn (success, t) =
          AllCovered t.log
          × ((page_is_valid t.hw a ≡ true) ⊎ (page_is_valid t.hw other ≡ true))
          × (success ≡ (page_is_valid t.hw a && page_is_valid t.hw other))

      in_turn :
          (s : p.Flash)
          → page_is_valid s other ≡ true
          → InTurn (write_pages_in_turn logged (record { hw = s; log = [] }) a other page)
      unfolding write_pages_in_turn
      in_turn s valid =
          let s' = rewritten s a page in
          let log : List (ℕ × p.Flash) = (a, p.page_erase (p.unlock s) a) ∷ (a, p.unlock s) ∷ [] in
          let s'' = rewritten s' other page in
          let log' : List (ℕ × p.Flash) =
            (other, p.page_erase (p.unlock s') other) ∷ (other, p.unlock s') ∷ log in
          let kept = rewritten-valid a other ab s ∙ valid in
          let idle = cover (p.unlock s) (unlocked-valid s other ∙ valid) in
          let erased = cover (p.page_erase (p.unlock s) a) (erased-valid a other ab s ∙ valid) in
          rw (valid_logged (record { hw = s'; log = log }) a)
            (elim (Bool-cases (page_is_valid s' a)) [
              | inl y ↦
                  let kept' = rewritten-valid other a ba s' ∙ y in
                  let idle' = cover' (p.unlock s') (unlocked-valid s' a ∙ y) in
                  let erased' =
                    cover' (p.page_erase (p.unlock s') other) (erased-valid other a ba s' ∙ y) in
                  rw (y, valid_logged (record { hw = s''; log = log' }) other, kept')
                    ((erased', (idle', (erased, (idle, tt)))), inl refl, refl)
              | inr n ↦ rw n ((erased, (idle, tt)), inr kept, rw n refl)
            ])

    -- When one of the two configuration pages holds a valid configuration, the update of both erases
    -- and programs a page only while the other one is valid, and leaves at least one of them valid; it
    -- reports success exactly when both are valid at its end.
    -- The conditions: the hardware keeps the two pages apart, and the new page fits.
    pub power_cut_safe :
        (s : p.Flash)
        → (page_is_valid s p.config1_addr ≡ true) ⊎ (page_is_valid s p.config2_addr ≡ true)
        → let (success, t) = write_config_pages logged (record { hw = s; log = [] }) page in
          AllCovered t.log
          × ((page_is_valid t.hw p.config1_addr ≡ true)
              ⊎ (page_is_valid t.hw p.config2_addr ≡ true))
          × (success ≡ (page_is_valid t.hw p.config1_addr && page_is_valid t.hw p.config2_addr))
    unfolding write_config_pages
    power_cut_safe s valid =
        let start : Logged = record { hw = s; log = [] } in
        rw (valid_logged start p.config2_addr) (elim (Bool-cases (page_is_valid s p.config2_addr)) [
          | inl y ↦ rw y (
              in_turn p.config1_addr p.config2_addr sep.apart12 sep.apart21 (λ t v. inl (refl, v))
                (λ t v. inr (refl, v)) s y)
          | inr n ↦
              let y : page_is_valid s p.config1_addr ≡ true = elim valid [
                | inl y ↦ y
                | inr v ↦ absurd (ground (arith, v, n))
              ] in
              let (logs, one, both) =
                in_turn p.config2_addr p.config1_addr sep.apart21 sep.apart12 (λ t v. inr (refl, v))
                  (λ t v. inl (refl, v)) s y in
              rw (n, valid_logged start p.config1_addr, y)
                (logs, elim one [ inl v ↦ inr v | inr v ↦ inl v ], search (both, and_comm, ◌∙◌))
        ])

-- ===== src/Flash/Stm32f1/Configured.antt =====
-- The core on the flash writer of the STM32F1 and STM32F3: the update of the configuration pages.
use mathlib.Core.Path.{subst}
use cvra_bootloader.Prelude.{
  ℕ, ◌+◌, ◌%◌, ◌≤◌, ◌<◌, ◌^◌, ◌≡◌, ◌⊎◌, inl, inr, refl, sym, ap, ◌∙◌, Bool, true, Bool-cases, List,
  length, arith,
}
use cvra_bootloader.Prelude.Words.{AllBytes}
use cvra_bootloader.Platform.{Platform, FlashWriter, read_bytes}
use cvra_bootloader.Config.{Config, config_write, config_is_valid}
use cvra_bootloader.Config.Page.{config_write-config_is_valid}
use cvra_bootloader.Command.Settings.{write_pages_in_turn, write_config_pages}
use cvra_bootloader.Command.PowerCut.{read_bytes-same}
use cvra_bootloader.Flash.Stm32f1.{
  Hardware, flash_writer_unlock, flash_writer_lock, flash_writer_page_erase,
  flash_writer_page_write,
}
use cvra_bootloader.Flash.Stm32f1.Programmed.{IsFlash}
use cvra_bootloader.Flash.Stm32f1.Pages.{IsPage, rewritten, rewritten_lem}

-- flash_writer.h filled by the writer.
abbrev pub stm32f1_writer : Hardware → FlashWriter
stm32f1_writer h = record {
  Flash = h.Hw;
  byte_at = h.byte_at;
  unlock = flash_writer_unlock h;
  lock = flash_writer_lock h;
  page_erase = flash_writer_page_erase h;
  page_write = flash_writer_page_write h;
}

abbrev pub on_stm32f1 : Platform → Hardware → Platform
on_stm32f1 p h = record p { flash_writer = stm32f1_writer h }

module _ (p : Platform) (h : Hardware) (k : IsFlash h p.config_page_size) where
  abbrev reads : h.Hw → ℕ → List ℕ
  reads s a = read_bytes (h.byte_at s) a p.config_page_size

  -- The result of an update of both pages: success, both pages with the new content, and nothing else
  -- changed.
  abbrev pub IsSaved : h.Hw → List ℕ → Bool × h.Hw → Type 0
  IsSaved s page (success, s') =
      (success ≡ true)
      × (reads s' p.config1_addr ≡ page)
      × (reads s' p.config2_addr ≡ page)
      × ((x : ℕ)
          → x < p.config1_addr ⊎ p.config1_addr + p.config_page_size ≤ x
          → x < p.config2_addr ⊎ p.config2_addr + p.config_page_size ≤ x
          → h.byte_at s' x ≡ h.byte_at s x)

  module _ (some : 0 < p.config_page_size) (even : p.config_page_size % 2 ≡ 0) (page : List ℕ)
      (full : length page ≡ p.config_page_size) (all : AllBytes page) (buffer : List ℕ)
      (config : Config) (n : ℕ) (made : page ≡ config_write (on_stm32f1 p h) buffer config n)
      (crc : (init : ℕ) (bytes : List ℕ) → p.crc32 init bytes < 2 ^ 32) where
    one_page :
        (s : h.Hw) (a : ℕ)
        → IsPage h p.config_page_size k a
        → p.flash_begin ≤ a
        → a ≤ p.flash_end
        → (config_is_valid
              (on_stm32f1 p h)
              (rewritten h p.config_page_size k s a page)
              a
              p.config_page_size
            ≡ true)
          × (reads (rewritten h p.config_page_size k s a page) a ≡ page)
          × ((x : ℕ)
              → x < a ⊎ a + p.config_page_size ≤ x
              → h.byte_at (rewritten h p.config_page_size k s a page) x ≡ h.byte_at s x)
    one_page s a i lo hi =
        let t = rewritten h p.config_page_size k s a page in
        let (here, rest, out) =
          rewritten_lem h p.config_page_size k s a page i some even (omega (arith, full)) all in
        let here' : reads t a ≡ page = ap (read_bytes (h.byte_at t) a) (sym full) ∙ here in
        let valid : config_is_valid (on_stm32f1 p h) t a p.config_page_size ≡ true =
          config_write-config_is_valid (on_stm32f1 p h) buffer config n p.config_page_size a t crc
            lo hi (here' ∙ made) in
        (valid, here', out)

    -- Two pages in turn.
    abbrev IsBoth : h.Hw → ℕ → ℕ → h.Hw → Type 0
    IsBoth s a b s' =
        (reads s' a ≡ page)
        × (reads s' b ≡ page)
        × ((x : ℕ)
            → x < a ⊎ a + p.config_page_size ≤ x
            → x < b ⊎ b + p.config_page_size ≤ x
            → h.byte_at s' x ≡ h.byte_at s x)

    abbrev twice : h.Hw → ℕ → ℕ → h.Hw
    twice s a b =
        rewritten h p.config_page_size k (rewritten h p.config_page_size k s a page) b page

    module _ (a b : ℕ) (i : IsPage h p.config_page_size k a) (j : IsPage h p.config_page_size k b)
        (disjoint : a + p.config_page_size ≤ b ⊎ b + p.config_page_size ≤ a)
        (from_a : p.flash_begin ≤ a) (to_a : a ≤ p.flash_end) (from_b : p.flash_begin ≤ b)
        (to_b : b ≤ p.flash_end) where
      both : (s : h.Hw) → IsBoth s a b (twice s a b)
      both s =
          let t = rewritten h p.config_page_size k s a page in
          let (w, here, out) = one_page s a i from_a to_a in
          let (w', here', out') = one_page t b j from_b to_b in
          (
            read_bytes-same (h.byte_at t) (h.byte_at (twice s a b)) p.config_page_size a
                  (λ m l. out' (a + m) (apart m l))
                ∙ here,
            here',
            λ x xa xb. out' x xb ∙ out x xa,
          )
        where
          apart : (m : ℕ) → m < p.config_page_size → a + m < b ⊎ b + p.config_page_size ≤ a + m
          apart m l = elim disjoint [ inl d ↦ inl (omega arith) | inr d ↦ inr (omega arith) ]

      in_turn : (s : h.Hw) → write_pages_in_turn (on_stm32f1 p h) s a b page ≡ (true, twice s a b)
      unfolding write_pages_in_turn
      in_turn s =
          let t = rewritten h p.config_page_size k s a page in
          rw ((one_page s a i from_a to_a).0, (one_page t b j from_b to_b).0) refl

    module _ (i : IsPage h p.config_page_size k p.config1_addr)
        (j : IsPage h p.config_page_size k p.config2_addr)
        (disjoint : p.config1_addr + p.config_page_size ≤ p.config2_addr
          ⊎ p.config2_addr + p.config_page_size ≤ p.config1_addr)
        (from_1 : p.flash_begin ≤ p.config1_addr) (to_1 : p.config1_addr ≤ p.flash_end)
        (from_2 : p.flash_begin ≤ p.config2_addr) (to_2 : p.config2_addr ≤ p.flash_end) where
      swapped :
          p.config2_addr + p.config_page_size ≤ p.config1_addr
          ⊎ p.config1_addr + p.config_page_size ≤ p.config2_addr
      swapped = elim disjoint [ inl d ↦ inr d | inr d ↦ inl d ]

      first_second : (s : h.Hw) → IsSaved s page (true, twice s p.config1_addr p.config2_addr)
      first_second s =
          let (first, second, out) =
            both p.config1_addr p.config2_addr i j disjoint from_1 to_1 from_2 to_2 s in
          (refl, first, second, out)

      second_first : (s : h.Hw) → IsSaved s page (true, twice s p.config2_addr p.config1_addr)
      second_first s =
          let (second, first, out) =
            both p.config2_addr p.config1_addr j i swapped from_2 to_2 from_1 to_1 s in
          (refl, first, second, λ x x1 x2. out x x2 x1)

      saved : (s : h.Hw) → IsSaved s page (write_config_pages (on_stm32f1 p h) s page)
      unfolding write_config_pages
      saved s =
          let P = on_stm32f1 p h in
          let n' = p.config_page_size in
          let t = rewritten h n' k s p.config1_addr page in
          elim (Bool-cases (config_is_valid P s p.config2_addr n')) [
            | inl y ↦ rw y (
                subst (λ r. IsSaved s page r)
                  (sym
                    (in_turn p.config1_addr p.config2_addr i j disjoint from_1 to_1 from_2 to_2 s))
                  (first_second s))
            | inr n1 ↦ elim (Bool-cases (config_is_valid P s p.config1_addr n')) [
              | inl y ↦
                  rw (n1, y)
                    (subst (λ r. IsSaved s page r)
                      (sym (
                        in_turn p.config2_addr p.config1_addr j i swapped from_2 to_2 from_1 to_1
                          s))
                      (second_first s))
              | inr n2 ↦
                  rw
                    (
                      n1,
                      n2,
                      (one_page s p.config1_addr i from_1 to_1).0,
                      (one_page t p.config2_addr j from_2 to_2).0,
                    )
                    (first_second s)
            ]
          ]

-- Where the linker script has the configuration pages: both in flash memory, apart, at starts of pages
-- of the size that the flash memory has, which is even.
pub record IsLaidOut (p : Platform) (h : Hardware) (k : IsFlash h p.config_page_size) : Type 0 where
  pub some : 0 < p.config_page_size
  pub even : p.config_page_size % 2 ≡ 0
  pub page1 : IsPage h p.config_page_size k p.config1_addr
  pub page2 : IsPage h p.config_page_size k p.config2_addr
  pub disjoint :
      p.config1_addr + p.config_page_size ≤ p.config2_addr
      ⊎ p.config2_addr + p.config_page_size ≤ p.config1_addr
  pub from1 : p.flash_begin ≤ p.config1_addr
  pub to1 : p.config1_addr ≤ p.flash_end
  pub from2 : p.flash_begin ≤ p.config2_addr
  pub to2 : p.config2_addr ≤ p.flash_end

-- On the STM32F1 and STM32F3, and whatever the flash memory holds before, the update of both
-- configuration pages with a page that config_write made succeeds: both pages then read as that page,
-- and no other byte has changed. The conditions: the flash memory works as its manual says, the pages
-- are laid out as IsLaidOut says, and config_write fills a page with bytes under a checksum of 32 bits.
pub write_config_pages-IsSaved :
    (p : Platform) (h : Hardware) (k : IsFlash h p.config_page_size)
    → IsLaidOut p h k
    → (buffer : List ℕ) (config : Config) (n : ℕ)
    → length (config_write (on_stm32f1 p h) buffer config n) ≡ p.config_page_size
    → AllBytes (config_write (on_stm32f1 p h) buffer config n)
    → ((init : ℕ) (bytes : List ℕ) → p.crc32 init bytes < 2 ^ 32)
    → (s : h.Hw)
    → IsSaved p h k s
        (config_write (on_stm32f1 p h) buffer config n)
        (write_config_pages (on_stm32f1 p h) s (config_write (on_stm32f1 p h) buffer config n))
write_config_pages-IsSaved p h k l buffer config n full all crc s =
    saved p h k l.some l.even (config_write (on_stm32f1 p h) buffer config n) full all buffer config
      n refl crc l.page1 l.page2 l.disjoint l.from1 l.to1 l.from2 l.to2 s

-- ===== src/Flash/Stm32f1/Programmed.antt =====
-- What an erasure and a write of the STM32F1 and STM32F3 leave in flash memory.
use cvra_bootloader.Prelude.{
  ℕ, ◌+◌, ◌*◌, ◌/◌, ◌%◌, ◌≤◌, ◌<◌, ◌≡◌, ◌≢◌, refl, ap, ◌∙◌, Bool, true, List, [], ◌∷◌, length,
  arith, bit_or,
}
use cvra_bootloader.Prelude.Words.{u16, ◌<<<◌, AllBytes}
use cvra_bootloader.Prelude.Bits.{bit_or_byte, bit_or_comm}
use cvra_bootloader.Platform.{read_bytes}
use cvra_bootloader.Flash.Stm32f1.{Hardware, flash_write_half_word, write_half_words}

-- PG, a store, and the wait for it.
abbrev pub program : (h : Hardware) → h.Hw → ℕ → ℕ → h.Hw
program h s a v = h.flash_wait_for_last_operation (h.store (h.cr_set s h.flash_cr_pg) a v)

-- PER, the address, STRT, and the wait for it.
abbrev pub erase : (h : Hardware) → h.Hw → ℕ → h.Hw
erase h s page =
    h.flash_wait_for_last_operation
      (h.cr_set (h.ar_write (h.cr_set s h.flash_cr_per) page) h.flash_cr_strt)

module _ (h : Hardware) (page_size : ℕ) where
  -- The procedures of the flash programming manual: a half word is programmed where it is erased, and an
  -- erasure takes a whole page, if the memory is unlocked; nothing else changes the content.
  pub record IsFlash : Type 0 where
    pub is_unlocked : h.Hw → Bool
    pub unlock_unlocks : (s : h.Hw) → is_unlocked (h.flash_unlock s) ≡ true
    pub wait_unlocked : (s : h.Hw) → is_unlocked (h.flash_wait_for_last_operation s) ≡ is_unlocked s
    pub clear_unlocked : (s : h.Hw) → is_unlocked (h.cr_clear s h.flash_cr_per) ≡ is_unlocked s
    pub erase_unlocked : (s : h.Hw) (a : ℕ) → is_unlocked (erase h s a) ≡ is_unlocked s
    pub program_unlocked : (s : h.Hw) (a v : ℕ) → is_unlocked (program h s a v) ≡ is_unlocked s
    pub unlock_same : (s : h.Hw) (x : ℕ) → h.byte_at (h.flash_unlock s) x ≡ h.byte_at s x
    pub lock_same : (s : h.Hw) (x : ℕ) → h.byte_at (h.flash_lock s) x ≡ h.byte_at s x
    pub wait_same :
        (s : h.Hw) (x : ℕ) → h.byte_at (h.flash_wait_for_last_operation s) x ≡ h.byte_at s x
    pub clear_same : (s : h.Hw) (bits x : ℕ) → h.byte_at (h.cr_clear s bits) x ≡ h.byte_at s x
    pub sr_same : (s : h.Hw) (bits x : ℕ) → h.byte_at (h.sr_set s bits) x ≡ h.byte_at s x
    pub erase_erases :
        (s : h.Hw) (a x : ℕ)
        → is_unlocked s ≡ true
        → x / page_size ≡ a / page_size
        → h.byte_at (erase h s a) x ≡ 0xff
    pub erase_apart :
        (s : h.Hw) (a x : ℕ)
        → x / page_size ≢ a / page_size
        → h.byte_at (erase h s a) x ≡ h.byte_at s x
    pub program_programs :
        (s : h.Hw) (a v : ℕ)
        → is_unlocked s ≡ true
        → a % 2 ≡ 0
        → v < 0x10000
        → h.byte_at s a ≡ 0xff
        → h.byte_at s (a + 1) ≡ 0xff
        → (h.byte_at (program h s a v) a ≡ v % 0x100)
          × (h.byte_at (program h s a v) (a + 1) ≡ v / 0x100)
    pub program_apart :
        (s : h.Hw) (a v x : ℕ) → x ≢ a → x ≢ a + 1 → h.byte_at (program h s a v) x ≡ h.byte_at s x

  -- The bytes from `page` on are erased.
  abbrev pub IsErased : h.Hw → ℕ → ℕ → Type 0
  IsErased s page n = (x : ℕ) → page ≤ x → x < page + n → h.byte_at s x ≡ 0xff

  module _ (k : IsFlash) where
    -- A write changes nothing in front of its first byte.
    pub half_words-before :
        (s : h.Hw) (a : ℕ) (bytes : List ℕ) (x : ℕ)
        → x < a
        → h.byte_at (write_half_words h s a bytes) x ≡ h.byte_at s x
    unfolding write_half_words flash_write_half_word
    half_words-before s a [] x l = refl
    half_words-before s a (b ∷ []) x l =
        k.program_apart s a _ x (λ e. absurd (omega (arith, e))) (λ e. absurd (omega (arith, e)))
    half_words-before s a (b ∷ c ∷ bytes) x l =
        half_words-before (program h s a (u16 (bit_or b (c <<< 8)))) (a + 2) bytes x (omega arith)
        ∙ k.program_apart s a _ x (λ e. absurd (omega (arith, e))) (λ e. absurd (omega (arith, e)))

    -- Nor behind the half word of its last byte.
    pub half_words-behind :
        (s : h.Hw) (a : ℕ) (bytes : List ℕ) (x : ℕ)
        → a + length bytes + length bytes % 2 ≤ x
        → h.byte_at (write_half_words h s a bytes) x ≡ h.byte_at s x
    unfolding write_half_words flash_write_half_word
    half_words-behind s a [] x l = refl
    half_words-behind s a (b ∷ []) x l =
        k.program_apart s a _ x (λ e. absurd (omega (arith, e))) (λ e. absurd (omega (arith, e)))
    half_words-behind s a (b ∷ c ∷ bytes) x l =
        half_words-behind (program h s a (u16 (bit_or b (c <<< 8)))) (a + 2) bytes x (omega arith)
        ∙ k.program_apart s a _ x (λ e. absurd (omega (arith, e))) (λ e. absurd (omega (arith, e)))

    half_word : (b c : ℕ) → b < 256 → c < 256 → u16 (bit_or b (c <<< 8)) ≡ c * 256 + b
    half_word b c hb hc = omega (arith, bit_or_comm b (c * 256), bit_or_byte c b hb)

    -- The last byte of an odd number of them, and the byte behind it.
    odd_byte :
        (s : h.Hw) (a b : ℕ)
        → k.is_unlocked s ≡ true
        → a % 2 ≡ 0
        → b < 256
        → IsErased s a 2
        → (h.byte_at (program h s a (u16 (bit_or b (h.byte_at s a <<< 8)))) a ≡ b)
          × (h.byte_at (program h s a (u16 (bit_or b (h.byte_at s a <<< 8)))) (a + 1) ≡ 0xff)
    odd_byte s a b u e hb erased =
        let here : h.byte_at s a ≡ 0xff = erased a (omega arith) (omega arith) in
        let next : h.byte_at s (a + 1) ≡ 0xff = erased (a + 1) (omega arith) (omega arith) in
        let v = u16 (bit_or b (h.byte_at s a <<< 8)) in
        let word : v ≡ 0xff * 256 + b =
          ap (λ c. u16 (bit_or b (c <<< 8))) here ∙ half_word b 0xff hb (omega arith) in
        let (low, high) = k.program_programs s a v u e (omega arith) here next in
        (low ∙ omega (arith, word, hb), high ∙ omega (arith, word, hb))

    IsErased-program :
        (s : h.Hw) (a v m n : ℕ) → n + 2 ≤ m → IsErased s a m → IsErased (program h s a v) (a + 2) n
    IsErased-program s a v m n few erased x l l' =
        k.program_apart s a v x (λ e. absurd (omega (arith, e))) (λ e. absurd (omega (arith, e)))
        ∙ erased x (omega arith) (omega arith)

    pub half_words-read :
        (s : h.Hw) (a : ℕ) (bytes : List ℕ)
        → k.is_unlocked s ≡ true
        → a % 2 ≡ 0
        → AllBytes bytes
        → IsErased s a (length bytes + length bytes % 2)
        → read_bytes (h.byte_at (write_half_words h s a bytes)) a (length bytes) ≡ bytes
    unfolding write_half_words flash_write_half_word read_bytes
    half_words-read s a [] u e all erased = refl
    half_words-read s a (b ∷ []) u e all erased =
        ap (λ y. y ∷ []) (odd_byte s a b u e all.0 erased).0
    half_words-read s a (b ∷ c ∷ bytes) u e all erased =
        let v = u16 (bit_or b (c <<< 8)) in
        let s' = program h s a v in
        let (low, high) =
          k.program_programs s a v u e (omega arith) (erased a (omega arith) (omega arith))
            (erased (a + 1) (omega arith) (omega arith)) in
        let word : v ≡ c * 256 + b = half_word b c all.0 all.1.0 in
        let low' : h.byte_at (write_half_words h s' (a + 2) bytes) a ≡ b =
          half_words-before s' (a + 2) bytes a (omega arith) ∙ low ∙ omega (arith, word, all.0) in
        let high' : h.byte_at (write_half_words h s' (a + 2) bytes) (a + 1) ≡ c =
          half_words-before s' (a + 2) bytes (a + 1) (omega arith)
          ∙ high
          ∙ omega (arith, word, all.0) in
        let rest : read_bytes (h.byte_at (write_half_words h s' (a + 2) bytes)) (a + 2)
              (length bytes)
            ≡ bytes =
          half_words-read s' (a + 2) bytes (k.program_unlocked s a v ∙ u) (omega arith) all.1.1
            (IsErased-program s a v _ (length bytes + length bytes % 2) (omega arith) erased) in
        let two : a + 1 + 1 ≡ a + 2 = omega arith in rw (two, low', high', rest) refl

    pub half_words-adjacent :
        (s : h.Hw) (a : ℕ) (bytes : List ℕ) (x : ℕ)
        → k.is_unlocked s ≡ true
        → a % 2 ≡ 0
        → AllBytes bytes
        → IsErased s a (length bytes + length bytes % 2)
        → a + length bytes ≤ x
        → x < a + length bytes + length bytes % 2
        → h.byte_at (write_half_words h s a bytes) x ≡ 0xff
    unfolding write_half_words flash_write_half_word
    half_words-adjacent s a [] x u e all erased l l' = absurd (omega arith)
    half_words-adjacent s a (b ∷ []) x u e all erased l l' =
        let (low, high) = odd_byte s a b u e all.0 erased in
        let at : x ≡ a + 1 = omega arith in rw at high
    half_words-adjacent s a (b ∷ c ∷ bytes) x u e all erased l l' =
        let s' = program h s a (u16 (bit_or b (c <<< 8))) in
        half_words-adjacent s' (a + 2) bytes x (k.program_unlocked s a _ ∙ u) (omega arith) all.1.1
          (IsErased-program s a (u16 (bit_or b (c <<< 8))) _ (length bytes + length bytes % 2)
            (omega arith) erased)
          (omega arith) (omega arith)

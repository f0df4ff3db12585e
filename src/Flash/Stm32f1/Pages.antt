-- ===== src/Flash/Stm32f1/Pages.antt =====
-- A page that the STM32F1 and STM32F3 erase and write.
use mathlib.Core.Path.{fun_ext}
use native.Mathlib.Nat.{div-eq_of_lt-le, div-mul-le_self, lt-div-mul-add, mul-div_left}
use cvra_bootloader.Prelude.{
  ℕ, ◌+◌, ◌*◌, ◌/◌, ◌%◌, ◌≤◌, ◌<◌, ◌≡◌, ◌≢◌, ◌⊎◌, inl, inr, sym, ap, ◌∙◌, true, List, length, arith,
  dec_lt,
}
use cvra_bootloader.Prelude.Words.{AllBytes}
use cvra_bootloader.Platform.{read_bytes}
use cvra_bootloader.Flash.Stm32f1.{
  Hardware, flash_writer_unlock, flash_writer_lock, flash_writer_page_erase, write_half_words,
  flash_writer_page_write,
}
use cvra_bootloader.Flash.Stm32f1.Programmed.{
  IsFlash, IsErased, half_words-before, half_words-behind, half_words-adjacent, half_words-read,
}

module _ (h : Hardware) (page_size : ℕ) (k : IsFlash h page_size) where
  -- The start of a page, which is even.
  pub record IsPage (page : ℕ) : Type 0 where
    pub number : ℕ
    pub start : page ≡ number * page_size
    pub even : page % 2 ≡ 0

  -- The erasure of a page and a write from its start on, between unlock and lock.
  abbrev pub rewritten : h.Hw → ℕ → List ℕ → h.Hw
  rewritten s page bytes = flash_writer_lock h (
      flash_writer_page_write h (flash_writer_page_erase h (flash_writer_unlock h s) page) page
        bytes)

  erased-unlocked :
      (s : h.Hw) (page : ℕ)
      → k.is_unlocked (flash_writer_page_erase h (flash_writer_unlock h s) page) ≡ true
  unfolding flash_writer_page_erase flash_writer_unlock
  erased-unlocked s page =
      k.clear_unlocked _
      ∙ k.erase_unlocked _ page
      ∙ k.wait_unlocked (h.flash_unlock s)
      ∙ k.unlock_unlocks s

  pub page_erase-apart :
      (s : h.Hw) (page x : ℕ)
      → x / page_size ≢ page / page_size
      → h.byte_at (flash_writer_page_erase h s page) x ≡ h.byte_at s x
  unfolding flash_writer_page_erase
  page_erase-apart s page x apart =
      k.clear_same _ _ x
      ∙ k.erase_apart (h.flash_wait_for_last_operation s) page x apart
      ∙ k.wait_same s x

  page_erase-erases :
      (s : h.Hw) (page x : ℕ)
      → x / page_size ≡ page / page_size
      → h.byte_at (flash_writer_page_erase h (flash_writer_unlock h s) page) x ≡ 0xff
  unfolding flash_writer_page_erase flash_writer_unlock
  page_erase-erases s page x same =
      k.clear_same _ _ x
      ∙ k.erase_erases (h.flash_wait_for_last_operation (h.flash_unlock s)) page x
          (k.wait_unlocked (h.flash_unlock s) ∙ k.unlock_unlocks s) same

  pub page_write-half_words :
      (s : h.Hw) (page : ℕ) (bytes : List ℕ) (x : ℕ)
      → h.byte_at (flash_writer_page_write h s page bytes) x
        ≡ h.byte_at (write_half_words h (h.flash_wait_for_last_operation s) page bytes) x
  unfolding flash_writer_page_write
  page_write-half_words s page bytes x = k.sr_same _ _ x ∙ k.clear_same _ _ x

  page-number : (page : ℕ) (i : IsPage page) → 0 < page_size → page / page_size ≡ i.number
  page-number page i some = ap (λ y. y / page_size) i.start ∙ mul-div_left i.number some

  same_page :
      (page x : ℕ)
      → IsPage page
      → 0 < page_size
      → page ≤ x
      → x < page + page_size
      → x / page_size ≡ page / page_size
  same_page page x i some l l' =
      div-eq_of_lt-le page_size (omega (arith, i.start)) (omega (arith, i.start))
      ∙ sym (page-number page i some)

  pub other_page :
      (page x : ℕ)
      → IsPage page
      → 0 < page_size
      → x < page ⊎ page + page_size ≤ x
      → x / page_size ≢ page / page_size
  other_page page x i some out same =
      let e : x / page_size ≡ i.number = same ∙ page-number page i some in
      let from : i.number * page_size ≤ x = rw (sym e) (div-mul-le_self x page_size) in
      let to : x < i.number * page_size + page_size = rw (sym e) (lt-div-mul-add some) in
      absurd (omega (arith, out, from, to, i.start))

  rewritten-half_words :
      (s : h.Hw) (page : ℕ) (bytes : List ℕ) (x : ℕ)
      → h.byte_at (rewritten s page bytes) x
        ≡ h.byte_at
            (write_half_words h
              (h.flash_wait_for_last_operation
                (flash_writer_page_erase h (flash_writer_unlock h s) page))
              page
              bytes)
            x
  unfolding flash_writer_lock
  rewritten-half_words s page bytes x = k.lock_same _ x ∙ page_write-half_words _ page bytes x

  -- What the erasure leaves alone.
  fresh-apart :
      (s : h.Hw) (page x : ℕ)
      → IsPage page
      → 0 < page_size
      → x < page ⊎ page + page_size ≤ x
      → h.byte_at
          (h.flash_wait_for_last_operation
            (flash_writer_page_erase h (flash_writer_unlock h s) page))
          x
        ≡ h.byte_at s x
  unfolding flash_writer_unlock
  fresh-apart s page x i some out =
      k.wait_same _ x
      ∙ page_erase-apart (h.flash_unlock s) page x (other_page page x i some out)
      ∙ k.unlock_same s x

  behind_or_adjacent :
      (s' : h.Hw) (page : ℕ) (bytes : List ℕ) (x : ℕ)
      → k.is_unlocked s' ≡ true
      → page % 2 ≡ 0
      → AllBytes bytes
      → IsErased h page_size s' page (length bytes + length bytes % 2)
      → h.byte_at s' x ≡ 0xff
      → page + length bytes ≤ x
      → h.byte_at (write_half_words h s' page bytes) x ≡ 0xff
  behind_or_adjacent s' page bytes x u even all erased blank l =
      elim (dec_lt x (page + length bytes + length bytes % 2)) [
        | yes l' ↦ half_words-adjacent h page_size k s' page bytes x u even all erased l l'
        | no n ↦ half_words-behind h page_size k s' page bytes x (omega (arith, n)) ∙ blank
      ]

  outside :
      (s' : h.Hw) (page : ℕ) (bytes : List ℕ) (x : ℕ)
      → page_size % 2 ≡ 0
      → length bytes ≤ page_size
      → x < page ⊎ page + page_size ≤ x
      → h.byte_at (write_half_words h s' page bytes) x ≡ h.byte_at s' x
  outside s' page bytes x even fits (inl l) = half_words-before h page_size k s' page bytes x l
  outside s' page bytes x even fits (inr l) =
      half_words-behind h page_size k s' page bytes x (omega arith)

  -- Unlock, the erasure of a page, and a write from its start on of at most its size, and lock: behind
  -- them the bytes stand at the page, what is left of it is erased, and no other page has changed. Pages
  -- have an even size, and start at even addresses. The flash memory works as its manual says.
  pub rewritten_lem :
      (s : h.Hw) (page : ℕ) (bytes : List ℕ)
      → IsPage page
      → 0 < page_size
      → page_size % 2 ≡ 0
      → length bytes ≤ page_size
      → AllBytes bytes
      → (read_bytes (h.byte_at (rewritten s page bytes)) page (length bytes) ≡ bytes)
        × ((x : ℕ)
            → page + length bytes ≤ x
            → x < page + page_size
            → h.byte_at (rewritten s page bytes) x ≡ 0xff)
        × ((x : ℕ)
            → x < page ⊎ page + page_size ≤ x
            → h.byte_at (rewritten s page bytes) x ≡ h.byte_at s x)
  rewritten_lem s page bytes i some even fits all =
      let s' =
        h.flash_wait_for_last_operation
          (flash_writer_page_erase h (flash_writer_unlock h s) page) in
      let e = rewritten-half_words s page bytes in
      let u : k.is_unlocked s' ≡ true = k.wait_unlocked _ ∙ erased-unlocked s page in
      let blank : (x : ℕ) → page ≤ x → x < page + page_size → h.byte_at s' x ≡ 0xff =
        λ x l l'. k.wait_same _ x ∙ page_erase-erases s page x (same_page page x i some l l') in
      let erased : IsErased h page_size s' page (length bytes + length bytes % 2) =
        λ x l l'. blank x l (omega arith) in
      (
        ap (λ at. read_bytes at page (length bytes)) (fun_ext λ x. e x)
            ∙ half_words-read h page_size k s' page bytes u i.even all erased,
        λ x l l'.
            e x
            ∙ behind_or_adjacent s' page bytes x u i.even all erased (blank x (omega arith) l') l,
        λ x out. e x ∙ outside s' page bytes x even fits out ∙ fresh-apart s page x i some out,
      )

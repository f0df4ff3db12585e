-- ===== src/Flash/Erased.antt =====
-- What flash_page_is_erased says of the bytes.
use cvra_bootloader.Prelude.{
  ℕ, zero, suc, ◌+◌, ◌<◌, ◌≡◌, ◌≢◌, sym, ap, ◌∙◌, true, false, arith, ◌==◌, Bool-cases, inl, inr,
}
use cvra_bootloader.Flash.{page_is_erased}

pub page_is_erased-erased :
    (at : ℕ → ℕ) (a n i : ℕ) → page_is_erased at a n ≡ true → i < n → at (a + i) ≡ 0xff
unfolding page_is_erased
page_is_erased-erased at a zero i e l = absurd (omega arith)
page_is_erased-erased at a (suc n) zero e l = ground arith
page_is_erased-erased at a (suc n) (suc i) e l =
    let rest : page_is_erased at (a + 1) n ≡ true = ground arith in
    let here : a + suc i ≡ a + 1 + i = omega arith in
    ap at here ∙ page_is_erased-erased at (a + 1) n i rest (omega arith)

-- Some byte of the area is programmed.
abbrev pub IsDirty : (ℕ → ℕ) → ℕ → ℕ → Type 0
IsDirty at a n = (i : ℕ) × (i < n) × (at (a + i) ≢ 0xff)

IsDirty-behind : (at : ℕ → ℕ) (a n : ℕ) → IsDirty at (a + 1) n → IsDirty at a (suc n)
IsDirty-behind at a n (i, l, d) =
    let here : a + 1 + i ≡ a + suc i = omega arith in (suc i, omega arith, λ e. d (ap at here ∙ e))

pub page_is_erased-IsDirty : (at : ℕ → ℕ) (a n : ℕ) → page_is_erased at a n ≡ false → IsDirty at a n
unfolding page_is_erased
page_is_erased-IsDirty at a zero e = absurd (ground (arith, e))
page_is_erased-IsDirty at a (suc n) e = elim (Bool-cases (at a == 0xff)) [
  | inl here ↦
      let rest : page_is_erased at (a + 1) n ≡ false = ground (arith, here, e) in
      IsDirty-behind at a n (page_is_erased-IsDirty at (a + 1) n rest)
  | inr other ↦
      let at_start : a + zero ≡ a = omega arith in
      (zero, omega arith, λ f. absurd (ground (arith, sym (ap at at_start) ∙ f, other)))
]

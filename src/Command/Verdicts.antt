-- ===== src/Command/Verdicts.antt =====
-- command_write_flash on every branch: what it does to the bytes of flash memory.
use cvra_bootloader.Prelude.{
  ℕ, zero, suc, refl, ap₂, ◌∙◌, ◌⊎◌, Bool, ◌∷◌, take, drop, length, length-take, ◌+◌, ◌≤◌, ◌<◌, ◌≡◌,
  inl, inr, true, false, some, none, List, arith, leb, Bool-cases, Option-cases, dec_lt,
}
use cvra_bootloader.Prelude.Words.{u32}
use cvra_bootloader.Prelude.Chars.{strcmp_eq}
use cvra_bootloader.Platform.{Platform, read_bytes}
use cvra_bootloader.Flash.{page_is_erased}
use cvra_bootloader.Flash.Erased.{page_is_erased-erased, IsDirty, page_is_erased-IsDirty}
use cvra_bootloader.Command.{Call, Locals, Outcome, returned, fault, reply, or_kept, app_end}
use cvra_bootloader.Command.Write.{
  flash_write_success, flash_write_error_before_app, flash_write_error_after_app,
  flash_write_error_device_class_mismatch, flash_write_error_unknown_size,
  flash_write_error_not_erased, source_bytes, write_once, write_area, command_write_flash,
}

read_bytes_cong :
    (at at' : ℕ → ℕ) (a n : ℕ) → ((x : ℕ) → at' x ≡ at x) → read_bytes at' a n ≡ read_bytes at a n
unfolding read_bytes
read_bytes_cong at at' a zero h = refl
read_bytes_cong at at' a (suc n) h = ap₂ ◌∷◌ (h a) (read_bytes_cong at at' (a + 1) n h)

module _ (p : Platform) where
  -- Every byte from `a` on is 0xFF.
  abbrev pub IsErased : p.Flash → ℕ → ℕ → Type 0
  IsErased s a n = (i : ℕ) → i < n → p.byte_at s (a + i) ≡ 0xff

  -- The bytes from `a` on are the given ones, and the others those before.
  abbrev pub IsProgrammed : p.Flash → p.Flash → ℕ → List ℕ → Type 0
  IsProgrammed before after a bytes =
      (read_bytes (p.byte_at after) a (length bytes) ≡ bytes)
      × ((x : ℕ) → x < a ⊎ a + length bytes ≤ x → p.byte_at after x ≡ p.byte_at before x)

  -- The flash writer: an unlocked flash memory takes these bytes at an erased area. The lock is no
  -- memory.
  pub record Programs (a : ℕ) (bytes : List ℕ) : Type 0 where
    pub is_unlocked : p.Flash → Bool
    pub unlock_unlocks : (s : p.Flash) → is_unlocked (p.unlock s) ≡ true
    pub unlock_same : (s : p.Flash) (x : ℕ) → p.byte_at (p.unlock s) x ≡ p.byte_at s x
    pub lock_same : (s : p.Flash) (x : ℕ) → p.byte_at (p.lock s) x ≡ p.byte_at s x
    pub write_programs :
        (s : p.Flash)
        → is_unlocked s ≡ true
        → IsErased s a (length bytes)
        → IsProgrammed s (p.page_write s a bytes) a bytes

  write_once-IsProgrammed :
      (a : ℕ) (bytes : List ℕ)
      → Programs a bytes
      → (s : p.Flash) → IsErased s a (length bytes)
      → IsProgrammed s (write_once p s a bytes) a bytes
  unfolding write_once
  write_once-IsProgrammed a bytes k s erased =
      let (here, apart) =
        k.write_programs (p.unlock s) (k.unlock_unlocks s)
          (λ i l. k.unlock_same s _ ∙ erased i l) in
      (
        read_bytes_cong (p.byte_at (p.page_write (p.unlock s) a bytes)) _ a (length bytes)
              (λ x. k.lock_same (p.page_write (p.unlock s) a bytes) x)
            ∙ here,
        λ x out.
            k.lock_same (p.page_write (p.unlock s) a bytes) x ∙ apart x out ∙ k.unlock_same s x,
      )

  module _ (c : Call p) (locals : Locals) where
    abbrev pub write_address : ℕ
    write_address = u32 (or_kept (p.read_uinteger c.args).0 0)

    abbrev pub write_class : List ℕ × ℕ × p.Ctx
    write_class = p.read_str (p.read_uinteger c.args).1 locals.text 64

    -- The call behind the read of the size.
    abbrev pub write_sized : Call p
    write_sized = record c { args = (p.read_bin_size write_class.2).1 }

    -- The bytes behind the header, which are to be written: as many as announced, if there are.
    abbrev pub behind_header : List ℕ
    behind_header = drop (p.get_pos write_sized.args) (p.memory write_sized.args)

    pub record IsAllowed : Type 0 where
      pub after_start : p.app_addr ≤ write_address
      pub before_end : write_address < app_end p
      pub same_class : strcmp_eq write_class.0 c.config.device_class ≡ true

    -- What the handler does, and when.
    pub data WriteOutcome : Outcome p → Type 0 where
      before_app :
          write_address < p.app_addr
          → WriteOutcome
              (reply (record c { args = (p.read_uinteger c.args).1 }) flash_write_error_before_app)
      after_app :
          p.app_addr ≤ write_address
          → app_end p ≤ write_address
          → WriteOutcome
              (reply (record c { args = (p.read_uinteger c.args).1 }) flash_write_error_after_app)
      other_class :
          p.app_addr ≤ write_address
          → write_address < app_end p
          → strcmp_eq write_class.0 c.config.device_class ≡ false
          → WriteOutcome
              (reply (record c { args = write_class.2 }) flash_write_error_device_class_mismatch)
      unknown_size :
          IsAllowed
          → (p.read_bin_size write_class.2).0 ≡ none
          → WriteOutcome (reply write_sized flash_write_error_unknown_size)
      not_erased :
          (n : ℕ)
          → IsAllowed
          → (p.read_bin_size write_class.2).0 ≡ some n
          → IsDirty (p.byte_at c.flash) write_address n
          → WriteOutcome (reply write_sized flash_write_error_not_erased)
      overread :
          (n : ℕ)
          → IsAllowed
          → (p.read_bin_size write_class.2).0 ≡ some n
          → IsErased c.flash write_address n
          → length behind_header < n
          → WriteOutcome fault
      written :
          (n : ℕ) (flash : p.Flash)
          → IsAllowed
          → (p.read_bin_size write_class.2).0 ≡ some n
          → IsErased c.flash write_address n
          → n ≤ length behind_header
          → IsProgrammed c.flash flash write_address (take n behind_header)
          → WriteOutcome (
              returned (record write_sized {
                flash = flash;
                out = p.write_bool c.out flash_write_success;
              }))

    module _
        (k : (n : ℕ)
          → (p.read_bin_size write_class.2).0 ≡ some n
          → Programs write_address (take n behind_header)) where
      source_outcome :
          (n : ℕ)
          → IsAllowed
          → (p.read_bin_size write_class.2).0 ≡ some n
          → page_is_erased (p.byte_at c.flash) write_address n ≡ true
          → WriteOutcome (write_area p write_sized write_address n)
      unfolding write_area source_bytes
      source_outcome n v e clean =
          let erased : IsErased c.flash write_address n =
            λ i l. page_is_erased-erased (p.byte_at c.flash) write_address n i clean l in
          elim (dec_lt (length behind_header) n) [
            | yes few ↦
                let short : leb n (length behind_header) ≡ false = ground (arith, few) in
                rw (clean, short) (overread n v e erased (omega (arith, few)))
            | no enough ↦
                let there : leb n (length behind_header) ≡ true = ground (arith, enough) in
                let size : length (take n behind_header) ≡ n =
                  omega (arith, length-take n behind_header, enough) in
                rw (clean, there)
                  (written n (write_once p c.flash write_address (take n behind_header)) v e erased
                    (omega (arith, enough))
                    (write_once-IsProgrammed write_address (take n behind_header) (k n e) c.flash
                      (λ i l. erased i (omega (arith, l, size)))))
          ]

      sized_outcome :
          (n : ℕ)
          → IsAllowed
          → (p.read_bin_size write_class.2).0 ≡ some n
          → WriteOutcome (write_area p write_sized write_address n)
      unfolding write_area
      sized_outcome n v e = elim (Bool-cases (page_is_erased (p.byte_at c.flash) write_address n)) [
        | inr dirty ↦
            rw dirty
              (not_erased n v e (page_is_erased-IsDirty (p.byte_at c.flash) write_address n dirty))
        | inl clean ↦ source_outcome n v e clean
      ]

      allowed_outcome : IsAllowed → WriteOutcome (command_write_flash p c locals)
      allowed_outcome v = elim (Option-cases (p.read_bin_size write_class.2).0) [
        | inl e ↦
            let o : command_write_flash p c locals
                ≡ reply write_sized flash_write_error_unknown_size =
              unfold command_write_flash in ground arith in
            rw o (unknown_size v e)
        | inr (n, e) ↦
            let o : command_write_flash p c locals ≡ write_area p write_sized write_address n =
              unfold command_write_flash in ground arith in
            rw o (sized_outcome n v e)
      ]

      -- A write request whose address is not in the application, whose device class is another one,
      -- whose size is missing, or whose area has a byte that is not 0xFF, is refused with the code of the
      -- first of these that holds, and changes nothing but what was read and the reply. With fewer bytes
      -- behind its header than it announces, it reads behind the data. Any other is answered with success:
      -- the area from the address on then reads as the announced number of bytes behind the header, and
      -- no other byte of flash memory has changed. The condition: an unlocked flash memory takes these
      -- bytes at that address, if the area is erased, and changes nothing else.
      pub write_outcome : WriteOutcome (command_write_flash p c locals)
      write_outcome = elim (dec_lt write_address p.app_addr) [
        | yes early ↦
            let o : command_write_flash p c locals
                ≡ reply (record c { args = (p.read_uinteger c.args).1 })
                    flash_write_error_before_app =
              unfold command_write_flash in ground arith in
            rw o (before_app early)
        | no not_early ↦ elim (dec_lt write_address (app_end p)) [
          | no late ↦
              let o : command_write_flash p c locals
                  ≡ reply (record c { args = (p.read_uinteger c.args).1 })
                      flash_write_error_after_app =
                unfold command_write_flash in ground arith in
              rw o (after_app (omega arith) (omega arith))
          | yes inside ↦ elim (Bool-cases (strcmp_eq write_class.0 c.config.device_class)) [
            | inr other ↦
                let o : command_write_flash p c locals
                    ≡ reply (record c { args = write_class.2 })
                        flash_write_error_device_class_mismatch =
                  unfold command_write_flash in ground arith in
                rw o (other_class (omega arith) inside other)
            | inl same ↦
                allowed_outcome
                  (record { after_start = omega arith; before_end = inside; same_class = same })
          ]
        ]
      ]

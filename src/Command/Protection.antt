-- ===== src/Command/Protection.antt =====
-- No command touches flash memory below the configuration pages and the application.
pub mod Handlers
pub mod Execute
use cvra_bootloader.Prelude.{
  ℕ, zero, suc, ◌≤◌, ◌<◌, ◌≡◌, refl, ◌∙◌, inl, inr, Bool, true, false, List, Option, none, some,
  arith, ltb, leb, Bool-cases, if◌then◌else◌, drop, length,
}
use cvra_bootloader.Prelude.Words.{u8, u32}
use cvra_bootloader.Prelude.Int.{neg}
use cvra_bootloader.Prelude.Chars.{strcmp_eq}
use cvra_bootloader.Command.Verdicts.{write_address, write_class, write_sized}
use cvra_bootloader.Platform.{Platform}
use cvra_bootloader.Flash.{page_is_erased}
use cvra_bootloader.Config.{Config, config_is_valid, config_update_from_serialized}
use cvra_bootloader.Command.{
  Call, Locals, Outcome, returned, rebooted, fault, reply, or_kept, app_end,
}
use cvra_bootloader.Command.Erase.{
  erase_once, erase_loop, erase_reply, command_erase_flash_page,
  flash_erase_error_device_class_mismatch,
}
use cvra_bootloader.Command.Write.{
  source_bytes, write_once, write_area, command_write_flash, flash_write_error_unknown_size,
  flash_write_error_device_class_mismatch,
}
use cvra_bootloader.Command.Region.{
  command_read_flash, crc_of_region, command_crc_region, crc_error_address_unspecified,
  crc_error_length_unspecified,
}
use cvra_bootloader.Command.Settings.{
  command_jump_to_application, command_config_update, command_ping, flash_write_and_verify,
  write_pages_in_turn, write_config_pages, command_config_write_to_flash, command_config_read,
  command_get_status,
}
use cvra_bootloader.Command.Dispatch.{
  Callback, jump_to_application, crc_region, erase_flash_page, write_flash, ping, read_flash,
  config_update, config_write_to_flash, config_read, get_status, run_callback, Executed, finished,
  reset, broken, executed, execute_call, get_command_by_index, execute_datagram_commands,
  err_invalid_command, err_command_not_found, err_invalid_command_set_version,
}

module _ (p : Platform) (lo : ℕ) where
  -- The bytes below `lo` are the same.
  abbrev pub SameBelow : p.Flash → p.Flash → Type 0
  SameBelow before after = (x : ℕ) → x < lo → p.byte_at after x ≡ p.byte_at before x

  -- The hardware: `lo` is the start of a page, so that an erasure from `lo` on, and a write from
  -- there on, leave what is below alone; and the lock is no memory.
  pub record Confines : Type 0 where
    pub unlock_same : (s : p.Flash) → SameBelow s (p.unlock s)
    pub lock_same : (s : p.Flash) → SameBelow s (p.lock s)
    pub erase_same : (s : p.Flash) (a : ℕ) → lo ≤ a → SameBelow s (p.page_erase s a)
    pub write_same :
        (s : p.Flash) (a : ℕ) (bytes : List ℕ) → lo ≤ a → SameBelow s (p.page_write s a bytes)

  -- After the call the bytes are those before; for an access outside of a buffer, what is given.
  abbrev pub Keeps : Type 0 → p.Flash → Outcome p → Type 0
  Keeps if_fault before (returned c) = SameBelow before c.flash
  Keeps if_fault before (rebooted arg c) = SameBelow before c.flash
  Keeps if_fault before fault = if_fault

  -- The accesses outside of a buffer that a handler makes. command_write_flash reads the bytes to be
  -- written from behind the data that were received: whatever these bytes are, the write that follows
  -- leaves the bytes below `lo` alone. command_config_update writes behind its array `key`. No other
  -- handler makes any.
  abbrev pub Overrun : Callback → Call p → Locals → Type 0
  Overrun write_flash c locals =
      (n : ℕ) × ((p.read_bin_size (write_class p c locals).2).0 ≡ some n)
      × (length (
            drop (p.get_pos (write_sized p c locals).args) (p.memory (write_sized p c locals).args))
          < n)
      × ((src : List ℕ) → SameBelow c.flash (write_once p c.flash (write_address p c locals) src))
  Overrun config_update c locals =
      config_update_from_serialized p c.config locals.text c.args ≡ none
  Overrun other c locals = ⊥

  SameBelow-trans : (f g h : p.Flash) → SameBelow f g → SameBelow g h → SameBelow f h
  SameBelow-trans f g h a b x l = b x l ∙ a x l

  module _ (k : Confines) where
    once-same : (s : p.Flash) (a : ℕ) → lo ≤ a → SameBelow s (erase_once p s a)
    unfolding erase_once
    once-same s a h x l = k.lock_same _ x l ∙ k.erase_same _ a h x l ∙ k.unlock_same s x l

    pub loop-same :
        (retry : ℕ) (s : p.Flash) (a size : ℕ)
        → lo ≤ a
        → SameBelow s (erase_loop p retry s a size).1
    unfolding erase_loop
    loop-same zero s a size h = once-same s a h
    loop-same (suc retry) s a size h =
        elim (Bool-cases (page_is_erased (p.byte_at (erase_once p s a)) a size)) [
          | inl e ↦ rw e (once-same s a h)
          | inr e ↦ rw e (
              SameBelow-trans s (erase_once p s a) _ (once-same s a h)
                (loop-same retry (erase_once p s a) a size h))
        ]

    pub write_once-same :
        (s : p.Flash) (a : ℕ) (bytes : List ℕ) → lo ≤ a → SameBelow s (write_once p s a bytes)
    unfolding write_once
    write_once-same s a bytes h x l =
        k.lock_same _ x l ∙ k.write_same _ a bytes h x l ∙ k.unlock_same s x l

    verify-same :
        (s : p.Flash) (a : ℕ) (bytes : List ℕ) (n : ℕ)
        → lo ≤ a
        → SameBelow s (flash_write_and_verify p s a bytes n).1
    unfolding flash_write_and_verify
    verify-same s a bytes n h x l =
        k.lock_same _ x l
        ∙ k.write_same _ a bytes h x l
        ∙ k.erase_same _ a h x l
        ∙ k.unlock_same s x l

    pages-same :
        (s : p.Flash) (first second : ℕ) (page : List ℕ)
        → lo ≤ first
        → lo ≤ second
        → SameBelow s (write_pages_in_turn p s first second page).1
    unfolding write_pages_in_turn
    pages-same s first second page h h' =
        let after = (flash_write_and_verify p s first page p.config_page_size).1 in
        elim (Bool-cases (flash_write_and_verify p s first page p.config_page_size).0) [
          | inl e ↦ rw e (
              SameBelow-trans s after _ (verify-same s first page p.config_page_size h)
                (verify-same after second page p.config_page_size h'))
          | inr e ↦ rw e (verify-same s first page p.config_page_size h)
        ]

    pub config_pages-same :
        (s : p.Flash) (page : List ℕ)
        → lo ≤ p.config1_addr
        → lo ≤ p.config2_addr
        → SameBelow s (write_config_pages p s page).1
    unfolding write_config_pages
    config_pages-same s page h h' =
        let n = p.config_page_size in
        let after = (flash_write_and_verify p s p.config1_addr page n).1 in
        elim (Bool-cases (config_is_valid p s p.config2_addr n)) [
          | inl e ↦ rw e (pages-same s p.config1_addr p.config2_addr page h h')
          | inr e ↦ elim (Bool-cases (config_is_valid p s p.config1_addr n)) [
            | inl e' ↦ rw (e, e') (pages-same s p.config2_addr p.config1_addr page h' h)
            | inr e' ↦
                rw (e, e')
                  (SameBelow-trans s after _ (verify-same s p.config1_addr page n h)
                    (verify-same after p.config2_addr page n h'))
          ]
        ]

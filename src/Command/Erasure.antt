-- ===== src/Command/Erasure.antt =====
-- command_erase_flash_page: what it refuses, and what it reports of an erasure.
use mathlib.Core.Path.{subst}
use cvra_bootloader.Prelude.{
  sym, ◌≢◌, ◌==◌, ℕ, zero, suc, ◌≤◌, ◌<◌, ◌≡◌, ◌⊎◌, inl, inr, true, false, arith, Bool-cases, List,
  dec_lt,
}
use cvra_bootloader.Prelude.Words.{u8, u32}
use cvra_bootloader.Prelude.Chars.{strcmp_eq}
use cvra_bootloader.Platform.{Platform}
use cvra_bootloader.Flash.{page_is_erased}
use cvra_bootloader.Command.{Call, Locals, Outcome, returned, reply, or_kept, app_end}
use cvra_bootloader.Command.Erase.{
  flash_erase_success, flash_erase_failed, flash_erase_error_before_app,
  flash_erase_error_after_app, flash_erase_error_device_class_mismatch, erase_once, erase_loop,
  erase_reply, command_erase_flash_page,
}

module _ (p : Platform) where
  -- The loop ends with the area erased, or with `retry` wrapped around to 255.
  erase_loop-ends :
      (retry : ℕ) (s : p.Flash) (a size : ℕ)
      → retry ≤ 255
      → let (left, after) = erase_loop p retry s a size in
        ((page_is_erased (p.byte_at after) a size ≡ true) × (left ≤ retry))
        ⊎ ((page_is_erased (p.byte_at after) a size ≡ false) × (left ≡ 255))
  unfolding erase_loop
  erase_loop-ends zero s a size h =
      elim (Bool-cases (page_is_erased (p.byte_at (erase_once p s a)) a size)) [
        | inl e ↦ inl (e, rw e (omega arith))
        | inr e ↦ inr (e, rw e)
      ]
  erase_loop-ends (suc retry) s a size h =
      elim (Bool-cases (page_is_erased (p.byte_at (erase_once p s a)) a size)) [
        | inl e ↦ rw e (inl (e, omega arith))
        | inr e ↦ rw e (elim (erase_loop-ends retry (erase_once p s a) a size (omega arith)) [
          | inl (erased, l) ↦ inl (erased, omega arith)
          | inr wrapped ↦ inr wrapped
        ])
      ]

  module _ (c : Call p) (locals : Locals) where
    -- What the handler reads: the address, and then the device class with its length.
    abbrev pub erase_address : ℕ
    erase_address = u32 (or_kept (p.read_uinteger c.args).0 0)

    abbrev pub erase_class : List ℕ × ℕ × p.Ctx
    erase_class = p.read_str (p.read_uinteger c.args).1 locals.text 64

    -- The request passes the three checks.
    pub record IsAllowed : Type 0 where
      pub after_start : p.app_addr ≤ erase_address
      pub before_end : erase_address < app_end p
      pub same_class : strcmp_eq erase_class.0 c.config.device_class ≡ true

    abbrev pub erase_result : ℕ × p.Flash
    erase_result = erase_loop p (u8 p.erase_retries) c.flash erase_address erase_class.1

    erase-allowed :
        IsAllowed
        → command_erase_flash_page p c locals
          ≡ erase_reply p (record c { args = erase_class.2 }) erase_result
    unfolding command_erase_flash_page
    erase-allowed v = ground arith

    -- The reply code for the first check that fails.
    pub data Refusal : ℕ → Type 0 where
      before_app : erase_address < p.app_addr → Refusal flash_erase_error_before_app
      after_app :
          p.app_addr ≤ erase_address
          → app_end p ≤ erase_address
          → Refusal flash_erase_error_after_app
      other_class :
          p.app_addr ≤ erase_address
          → erase_address < app_end p
          → strcmp_eq erase_class.0 c.config.device_class ≡ false
          → Refusal flash_erase_error_device_class_mismatch

    -- A request that does not pass the checks is answered with the code of the first check that
    -- fails, and nothing but the arguments' position and the reply changes.
    erase_refused :
        ¬ IsAllowed
        → (code : ℕ) × (args : p.Ctx) × Refusal code
          × (command_erase_flash_page p c locals ≡ reply (record c { args = args }) code)
    unfolding command_erase_flash_page
    erase_refused bad = elim (dec_lt erase_address p.app_addr) [
      | yes early ↦
          (flash_erase_error_before_app, (p.read_uinteger c.args).1, before_app early, ground arith)
      | no not_early ↦ elim (dec_lt erase_address (app_end p)) [
        | no late ↦ (
          flash_erase_error_after_app,
          (p.read_uinteger c.args).1,
          after_app (omega arith) (omega arith),
          ground arith,
        )
        | yes inside ↦ elim (Bool-cases (strcmp_eq erase_class.0 c.config.device_class)) [
          | inr other ↦ (
            flash_erase_error_device_class_mismatch,
            erase_class.2,
            other_class (omega arith) inside other,
            ground arith,
          )
          | inl same ↦
              absurd
                (bad (record { after_start = omega arith; before_end = inside; same_class = same }))
        ]
      ]
    ]

    -- A request that passes the checks, after which the checked bytes are still not erased, is
    -- answered with success and nothing else: `retry` is never 0 behind a loop that gave up.
    erase_failure_hidden :
        IsAllowed
        → page_is_erased (p.byte_at erase_result.1) erase_address erase_class.1 ≡ false
        → command_erase_flash_page p c locals
          ≡ returned (record c {
            args = erase_class.2;
            flash = erase_result.1;
            out = p.write_uint c.out flash_erase_success;
          })
    unfolding erase_reply
    erase_failure_hidden v failed = ground (
      arith,
      erase-allowed v,
      erase_loop-ends (u8 p.erase_retries) c.flash erase_address erase_class.1,
    )

    -- A request that passes the checks, and behind whose loop `retry` is 0, found the checked bytes
    -- erased, and yet is answered with the code for a failure, in front of the code for success.
    erase_failed_code :
        IsAllowed
        → erase_result.0 ≡ 0
        → (page_is_erased (p.byte_at erase_result.1) erase_address erase_class.1 ≡ true)
          × (command_erase_flash_page p c locals
              ≡ returned (record c {
                args = erase_class.2;
                flash = erase_result.1;
                out = p.write_uint (p.write_uint c.out flash_erase_failed) flash_erase_success;
              }))
    unfolding erase_reply
    erase_failed_code v zero_left = ground (
      arith,
      erase-allowed v,
      erase_loop-ends (u8 p.erase_retries) c.flash erase_address erase_class.1,
    )

    erase_answered :
        IsAllowed
        → page_is_erased (p.byte_at erase_result.1) erase_address erase_class.1 ≡ true
        → erase_result.0 ≢ 0
        → command_erase_flash_page p c locals
          ≡ returned (record c {
            args = erase_class.2;
            flash = erase_result.1;
            out = p.write_uint c.out flash_erase_success;
          })
    unfolding erase_reply
    erase_answered v erased left = ground (
      arith,
      erase-allowed v,
      erase_loop-ends (u8 p.erase_retries) c.flash erase_address erase_class.1,
    )

    -- What an erase request leaves behind when this is its reply.
    abbrev pub erased_with : p.Ctx → Outcome p
    erased_with out =
        returned (record c { args = erase_class.2; flash = erase_result.1; out = out })

    -- A request that passes the checks is answered in one of two ways. The code for success alone is sent
    -- if `retry` is left above 0, whether the checked bytes are erased or the tries have run out. If
    -- `retry` is 0, the checked bytes are erased, and yet the code for a failure is sent in front of the
    -- code for success.
    erase_answer :
        IsAllowed
        → ((erase_result.0 ≢ 0)
            × (command_erase_flash_page p c locals
                ≡ erased_with (p.write_uint c.out flash_erase_success)))
          ⊎ ((erase_result.0 ≡ 0)
              × (page_is_erased (p.byte_at erase_result.1) erase_address erase_class.1 ≡ true)
              × (command_erase_flash_page p c locals
                  ≡ erased_with
                      (p.write_uint (p.write_uint c.out flash_erase_failed) flash_erase_success)))
    erase_answer v = elim (Bool-cases (erase_result.0 == 0)) [
      | inl e ↦
          let zero_left : erase_result.0 ≡ 0 = ground arith in
          let (erased, same) = erase_failed_code v zero_left in inr (zero_left, erased, same)
      | inr e ↦
          let left : erase_result.0 ≢ 0 = ground arith in
          inl (
            left,
            elim (Bool-cases
                (page_is_erased (p.byte_at erase_result.1) erase_address erase_class.1)) [
                  | inl erased ↦ erase_answered v erased left
                  | inr dirty ↦ erase_failure_hidden v dirty
                ],
          )
    ]

    -- What the handler does, and when.
    pub data EraseOutcome : Outcome p → Type 0 where
      refused :
          {code : ℕ} (args : p.Ctx)
          → Refusal code
          → EraseOutcome (reply (record c { args = args }) code)
      answered_success :
          IsAllowed
          → erase_result.0 ≢ 0
          → EraseOutcome (erased_with (p.write_uint c.out flash_erase_success))
      answered_failure :
          IsAllowed
          → erase_result.0 ≡ 0
          → page_is_erased (p.byte_at erase_result.1) erase_address erase_class.1 ≡ true
          → EraseOutcome (
              erased_with
                (p.write_uint (p.write_uint c.out flash_erase_failed) flash_erase_success))

    allowed_or_not : IsAllowed ⊎ (¬ IsAllowed)
    allowed_or_not = elim (dec_lt erase_address p.app_addr) [
      | yes early ↦ inr λ v. absurd (omega (arith, v.after_start))
      | no not_early ↦ elim (dec_lt erase_address (app_end p)) [
        | no late ↦ inr λ v. late v.before_end
        | yes inside ↦ elim (Bool-cases (strcmp_eq erase_class.0 c.config.device_class)) [
          | inl same ↦
              inl (record { after_start = omega arith; before_end = inside; same_class = same })
          | inr other ↦ inr λ v. absurd (ground (arith, other, v.same_class))
        ]
      ]
    ]

    -- An erase request that does not pass the checks is answered with the code of the first check that fails,
    -- and nothing but the arguments' position and the reply changes. One that passes them is answered in one of
    -- two ways: with the code for success alone if `retry` is left above 0, whether the checked bytes are erased
    -- or the tries have run out; and if `retry` is 0, where the checked bytes are erased, with the code for a
    -- failure and then the code for success.
    pub erase_outcome : EraseOutcome (command_erase_flash_page p c locals)
    erase_outcome = elim allowed_or_not [
      | inr bad ↦
          let (code, args, refusal, e) = erase_refused bad in
          subst EraseOutcome (sym e) (refused args refusal)
      | inl v ↦ elim (erase_answer v) [
        | inl (left, e) ↦ subst EraseOutcome (sym e) (answered_success v left)
        | inr (zero_left, erased, e) ↦
            subst EraseOutcome (sym e) (answered_failure v zero_left erased)
      ]
    ]

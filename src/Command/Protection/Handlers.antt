-- ===== src/Command/Protection/Handlers.antt =====
-- Each handler of command.c leaves the flash memory below a bound alone.
use cvra_bootloader.Prelude.{
  ℕ, ◌≤◌, ◌≡◌, refl, Bool, true, false, List, Option, none, some, arith, ltb, leb, if◌then◌else◌,
  drop, length, ◌<◌,
}
use cvra_bootloader.Prelude.Words.{u8, u32}
use cvra_bootloader.Prelude.Chars.{strcmp_eq}
use cvra_bootloader.Platform.{Platform}
use cvra_bootloader.Flash.{page_is_erased}
use cvra_bootloader.Config.{Config, config_update_from_serialized}
use cvra_bootloader.Command.{Call, Locals, Outcome, returned, fault, reply, or_kept, app_end}
use cvra_bootloader.Command.Erase.{
  erase_loop, erase_reply, command_erase_flash_page, flash_erase_error_device_class_mismatch,
}
use cvra_bootloader.Command.Write.{
  source_bytes, write_once, write_area, command_write_flash, flash_write_error_unknown_size,
  flash_write_error_device_class_mismatch,
}
use cvra_bootloader.Command.Region.{
  command_read_flash, crc_of_region, command_crc_region, crc_error_address_unspecified,
  crc_error_length_unspecified,
}
use cvra_bootloader.Command.Settings.{
  command_jump_to_application, command_config_update, command_ping, command_config_write_to_flash,
  command_config_read, command_get_status,
}
use cvra_bootloader.Command.Dispatch.{
  Callback, jump_to_application, crc_region, erase_flash_page, write_flash, ping, read_flash,
  config_update, config_write_to_flash, config_read, get_status, run_callback,
}
use cvra_bootloader.Command.Protection.{
  SameBelow, Confines, Keeps, Overrun, loop-same, write_once-same, config_pages-same,
}

module _ (p : Platform) (lo : ℕ) (k : Confines p lo) where
  -- A guard of a handler.
  Keeps-if :
      (F : Type 0) (s : p.Flash) (b : Bool) (o o' : Outcome p)
      → (b ≡ true → Keeps p lo F s o)
      → (b ≡ false → Keeps p lo F s o')
      → Keeps p lo F s (if b then o else o')
  Keeps-if F s true o o' h h' = h refl
  Keeps-if F s false o o' h h' = h' refl

  source-Keeps :
      (F : Type 0) (s : p.Flash) (o : Option (List ℕ)) (f : List ℕ → Call p)
      → (o ≡ none → F)
      → ((src : List ℕ) → SameBelow p lo s (f src).flash)
      → Keeps p lo F s (elim o [ none ↦ fault | some src ↦ returned (f src) ])
  source-Keeps F s none f g h = g refl
  source-Keeps F s (some src) f g h = h src

  option-Keeps :
      {A : Type 0} (F : Type 0) (s : p.Flash) (n : Option A) (o : Outcome p) (f : A → Outcome p)
      → Keeps p lo F s o
      → ((k : A) → n ≡ some k → Keeps p lo F s (f k))
      → Keeps p lo F s (elim n [ none ↦ o | some k ↦ f k ])
  option-Keeps F s none o f h h' = h
  option-Keeps F s (some k) o f h h' = h' k refl

  source_bytes-none :
      (args : p.Ctx) (size : ℕ)
      → source_bytes p args size ≡ none
      → length (drop (p.get_pos args) (p.memory args)) < size
  unfolding source_bytes
  source_bytes-none args size e = ground arith

  write_area-Keeps :
      (F : Type 0) (c : Call p) (address size : ℕ)
      → (source_bytes p c.args size ≡ none → F)
      → lo ≤ address
      → Keeps p lo F c.flash (write_area p c address size)
  unfolding write_area
  write_area-Keeps F c address size g h =
      Keeps-if F c.flash (page_is_erased (p.byte_at c.flash) address size) _ _
        (λ _.
          source-Keeps F c.flash (source_bytes p c.args size)
            (λ src. record c {
              flash = write_once p c.flash address src;
              out = p.write_bool c.out 1;
            })
            g (λ src. write_once-same p lo k c.flash address src h))
        (λ _ x l. refl)

  erase-Keeps :
      (F : Type 0) (c : Call p) (locals : Locals)
      → lo ≤ p.app_addr
      → Keeps p lo F c.flash (command_erase_flash_page p c locals)
  unfolding command_erase_flash_page erase_reply
  erase-Keeps F c locals h =
      let (tmp, args) = p.read_uinteger c.args in
      let (device_class, size, args') = p.read_str args locals.text 64 in
      let address = u32 (or_kept tmp 0) in
      let loop = erase_loop p (u8 p.erase_retries) c.flash address size in
      let read : Call p = record c { args = args' } in
      Keeps-if F c.flash (ltb address p.app_addr) _ _ (λ _ x l. refl)
        λ above.
          Keeps-if F c.flash (leb (app_end p) address) _ _ (λ _ x l. refl)
            λ below.
              Keeps-if F c.flash (strcmp_eq device_class c.config.device_class)
                (erase_reply p read loop) (reply read flash_erase_error_device_class_mismatch)
                (λ _. loop-same p lo k (u8 p.erase_retries) c.flash address size (ground arith))
                (λ _ x l. refl)

  write-Keeps :
      (c : Call p) (locals : Locals)
      → lo ≤ p.app_addr
      → Keeps p lo (Overrun p lo write_flash c locals) c.flash (command_write_flash p c locals)
  unfolding command_write_flash
  write-Keeps c locals h =
      let (tmp, args) = p.read_uinteger c.args in
      let (device_class, size, args') = p.read_str args locals.text 64 in
      let (n, args'') = p.read_bin_size args' in
      let address = u32 (or_kept tmp 0) in
      let F : Type 0 = Overrun p lo write_flash c locals in
      let sized : Call p = record c { args = args'' } in
      Keeps-if F c.flash (ltb address p.app_addr) _ _ (λ _ x l. refl)
        λ above.
          Keeps-if F c.flash (leb (app_end p) address) _ _ (λ _ x l. refl)
            λ below.
              Keeps-if F c.flash (strcmp_eq device_class c.config.device_class)
                (elim n [
                  | none ↦ reply sized flash_write_error_unknown_size
                  | some k ↦ write_area p sized address k
                ])
                (reply (record c { args = args' }) flash_write_error_device_class_mismatch)
                (λ _.
                  option-Keeps F c.flash n (reply sized flash_write_error_unknown_size)
                    (λ k. write_area p sized address k) (λ x l. refl)
                    (λ m e.
                      write_area-Keeps F sized address m
                        (λ short. (
                          m,
                          e,
                          source_bytes-none args'' m short,
                          λ src. write_once-same p lo k c.flash address src (ground arith),
                        ))
                        (ground arith)))
                (λ _ x l. refl)

  replies-Keep :
      (F : Type 0) (c : Call p) (b : Bool) (code code' : ℕ)
      → Keeps p lo F c.flash (if b then reply c code else reply c code')
  replies-Keep F c true code code' = λ x l. refl
  replies-Keep F c false code code' = λ x l. refl

  region-Keeps :
      (F : Type 0) (c : Call p) (address size : ℕ)
      → Keeps p lo F c.flash (crc_of_region p c address size)
  unfolding crc_of_region
  region-Keeps F c address size = replies-Keep F c _ _ _

  crc-Keeps : (F : Type 0) (c : Call p) → Keeps p lo F c.flash (command_crc_region p c)
  unfolding command_crc_region
  crc-Keeps F c =
      let (tmp, args) = p.read_uinteger c.args in
      let (n, args') = p.read_uint args in crc_cases tmp n args args'
    where
      crc_cases :
          (tmp n : Option ℕ) (args args' : p.Ctx)
          → Keeps p lo F c.flash (elim tmp [
            | none ↦ reply (record c { args = args }) crc_error_address_unspecified
            | some address ↦ elim n [
              | none ↦ reply (record c { args = args' }) crc_error_length_unspecified
              | some size ↦ crc_of_region p (record c { args = args' }) (u32 address) size
            ]
          ])
      crc_cases none n args args' = λ x l. refl
      crc_cases (some address) none args args' = λ x l. refl
      crc_cases (some address) (some size) args args' =
          region-Keeps F (record c { args = args' }) (u32 address) size

  update-Keeps :
      (c : Call p) (locals : Locals)
      → Keeps p lo (Overrun p lo config_update c locals) c.flash (command_config_update p c locals)
  unfolding command_config_update
  update-Keeps c locals =
      update_cases (config_update_from_serialized p c.config locals.text c.args) λ e. e
    where
      update_cases :
          (o : Option (Config × p.Ctx))
          → (o ≡ none → Overrun p lo config_update c locals)
          → Keeps p lo (Overrun p lo config_update c locals) c.flash (elim o [
            | none ↦ fault
            | some (config, args) ↦
                returned (record c { config = config; args = args; out = p.write_bool c.out 1 })
          ])
      update_cases none g = g refl
      update_cases (some (config, args)) g = λ x l. refl

  -- Where `lo` is at most the start of the application and of both configuration pages.
  pub callback-Keeps :
      (b : Callback) (c : Call p) (locals : Locals)
      → lo ≤ p.app_addr
      → lo ≤ p.config1_addr
      → lo ≤ p.config2_addr
      → Keeps p lo (Overrun p lo b c locals) c.flash (run_callback p b c locals)
  unfolding run_callback command_jump_to_application command_ping command_read_flash
      command_config_write_to_flash command_config_read command_get_status
  callback-Keeps jump_to_application c locals h h1 h2 = λ x l. refl
  callback-Keeps crc_region c locals h h1 h2 = crc-Keeps ⊥ c
  callback-Keeps erase_flash_page c locals h h1 h2 = erase-Keeps ⊥ c locals h
  callback-Keeps write_flash c locals h h1 h2 = write-Keeps c locals h
  callback-Keeps ping c locals h h1 h2 = λ x l. refl
  callback-Keeps read_flash c locals h h1 h2 = λ x l. refl
  callback-Keeps config_update c locals h h1 h2 = update-Keeps c locals
  callback-Keeps config_write_to_flash c locals h h1 h2 = config_pages-same p lo k c.flash _ h1 h2
  callback-Keeps config_read c locals h h1 h2 = λ x l. refl
  callback-Keeps get_status c locals h h1 h2 = λ x l. refl

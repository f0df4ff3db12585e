-- ===== src/Bootloader/Loop/Start.antt =====
-- From the main loop of bootloader.c over the reset to what starts.
use cvra_bootloader.Prelude.{ℕ, ◌≤◌, ◌≡◌, ◌⊎◌, inl, inr, ap, ◌∙◌, List, arith}
use mathlib.Core.Path.{subst}
use cvra_bootloader.Platform.{Platform, read_bytes}
use cvra_bootloader.Boot.{
  start_app, bootloader_main, reboot_system, reset_handler, reset_handler-reboot_system,
}
use cvra_bootloader.Command.Settings.{
  jump_argument, boot_arg_start_application, boot_arg_start_bootloader_no_timeout,
}
use cvra_bootloader.Command.Protection.{Confines}
use cvra_bootloader.Bootloader.{Board, Node}
use cvra_bootloader.Bootloader.Loop.{Inputs, rounds, jumped}
use cvra_bootloader.Bootloader.Loop.Safety.{
  Safe, IsKeptUntilStray, rounds-Safe, started_application_is_intact,
}

module _ (p : Platform) (board : Board) (lo : ℕ) where
  jump_argument-cases :
      (s : Node p)
      → (jump_argument p s.config s.flash ≡ boot_arg_start_application)
        ⊎ (jump_argument p s.config s.flash ≡ boot_arg_start_bootloader_no_timeout)
  unfolding jump_argument
  jump_argument-cases s = ground arith

  -- Whatever the frames, the clock and the bus were: if the main loop ends with a reset, and the reset starts the
  -- application, then the checksum of the application's bytes in flash memory is the configured one. The
  -- conditions: `lo` is at most the start of the application and of both configuration pages, and the hardware
  -- keeps an erasure and a write from `lo` on to the bytes from `lo` on.
  pub application_starts_intact :
      (k : Confines p lo)
      → lo ≤ p.app_addr
      → lo ≤ p.config1_addr
      → lo ≤ p.config2_addr
      → (ins : List Inputs) (s s' : Node p) (arg : ℕ) → rounds p board ins s ≡ jumped arg s'
      → reset_handler (reboot_system arg) ≡ start_app
      → p.crc32 0 (read_bytes (p.byte_at s'.flash) p.app_addr s'.config.application_size)
        ≡ s'.config.application_crc
  application_starts_intact k app c1 c2 ins s s' arg e starts =
      let safe : Safe p board lo (IsKeptUntilStray p board lo ins s) s.flash (jumped arg s') =
        subst (λ r. Safe p board lo (IsKeptUntilStray p board lo ins s) s.flash r) e
          (rounds-Safe p board lo k app c1 c2 ins s) in
      elim (jump_argument-cases s') [
        | inl yes_app ↦
            started_application_is_intact p board lo k app c1 c2 ins s s'
              (e ∙ ap (λ a. jumped a s') (safe.1 ∙ yes_app))
        | inr other ↦
            let again : reset_handler (reboot_system arg)
                ≡ bootloader_main boot_arg_start_bootloader_no_timeout =
              ap (λ a. reset_handler (reboot_system a)) (safe.1 ∙ other)
              ∙ reset_handler-reboot_system boot_arg_start_bootloader_no_timeout (omega arith) in
            absurd (cc)
      ]

-- ===== src/Tests/Commands.antt =====
-- The theorems on the commands and the configuration on the small platform.
use mathlib.Core.Path.{subst}
use cvra_bootloader.Prelude.{
  ap, take, ℕ, ◌==◌, ◌≡◌, ◌⊎◌, inr, refl, true, false, ◌&&◌, List, [], ◌∷◌, arith, ltb,
  if◌then◌else◌,
}
use cvra_bootloader.Platform.{Platform, read_bytes}
use cvra_bootloader.Config.{config_is_valid, config_read_crc, config_calculate_crc}
use cvra_bootloader.Flash.{page_is_erased}
use cvra_bootloader.Command.{Call, or_kept}
use cvra_bootloader.Command.Erase.{command_erase_flash_page, erase_loop}
use cvra_bootloader.Command.Write.{command_write_flash}
use cvra_bootloader.Command.Settings.{write_config_pages}
use cvra_bootloader.Command.Dispatch.{execute_datagram_commands}
use cvra_bootloader.Command.Protection.Execute.{
  Preserves, HasOverrun, first_call, execute-Preserves,
}
use cvra_bootloader.Command.Erasure.{
  IsAllowed, EraseOutcome, erase_outcome, erase_result, erase_address, erase_class,
}
use cvra_bootloader.Command.Verdicts.{WriteOutcome, Programs, write_outcome}
use cvra_bootloader.Command.PowerCut.{AllCovered, page_is_valid, logged, power_cut_safe}
use cvra_bootloader.Tests.Toy.{
  toy, blank_flash, config, locals, toy-Confines, toy-Separate, toy_writer, toy_layout,
}

-- A call with these arguments behind the three that the interpreter reads.
abbrev call : List ℕ → Call toy
call args = record {
  args = record { mem = args; pos = 0 };
  out = record { mem = 0 ∷ 0 ∷ 0 ∷ []; pos = 0 };
  config = config;
  flash = blank_flash;
  status = 1;
}

-- Four bytes at address 40, for devices of class "a".
abbrev four_bytes : Call toy
four_bytes = call (40 ∷ 2 ∷ 97 ∷ 0 ∷ 4 ∷ 1 ∷ 2 ∷ 3 ∷ 4 ∷ [])

four_bytes-Programs : Programs toy 40 (1 ∷ 2 ∷ 3 ∷ 4 ∷ [])
unfolding read_bytes
four_bytes-Programs = record {
  is_unlocked = λ s. true;
  unlock_unlocks = λ s. refl;
  unlock_same = λ s x. refl;
  lock_same = λ s x. refl;
  write_programs = λ s u erased. (refl, λ x out. ground (arith, out));
}

write_outcome_example :
    WriteOutcome toy four_bytes locals (command_write_flash toy four_bytes locals)
write_outcome_example = write_outcome toy four_bytes locals λ n e.
    subst (λ n. Programs toy 40 (take n (1 ∷ 2 ∷ 3 ∷ 4 ∷ []))) (ap (λ o. or_kept o 0) e)
      four_bytes-Programs

-- Address 4 is the bootloader's.
erase_outcome_example :
    EraseOutcome toy
      (call (4 ∷ 2 ∷ 97 ∷ 0 ∷ []))
      locals
      (command_erase_flash_page toy (call (4 ∷ 2 ∷ 97 ∷ 0 ∷ [])) locals)
erase_outcome_example = erase_outcome toy (call (4 ∷ 2 ∷ 97 ∷ 0 ∷ [])) locals

-- An erasure of page 0.
execute-Preserves_example :
    Preserves toy 8
      (HasOverrun toy 8
        (first_call toy 8 (3 ∷ 3 ∷ 2 ∷ 0 ∷ 1 ∷ 97 ∷ []) 6 (0 ∷ 0 ∷ []) 2 config blank_flash 1)
        locals)
      blank_flash
      (execute_datagram_commands toy
        (3 ∷ 3 ∷ 2 ∷ 0 ∷ 1 ∷ 97 ∷ [])
        6
        (0 ∷ 0 ∷ [])
        2
        config
        blank_flash
        1
        locals)
execute-Preserves_example =
    execute-Preserves toy 8 toy-Confines (3 ∷ 3 ∷ 2 ∷ 0 ∷ 1 ∷ 97 ∷ []) 6 (0 ∷ 0 ∷ []) 2 config
      blank_flash 1 locals (omega arith) (omega arith) (omega arith)

-- Flash memory that holds the checksum 6 of three bytes in the second page, and nothing in the first.
abbrev one_page : ℕ → ℕ
one_page x = if ltb x 16 then 1 else if x == 19 then 6 else if x == 20 then 6 else 0

one_page-valid : page_is_valid toy one_page 16 ≡ true
unfolding config_is_valid config_read_crc config_calculate_crc read_bytes
one_page-valid = refl

power_cut_safe_example :
    let (success, t) =
      write_config_pages
        (logged toy)
        (record { hw = one_page; log = [] })
        (0 ∷ 0 ∷ 0 ∷ 9 ∷ 9 ∷ 0 ∷ 0 ∷ 0 ∷ []) in
    AllCovered toy t.log
    × ((page_is_valid toy t.hw 8 ≡ true) ⊎ (page_is_valid toy t.hw 16 ≡ true))
    × (success ≡ (page_is_valid toy t.hw 8 && page_is_valid toy t.hw 16))
power_cut_safe_example =
    power_cut_safe toy toy-Separate (0 ∷ 0 ∷ 0 ∷ 9 ∷ 9 ∷ 0 ∷ 0 ∷ 0 ∷ []) (omega arith) one_page
      (inr one_page-valid)

-- A flash memory whose pages cannot be erased.
abbrev worn : Platform
worn = record toy { flash_writer = record toy_writer { page_erase = λ f a. f } }

abbrev worn_call : Call worn
worn_call = record {
  args = record { mem = 40 ∷ 2 ∷ 97 ∷ 0 ∷ []; pos = 0 };
  out = record { mem = 0 ∷ 0 ∷ 0 ∷ []; pos = 0 };
  config = config;
  flash = one_page;
  status = 1;
}

worn-IsAllowed : IsAllowed worn worn_call locals
worn-IsAllowed = record { after_start = omega arith; before_end = omega arith; same_class = refl }

worn-dirty :
    page_is_erased
      (worn.byte_at (erase_result worn worn_call locals).1)
      (erase_address worn worn_call locals)
      (erase_class worn worn_call locals).1
    ≡ false
unfolding page_is_erased erase_loop
worn-dirty = refl

-- With no second try.
abbrev hasty : Platform
hasty = record toy { layout = record toy_layout { erase_retries = 0 } }

abbrev hasty_call : Call hasty
hasty_call = record {
  args = record { mem = 40 ∷ 2 ∷ 97 ∷ 0 ∷ []; pos = 0 };
  out = record { mem = 0 ∷ 0 ∷ 0 ∷ []; pos = 0 };
  config = config;
  flash = one_page;
  status = 1;
}

-- Here the second way is taken.
hasty-none_left : (erase_result hasty hasty_call locals).0 ≡ 0
unfolding page_is_erased erase_loop
hasty-none_left = refl

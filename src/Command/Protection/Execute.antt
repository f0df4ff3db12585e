-- ===== src/Command/Protection/Execute.antt =====
-- execute_datagram_commands of command.c leaves the flash memory below a bound alone.
use cvra_bootloader.Prelude.{
  ℕ, ◌≤◌, ◌≡◌, refl, Bool, true, false, List, Option, none, some, if◌then◌else◌,
}
use cvra_bootloader.Prelude.Words.{u8}
use cvra_bootloader.Prelude.Int.{neg}
use cvra_bootloader.Platform.{Platform}
use cvra_bootloader.Config.{Config}
use cvra_bootloader.Command.{Call, Locals, Outcome, returned, rebooted, fault}
use cvra_bootloader.Command.Dispatch.{
  Callback, run_callback, Executed, finished, reset, broken, executed, execute_call,
  get_command_by_index, execute_datagram_commands, err_invalid_command, err_command_not_found,
  err_invalid_command_set_version,
}
use cvra_bootloader.Command.Protection.{SameBelow, Confines, Keeps, Overrun}
use cvra_bootloader.Command.Protection.Handlers.{callback-Keeps}

module _ (p : Platform) (lo : ℕ) where
  -- After the execution of a datagram the bytes are those before; for an access outside of a buffer,
  -- what is given.
  abbrev pub Preserves : Type 0 → p.Flash → Executed p → Type 0
  Preserves if_broken before (finished ret c) = SameBelow p lo before c.flash
  Preserves if_broken before (reset arg c) = SameBelow p lo before c.flash
  Preserves if_broken before broken = if_broken

  -- The call that the interpreter starts with.
  abbrev pub first_call : List ℕ → ℕ → List ℕ → ℕ → Config → p.Flash → ℕ → Call p
  first_call bytes data_len out_buf out_len config flash status = record {
    args = p.ro_init bytes data_len;
    out = p.init out_buf out_len;
    config = config;
    flash = flash;
    status = status;
  }

  -- The call that a handler gets, behind the version, the index and the array of the arguments.
  abbrev pub handed : Call p → Call p
  handed c = record c { args = (p.read_array (p.read_int (p.read_int c.args).1).1).1 }

  -- The handler that the index stands for makes an access outside of a buffer.
  abbrev pub HasOverrun : Call p → Locals → Type 0
  HasOverrun c locals =
      (i : ℕ) × (callback : Callback) × ((p.read_int (p.read_int c.args).1).0 ≡ some i)
      × (get_command_by_index (u8 i) ≡ some callback)
      × Overrun p lo callback (handed c) locals

  executed-Preserves :
      (F G : Type 0) (s : p.Flash) (o : Outcome p)
      → (F → G)
      → Keeps p lo F s o
      → Preserves G s (executed p o)
  unfolding executed
  executed-Preserves F G s (returned c) g h = h
  executed-Preserves F G s (rebooted arg c) g h = h
  executed-Preserves F G s fault g h = g h

  found-Preserves :
      (k : Confines p lo) (c : Call p) (locals : Locals) (G : Type 0) (found : Option Callback)
      → lo ≤ p.app_addr
      → lo ≤ p.config1_addr
      → lo ≤ p.config2_addr
      → ((callback : Callback)
          → found ≡ some callback
          → Overrun p lo callback (handed c) locals
          → G)
      → Preserves G c.flash (elim found [
        | none ↦ finished (neg err_command_not_found) c
        | some callback ↦ executed p (run_callback p callback (handed c) locals)
      ])
  found-Preserves k c locals G none h h1 h2 g = λ x l. refl
  found-Preserves k c locals G (some callback) h h1 h2 g =
      executed-Preserves (Overrun p lo callback (handed c) locals) G c.flash
        (run_callback p callback (handed c) locals) (g callback refl)
        (callback-Keeps p lo k callback (handed c) locals h h1 h2)

  call-Preserves :
      (k : Confines p lo) (c : Call p) (locals : Locals) (b : Bool) (index : Option ℕ)
      → lo ≤ p.app_addr
      → lo ≤ p.config1_addr
      → lo ≤ p.config2_addr
      → (p.read_int (p.read_int c.args).1).0 ≡ index
      → Preserves (HasOverrun c locals) c.flash (
          if b
          then elim index [
            | none ↦ finished (neg err_invalid_command) c
            | some i ↦ elim (get_command_by_index (u8 i)) [
              | none ↦ finished (neg err_command_not_found) c
              | some callback ↦ executed p (run_callback p callback (handed c) locals)
            ]
          ]
          else finished (neg err_invalid_command_set_version) c)
  call-Preserves k c locals false index h h1 h2 e = λ x l. refl
  call-Preserves k c locals true none h h1 h2 e = λ x l. refl
  call-Preserves k c locals true (some i) h h1 h2 e =
      found-Preserves k c locals (HasOverrun c locals) (get_command_by_index (u8 i)) h h1 h2
        (λ callback found over. (i, callback, e, found, over))

  -- Whatever a datagram's data says: if the execution of its command makes no access outside of a
  -- buffer, it leaves every byte of flash memory below `lo` as it was. Only two handlers make such an
  -- access. One is write_flash with fewer data than it announces, and the write that follows then leaves
  -- the bytes below `lo` alone too, whatever bytes it reads from behind the data. The other is
  -- config_update with a key that it cannot read, which it ends with a zero behind its array; of
  -- that nothing is said. The conditions:
  -- `lo` is at most the start of the application and of both configuration pages, and the hardware keeps
  -- an erasure and a write from `lo` on to the bytes from `lo` on.
  pub execute-Preserves :
      (k : Confines p lo) (bytes : List ℕ) (data_len : ℕ) (out_buf : List ℕ) (out_len : ℕ)
      (config : Config) (flash : p.Flash) (status : ℕ) (locals : Locals)
      → lo ≤ p.app_addr
      → lo ≤ p.config1_addr
      → lo ≤ p.config2_addr
      → Preserves
          (HasOverrun (first_call bytes data_len out_buf out_len config flash status) locals)
          flash
          (execute_datagram_commands p bytes data_len out_buf out_len config flash status locals)
  unfolding execute_datagram_commands execute_call
  execute-Preserves k bytes data_len out_buf out_len config flash status locals h h1 h2 =
      call-Preserves k (first_call bytes data_len out_buf out_len config flash status) locals _ _ h
        h1 h2 refl

-- ===== src/Command.antt =====
-- command.h and command.c. This file has what the command handlers share; each child has a group of
-- them, and Dispatch has the table and the interpreter of a datagram's data.
pub mod Region
pub mod Erase
pub mod Write
pub mod Settings
pub mod Dispatch
pub mod Protection
pub mod Erasure
pub mod Verdicts
pub mod PowerCut
pub mod Verified
use cvra_bootloader.Prelude.{ℕ, ◌+◌, List, Option, none, some}
use cvra_bootloader.Prelude.Words.{u32}
use cvra_bootloader.Platform.{Platform}
use cvra_bootloader.Config.{Config}

-- What a handler reads and changes: its arguments, its reply, the configuration, the flash memory,
-- and the static `status`.
pub record Call (p : Platform) : Type 0 where
  pub args : p.Ctx
  pub out : p.Ctx
  pub config : Config
  pub flash : p.Flash
  pub status : ℕ

-- What uninitialised local variables hold.
pub record Locals : Type 0 where
  pub number : ℕ
  pub text : List ℕ

-- A handler returns, resets the processor with a boot argument, or reads or writes outside of a
-- buffer.
pub data Outcome (p : Platform) : Type 0 where
  returned : Call p → Outcome p
  rebooted : ℕ → Call p → Outcome p
  fault : Outcome p

-- `cmp_write_uint(out, code); return;`
abbrev pub reply : {p : Platform} → Call p → ℕ → Outcome p
reply {p} c code = returned (record c { out = p.write_uint c.out code })

-- A variable after a read into it.
abbrev pub or_kept : Option ℕ → ℕ → ℕ
or_kept none old = old
or_kept (some new) old = new

-- `memory_get_app_addr() + memory_get_app_size()`
abbrev pub app_end : Platform → ℕ
app_end p = u32 (p.app_addr + p.app_size)

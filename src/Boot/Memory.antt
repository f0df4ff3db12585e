-- ===== src/Boot/Memory.antt =====
-- platform/mcu/armv7-m/vector_table.c, bootloader_startup, and boot.c, reset_handler: the loops that give
-- the variables their first values.
pub mod Startup
use cvra_bootloader.Prelude.{ℕ, zero, suc, ◌+◌, Option, none, some, ltb, leb, ◌==◌, if◌then◌else◌}

-- Flash memory and RAM: the word at an address, which is counted in words.
abbrev pub Memory : Type 0
Memory = ℕ → ℕ

abbrev pub put : Memory → ℕ → ℕ → Memory
put m a v b = if b == a then v else m b

-- The symbols of the linker script.
pub record Sections : Type 0 where
  pub sbss : ℕ
  pub ebss : ℕ
  pub sdata : ℕ
  pub edata : ℕ
  pub ldata : ℕ
  pub etext : ℕ

-- `while (p < end) *p++ = 0;` None is a loop that the fuel did not suffice for.
unfoldable pub clear : ℕ → Memory → ℕ → ℕ → Option Memory
clear zero m p end = none
clear (suc fuel) m p end =
    let rest = clear fuel (put m p 0) (p + 1) end in if ltb p end then rest else some m

-- `while (dst < end) *dst++ = *src++;`
unfoldable pub copy : ℕ → Memory → ℕ → ℕ → ℕ → Option Memory
copy zero m dst src end = none
copy (suc fuel) m dst src end =
    let rest = copy fuel (put m dst (m src)) (dst + 1) (src + 1) end in
    if ltb dst end then rest else some m

-- `while (dst <= end) *(dst++) = *(src++);`
unfoldable pub copy_through : ℕ → Memory → ℕ → ℕ → ℕ → Option Memory
copy_through zero m dst src end = none
copy_through (suc fuel) m dst src end =
    let rest = copy_through fuel (put m dst (m src)) (dst + 1) (src + 1) end in
    if leb dst end then rest else some m

infixl 5 ◌>>=◌
abbrev pub ◌>>=◌ : Option Memory → (Memory → Option Memory) → Option Memory
none >>= f = none
some m >>= f = f m

-- `bootloader_startup`, in front of platform_main.
unfoldable pub bootloader_startup : ℕ → Sections → Memory → Option Memory
bootloader_startup fuel s m =
    clear fuel m s.sbss s.ebss >>= λ m'. copy fuel m' s.sdata s.ldata s.edata

-- What `reset_handler` of boot.c does between its reads of the first two words and its tests.
unfoldable pub init_variables : ℕ → Sections → Memory → Option Memory
init_variables fuel s m =
    copy_through fuel m s.sdata s.etext s.edata >>= λ m'. clear fuel m' s.sbss s.ebss

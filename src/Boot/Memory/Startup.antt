-- ===== src/Boot/Memory/Startup.antt =====
-- What the variables hold behind bootloader_startup, and behind the loops of boot.c.
use mathlib.Core.Path.{fun_ext}
use cvra_bootloader.Prelude.{
  ℕ, zero, suc, ◌+◌, ◌-◌, ◌≤◌, ◌<◌, ◌≡◌, ap, sym, ◌∙◌, Bool, true, false, ◌&&◌, some, arith, ltb,
  leb, if◌then◌else◌, dec_lt,
}
use cvra_bootloader.Boot.Memory.{
  Memory, put, Sections, clear, copy, copy_through, bootloader_startup, init_variables,
}

abbrev pub within : ℕ → ℕ → ℕ → Bool
within first end a = leb first a && ltb a end

abbrev cleared : ℕ → ℕ → Memory → Memory
cleared first end m a = if within first end a then 0 else m a

abbrev copied : ℕ → ℕ → ℕ → Memory → Memory
copied first end src m a = if within first end a then m (src + (a - first)) else m a

clear_lem :
    (fuel : ℕ) (m : Memory) (p end : ℕ)
    → end - p < fuel
    → clear fuel m p end ≡ some (cleared p end m)
unfolding clear
clear_lem zero m p end h = absurd (omega arith)
clear_lem (suc fuel) m p end h = elim (dec_lt p end) [
  | yes l ↦
      let more : ltb p end ≡ true = ground arith in
      rw more
        (clear_lem fuel (put m p 0) (p + 1) end (omega arith) ∙ ap some (fun_ext λ a. ground arith))
  | no g ↦
      let done : ltb p end ≡ false = ground arith in rw done (ap some (fun_ext λ a. ground arith))
]

copied_step :
    (m : Memory) (dst src end a : ℕ)
    → dst < end
    → src + (end - dst) ≤ dst
    → copied (dst + 1) end (src + 1) (put m dst (m src)) a ≡ copied dst end src m a
copied_step m dst src end a l below = elim (dec_lt dst a) [
  | yes behind ↦
      let e : src + 1 + (a - (dst + 1)) ≡ src + (a - dst) = omega arith in rw e (ground arith)
  | no before ↦ elim (dec_lt a dst) [
    | yes ahead ↦ ground arith
    | no level ↦
        let e : a ≡ dst = omega arith in
        let e' : src + (dst - dst) ≡ src = omega arith in rw (e, e') (ground arith)
  ]
]

copy_lem :
    (fuel : ℕ) (m : Memory) (dst src end : ℕ)
    → end - dst < fuel
    → src + (end - dst) ≤ dst
    → copy fuel m dst src end ≡ some (copied dst end src m)
unfolding copy
copy_lem zero m dst src end h below = absurd (omega arith)
copy_lem (suc fuel) m dst src end h below = elim (dec_lt dst end) [
  | yes l ↦
      let more : ltb dst end ≡ true = ground arith in
      rw more (
        copy_lem fuel (put m dst (m src)) (dst + 1) (src + 1) end (omega arith) (omega arith)
        ∙ ap some (fun_ext λ a. copied_step m dst src end a l below))
  | no g ↦
      let done : ltb dst end ≡ false = ground arith in rw done (ap some (fun_ext λ a. ground arith))
]

-- The loop with `<=` goes one word further.
copy_through_lem :
    (fuel : ℕ) (m : Memory) (dst src end : ℕ)
    → end + 1 - dst < fuel
    → src + (end + 1 - dst) ≤ dst
    → copy_through fuel m dst src end ≡ some (copied dst (end + 1) src m)
unfolding copy_through
copy_through_lem zero m dst src end h below = absurd (omega arith)
copy_through_lem (suc fuel) m dst src end h below = elim (dec_lt dst (end + 1)) [
  | yes l ↦
      let more : leb dst end ≡ true = ground arith in
      rw more (
        copy_through_lem fuel (put m dst (m src)) (dst + 1) (src + 1) end (omega arith)
          (omega arith)
        ∙ ap some (fun_ext λ a. copied_step m dst src (end + 1) a l below))
  | no g ↦
      let done : leb dst end ≡ false = ground arith in rw done (ap some (fun_ext λ a. ground arith))
]

-- As the linker scripts have it: .bss behind .data in RAM, and flash memory below RAM.
pub record IsLaidOut (s : Sections) : Type 0 where
  pub data_ends : s.sdata ≤ s.edata
  pub bss_follows : s.edata ≤ s.sbss
  pub bss_ends : s.sbss ≤ s.ebss
  pub flash_below : s.ldata + (s.edata + 1 - s.sdata) ≤ s.sdata

-- What the C language asks for: .data as in flash memory, .bss zero, and all else as before.
abbrev pub initialised : Sections → Memory → Memory
initialised s m a =
    if within s.sdata s.edata a
    then m (s.ldata + (a - s.sdata))
    else if within s.sbss s.ebss a
    then 0
    else m a

-- bootloader_startup gives the variables in .data their values from flash memory, sets those in .bss to
-- zero, and changes no other word. Its loops end: a round for each word of a section, and one more test,
-- are enough.
pub bootloader_startup_lem :
    (s : Sections) (m : Memory) (fuel : ℕ)
    → IsLaidOut s
    → s.edata - s.sdata < fuel
    → s.ebss - s.sbss < fuel
    → bootloader_startup fuel s m ≡ some (initialised s m)
unfolding bootloader_startup
bootloader_startup_lem s m fuel v h h' = rw (clear_lem fuel m s.sbss s.ebss h') (
    copy_lem fuel _ s.sdata s.ldata s.edata h (omega arith)
    ∙ ap some (fun_ext λ a. ground (arith, v)))

-- The loops of boot.c do the same as bootloader_startup, although its first one copies a word too many,
-- if .bss follows .data at once and is not empty, and if the values of .data stand at _etext.
pub init_variables-bootloader_startup :
    (s : Sections) (m : Memory) (fuel : ℕ)
    → IsLaidOut s
    → s.edata ≡ s.sbss
    → s.sbss < s.ebss
    → s.etext ≡ s.ldata
    → s.edata + 1 - s.sdata < fuel
    → s.ebss - s.sbss < fuel
    → init_variables fuel s m ≡ bootloader_startup fuel s m
unfolding init_variables
init_variables-bootloader_startup s m fuel v adjacent more same h h' =
    rw (copy_through_lem fuel m s.sdata s.etext s.edata h (omega arith)) (
      clear_lem fuel _ s.sbss s.ebss h'
      ∙ (ap some (fun_ext λ a. rw same (ground arith))
          ∙ sym (bootloader_startup_lem s m fuel v (omega arith) h')))

-- ===== src/Clock.antt =====
-- The calls that set up the clocks, in platform/mcu/stm32f4/clock.c and in the boards' platform.c, and what the
-- reference manuals say of them.
pub mod Scaled
pub mod Stm32f1
pub mod Stm32f4
pub mod Order
pub mod Crystal
pub mod Internal
use cvra_bootloader.Prelude.{
  ℕ, ◌+◌, ◌*◌, ◌/◌, Bool, true, false, ◌==◌, ◌||◌, ◌&&◌, not, leb, ltb, List, [], ◌∷◌,
  if◌then◌else◌,
}

pub data Osc : Type 0 where
  hsi : Osc
  hse : Osc
  pll : Osc

abbrev pub same : Osc → Osc → Bool
same hsi hsi = true
same hse hse = true
same pll pll = true
same a b = false

-- libopencm3's calls, and the assignments to its three variables. The arguments of a PLL are a divisor of its
-- input, a factor, and a divisor of its output; those of the prescalers are the fields of the register.
pub data Action : Type 0 where
  osc_on : Osc → Action
  osc_off : Osc → Action
  wait_for_osc_ready : Osc → Action
  wait_for_osc_not_ready : Osc → Action
  set_sysclk_source : Osc → Action
  wait_for_sysclk_status : Osc → Action
  set_pll_source : Osc → Action
  set_main_pll : Osc → ℕ → ℕ → ℕ → Action
  set_main_pll_hse : ℕ → Action
  set_prediv : ℕ → Action
  set_hpre : ℕ → Action
  set_ppre1 : ℕ → Action
  set_ppre2 : ℕ → Action
  flash_set_ws : ℕ → Action
  rcc_ahb_frequency : ℕ → Action
  rcc_apb1_frequency : ℕ → Action
  rcc_apb2_frequency : ℕ → Action

-- What the registers and those variables hold.
pub record Tree : Type 0 where
  pub on : Osc → Bool
  pub sysclk : Osc
  pub pll_source : Osc
  pub divisor : ℕ
  pub factor : ℕ
  pub post : ℕ
  pub hpre : ℕ
  pub ppre1 : ℕ
  pub ppre2 : ℕ
  pub ws : ℕ
  pub ahb_frequency : ℕ
  pub apb1_frequency : ℕ
  pub apb2_frequency : ℕ

abbrev switched : (Osc → Bool) → Osc → Bool → Osc → Bool
switched on o b a = if same a o then b else on a

abbrev pub step : Action → Tree → Tree
step (osc_on o) t = record t { on = switched t.on o true }
step (osc_off o) t = record t { on = switched t.on o false }
step (set_sysclk_source o) t = record t { sysclk = o }
step (set_pll_source o) t = record t { pll_source = o }
step (set_main_pll o m n p) t = record t { pll_source = o; divisor = m; factor = n; post = p }
step (set_main_pll_hse n) t = record t { pll_source = hse; factor = n; post = 1 }
step (set_prediv m) t = record t { divisor = m }
step (set_hpre v) t = record t { hpre = v }
step (set_ppre1 v) t = record t { ppre1 = v }
step (set_ppre2 v) t = record t { ppre2 = v }
step (flash_set_ws v) t = record t { ws = v }
step (rcc_ahb_frequency f) t = record t { ahb_frequency = f }
step (rcc_apb1_frequency f) t = record t { apb1_frequency = f }
step (rcc_apb2_frequency f) t = record t { apb2_frequency = f }
step other t = t

abbrev pub run : List Action → Tree → Tree
run [] t = t
run (a ∷ actions) t = run actions (step a t)

-- A chip and its board, in Hz: the two oscillators, the highest clock of each bus, and the highest AHB clock
-- for each wait state of the flash memory.
pub record Chip : Type 0 where
  pub hsi_hz : ℕ
  pub hse_hz : ℕ
  pub max_ahb : ℕ
  pub max_apb1 : ℕ
  pub max_apb2 : ℕ
  pub ws_hz : ℕ

-- The field HPRE, and PPRE1 and PPRE2.
abbrev pub ahb_divisor : ℕ → ℕ
ahb_divisor v =
    if ltb v 8
    then 1
    else if v == 8
    then 2
    else if v == 9
    then 4
    else if v == 10
    then 8
    else if v == 11
    then 16
    else if v == 12
    then 64
    else if v == 13
    then 128
    else if v == 14
    then 256
    else 512

abbrev pub apb_divisor : ℕ → ℕ
apb_divisor v =
    if ltb v 4 then 1 else if v == 4 then 2 else if v == 5 then 4 else if v == 6 then 8 else 16

module _ (chip : Chip) where
  abbrev pub input_hz : Osc → ℕ
  input_hz hse = chip.hse_hz
  input_hz other = chip.hsi_hz

  abbrev pub osc_hz : Tree → Osc → ℕ
  osc_hz t pll = input_hz t.pll_source / t.divisor * t.factor / t.post
  osc_hz t o = input_hz o

  abbrev pub ahb_hz : Tree → ℕ
  ahb_hz t = osc_hz t t.sysclk / ahb_divisor t.hpre

  abbrev pub apb1_hz : Tree → ℕ
  apb1_hz t = ahb_hz t / apb_divisor t.ppre1

  abbrev pub apb2_hz : Tree → ℕ
  apb2_hz t = ahb_hz t / apb_divisor t.ppre2

  -- No clock is too fast.
  unfoldable pub within : Tree → Bool
  within t =
      leb (ahb_hz t) chip.max_ahb
      && (leb (apb1_hz t) chip.max_apb1
          && (leb (apb2_hz t) chip.max_apb2 && leb (ahb_hz t) ((t.ws + 1) * chip.ws_hz)))

  -- An oscillator in use stays on, the processor takes its clock from one that is on, the PLL is not
  -- changed while it is on, and its input is on when it is turned on. The loops that wait end.
  unfoldable pub allowed : Action → Tree → Bool
  allowed (osc_off o) t = not (same t.sysclk o)
  allowed (osc_on pll) t = t.on t.pll_source
  allowed (wait_for_osc_ready o) t = t.on o
  allowed (wait_for_osc_not_ready o) t = not (t.on o)
  allowed (set_sysclk_source o) t = t.on o
  allowed (wait_for_sysclk_status o) t = same t.sysclk o
  allowed (set_pll_source o) t = not (t.on pll)
  allowed (set_main_pll o m n p) t = not (t.on pll)
  allowed (set_main_pll_hse n) t = not (t.on pll)
  allowed (set_prediv m) t = not (t.on pll)
  allowed other t = true

  -- Each action is allowed where it comes, and makes no clock too fast.
  unfoldable pub in_order : List Action → Tree → Bool
  in_order [] t = true
  in_order (a ∷ actions) t = allowed a t && (within (step a t) && in_order actions (step a t))

-- Behind a reset the processor runs from the HSI, and the PLL is off. What its fields then are does not matter.
abbrev pub at_reset : Tree
at_reset = record {
  on = λ o. same o hsi;
  sysclk = hsi;
  pll_source = hsi;
  divisor = 2;
  factor = 2;
  post = 1;
  hpre = 0;
  ppre1 = 0;
  ppre2 = 0;
  ws = 0;
  ahb_frequency = 0;
  apb1_frequency = 0;
  apb2_frequency = 0;
}

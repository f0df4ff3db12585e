-- ===== src/Can/Setup/Allowed.antt =====
-- What the hardware asks of the order of its set-up.
use cvra_bootloader.Prelude.{
  ℕ, ◌≡◌, refl, ap, Bool, true, false, ◌==◌, ◌||◌, ◌&&◌, List, [], ◌∷◌, if◌then◌else◌, arith,
}
use cvra_bootloader.Can.Setup.{
  gpio_mode_af, gpio_mode_output, Action, clock_gpio, clock_can1, clock_can2, gpio_set_af,
  gpio_mode_setup, gpio_set_output_options, gpio_set, gpio_clear, gpio_set_mode, can_init,
  can_ier_fmpie0,
}

-- What is set up at a moment: the clocks of the ports and of both CANs, and the pins with their alternate
-- function.
pub record Chip : Type 0 where
  pub clocked : ℕ → Bool
  pub can1_clocked : Bool
  pub can2_clocked : Bool
  pub has_af : ℕ → ℕ → Bool

abbrev pub step : Action → Chip → Chip
step (clock_gpio port) c = record c { clocked = λ q. q == port || c.clocked q }
step clock_can1 c = record c { can1_clocked = true }
step clock_can2 c = record c { can2_clocked = true }
step (gpio_set_af port pin) c = record c { has_af = λ q r. (q == port && r == pin) || c.has_af q r }
step other c = c

-- The registers of a port can be written with its clock on, and those of the CAN with the clock of CAN1 on,
-- the master, and for CAN2 with its own on too. A pin that is switched to its alternate function has it set already.
abbrev pub allowed : Action → Chip → Bool
allowed (gpio_set_af port pin) c = c.clocked port
allowed (gpio_mode_setup port gpio_mode_af pull pin) c = c.clocked port && c.has_af port pin
allowed (gpio_mode_setup port gpio_mode_output pull pin) c = c.clocked port
allowed (gpio_set_output_options port pin) c = c.clocked port
allowed (gpio_set port pin) c = c.clocked port
allowed (gpio_clear port pin) c = c.clocked port
allowed (gpio_set_mode port pin) c = c.clocked port
allowed (can_init can2) c = c.can1_clocked && (if can2 then c.can2_clocked else true)
allowed (can_ier_fmpie0 can1) c = c.can1_clocked && (if can1 then true else c.can2_clocked)
allowed other c = true

-- Each action is allowed where it comes.
abbrev pub in_order : List Action → Chip → Bool
in_order [] c = true
in_order (a ∷ actions) c = allowed a c && in_order actions (step a c)

-- Nothing is set up after a reset.
abbrev pub at_reset : Chip
at_reset = record {
  clocked = λ q. false;
  can1_clocked = false;
  can2_clocked = false;
  has_af = λ q r. false;
}

pub ==-self : (n : ℕ) → (n == n) ≡ true
==-self n = ground arith

pub and_true : (b : Bool) → (b && true) ≡ b
and_true true = refl
and_true false = refl

pub and_false : (b : Bool) → (b && false) ≡ false
and_false true = refl
and_false false = refl

pub or_more : (b c : Bool) → b ≡ true → (b || c) ≡ true
or_more b c e = ap (λ b. b || c) e

pub and_both : (a b : Bool) → a ≡ true → b ≡ true → (a && b) ≡ true
and_both a b e f = rw (e, f) refl

pub or_right : (a b : Bool) → b ≡ true → (a || b) ≡ true
or_right true b e = refl
or_right false b e = e

-- ===== src/Clock/Order.antt =====
-- Which clocks the set-ups lead to, and whether one is too fast on the way.
use native.Mathlib.Nat.{div-le_self}
use cvra_bootloader.Prelude.{
  not, ℕ, ◌+◌, ◌*◌, ◌≤◌, ◌≡◌, refl, Bool, true, ◌&&◌, leb, List, [], ◌∷◌, ◌++◌, arith,
}
use cvra_bootloader.Clock.{
  Osc, hsi, hse, pll, Action, Tree, Chip, step, run, ahb_divisor, apb_divisor, ahb_hz, apb1_hz,
  apb2_hz, within, allowed, in_order, same,
}

and_all :
    (a b c d : Bool) → a ≡ true → b ≡ true → c ≡ true → d ≡ true → (a && (b && (c && d))) ≡ true
and_all a b c d p q r s = rw (p, q, r, s) refl

-- The limits as numbers.
pub within_limits :
    (chip : Chip) (t : Tree)
    → ahb_hz chip t ≤ chip.max_ahb
    → apb1_hz chip t ≤ chip.max_apb1
    → apb2_hz chip t ≤ chip.max_apb2
    → ahb_hz chip t ≤ (t.ws + 1) * chip.ws_hz
    → within chip t ≡ true
unfolding within
within_limits chip t a b c d = and_all _ _ _ _ (test _ _ a) (test _ _ b) (test _ _ c) (test _ _ d)
  where
    test : (x y : ℕ) → x ≤ y → leb x y ≡ true
    test x y l = ground arith

le_times : (n k : ℕ) → k ≤ (n + 1) * k
le_times n k = grind arith

-- A source that is slow enough without a prescaler and without wait states is so with all.
pub slow_enough :
    (chip : Chip) (t : Tree) (f : ℕ)
    → ahb_hz chip t ≤ f
    → f ≤ chip.max_ahb
    → f ≤ chip.max_apb1
    → f ≤ chip.max_apb2
    → f ≤ chip.ws_hz
    → within chip t ≡ true
slow_enough chip t f h a b c d =
    let ahb : ℕ = ahb_hz chip t in
    let apb1 : apb1_hz chip t ≤ ahb_hz chip t = div-le_self (ahb_hz chip t) (apb_divisor t.ppre1) in
    let apb2 : apb2_hz chip t ≤ ahb_hz chip t = div-le_self (ahb_hz chip t) (apb_divisor t.ppre2) in
    within_limits chip t (omega arith) (omega arith) (omega arith)
      (omega (arith, le_times t.ws chip.ws_hz))

-- Both oscillators are slow enough for all.
pub record IsSlow (chip : Chip) : Type 0 where
  pub hsi_ahb : chip.hsi_hz ≤ chip.max_ahb
  pub hsi_apb1 : chip.hsi_hz ≤ chip.max_apb1
  pub hsi_apb2 : chip.hsi_hz ≤ chip.max_apb2
  pub hsi_ws : chip.hsi_hz ≤ chip.ws_hz
  pub hse_ahb : chip.hse_hz ≤ chip.max_ahb
  pub hse_apb1 : chip.hse_hz ≤ chip.max_apb1
  pub hse_apb2 : chip.hse_hz ≤ chip.max_apb2
  pub hse_ws : chip.hse_hz ≤ chip.ws_hz

from_hsi : (chip : Chip) (t : Tree) → IsSlow chip → t.sysclk ≡ hsi → within chip t ≡ true
from_hsi chip t v e =
    let h : ahb_hz chip t ≤ chip.hsi_hz = rw e (div-le_self chip.hsi_hz (ahb_divisor t.hpre)) in
    slow_enough chip t chip.hsi_hz h v.hsi_ahb v.hsi_apb1 v.hsi_apb2 v.hsi_ws

from_hse : (chip : Chip) (t : Tree) → IsSlow chip → t.sysclk ≡ hse → within chip t ≡ true
from_hse chip t v e =
    let h : ahb_hz chip t ≤ chip.hse_hz = rw e (div-le_self chip.hse_hz (ahb_divisor t.hpre)) in
    slow_enough chip t chip.hse_hz h v.hse_ahb v.hse_apb1 v.hse_apb2 v.hse_ws

from_oscillator :
    (chip : Chip) (t : Tree) (o : Osc)
    → IsSlow chip
    → t.sysclk ≡ o
    → not (same o pll) ≡ true
    → within chip t ≡ true
from_oscillator chip t hsi v e h = from_hsi chip t v e
from_oscillator chip t hse v e h = from_hse chip t v e
from_oscillator chip t pll v e h = absurd (ground (arith, h))

-- Each action is allowed where it comes, and the processor never runs from the PLL.
abbrev pub is_calm : Chip → List Action → Tree → Bool
is_calm chip [] t = true
is_calm chip (a ∷ actions) t =
    allowed chip a t && (not (same (step a t).sysclk pll) && is_calm chip actions (step a t))

and_left : (a b : Bool) → (a && b) ≡ true → a ≡ true
and_left a b h = ground arith

and_right : (a b : Bool) → (a && b) ≡ true → b ≡ true
and_right a b h = ground arith

-- Actions in front of others.
pub in_order-append :
    (chip : Chip) (xs ys : List Action) (t : Tree)
    → in_order chip (xs ++ ys) t ≡ (in_order chip xs t && in_order chip ys (run xs t))
unfolding in_order
in_order-append chip [] ys t = refl
in_order-append chip (a ∷ xs) ys t = rw (in_order-append chip xs ys (step a t)) (ground arith)

pub calm-in_order :
    (chip : Chip) (xs : List Action) (t : Tree)
    → IsSlow chip
    → is_calm chip xs t ≡ true
    → in_order chip xs t ≡ true
unfolding in_order
calm-in_order chip [] t v h = refl
calm-in_order chip (a ∷ xs) t v h =
    let off : Bool = not (same (step a t).sysclk pll) in
    let later = is_calm chip xs (step a t) in
    let rest = and_right (allowed chip a t) (off && later) h in
    rw
      (
        and_left (allowed chip a t) (off && later) h,
        from_oscillator chip (step a t) (step a t).sysclk v refl (and_left off later rest),
        calm-in_order chip xs (step a t) v (and_right off later rest),
      )
      refl

pub next :
    (chip : Chip) (a : Action) (actions : List Action) (t : Tree)
    → allowed chip a t ≡ true
    → within chip (step a t) ≡ true
    → in_order chip actions (step a t) ≡ true
    → in_order chip (a ∷ actions) t ≡ true
unfolding in_order
next chip a actions t p q r = rw (p, q, r) refl

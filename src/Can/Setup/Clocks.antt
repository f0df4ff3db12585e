-- ===== src/Can/Setup/Clocks.antt =====
-- The clocks of the ports A to D, each turned on if something uses the port.
use mathlib.Core.Path.{fun_ext}
use cvra_bootloader.Prelude.{
  ℕ, zero, suc, sym, ◌<◌, ◌≡◌, refl, ap, ◌∙◌, Bool, true, false, ◌==◌, ◌||◌, ◌&&◌, List, [], ◌∷◌,
  ◌++◌, if◌then◌else◌, arith,
}
use cvra_bootloader.Can.Setup.{Action, clock_gpio}
use cvra_bootloader.Can.Setup.Allowed.{Chip, step, in_order, and_true, and_false, or_more}

abbrev pub with_clock : Bool → ℕ → Chip → Chip
with_clock used port c = record c { clocked = λ q. (q == port && used) || c.clocked q }

with_clock-step :
    (used : Bool) (port : ℕ) (c : Chip)
    → (if used then step (clock_gpio port) c else c) ≡ with_clock used port c
with_clock-step true port c =
    ap (λ f. record c { clocked = f })
      (fun_ext λ q. ap (λ b. b || c.clocked q) (sym (and_true (q == port))))
with_clock-step false port c =
    ap (λ f. record c { clocked = f })
      (fun_ext λ q. ap (λ b. b || c.clocked q) (sym (and_false (q == port))))

pub clock_if_in_order :
    (used : Bool) (port : ℕ) (rest : List Action) (c : Chip)
    → in_order ((if used then clock_gpio port ∷ [] else []) ++ rest) c
      ≡ in_order rest (with_clock used port c)
clock_if_in_order used port rest c = first used ∙ ap (in_order rest) (with_clock-step used port c)
  where
    first :
        (b : Bool)
        → in_order ((if b then clock_gpio port ∷ [] else []) ++ rest) c
          ≡ in_order rest (if b then step (clock_gpio port) c else c)
    first true = refl
    first false = refl

-- The four ports.
abbrev pub with_clocks : (ℕ → Bool) → Chip → Chip
with_clocks used c =
    with_clock (used 3) 3 (with_clock (used 2) 2 (with_clock (used 1) 1 (with_clock (used 0) 0 c)))

pub clocked_if_used :
    (used : ℕ → Bool) (c : Chip) (port : ℕ)
    → port < 4
    → used port ≡ true
    → (with_clocks used c).clocked port ≡ true
clocked_if_used used c zero l u = or_more (used 0) _ u
clocked_if_used used c (suc zero) l u = or_more (used 1) _ u
clocked_if_used used c (suc (suc zero)) l u = or_more (used 2) _ u
clocked_if_used used c (suc (suc (suc zero))) l u = or_more (used 3) _ u
clocked_if_used used c (suc (suc (suc (suc n)))) l u = absurd (omega arith)

-- ===== src/Boards/Nucleo.antt =====
-- The order of the calls of platform/nucleo-board-stm32f334r8/platform.c, for all settings of its platform.h.
use cvra_bootloader.Prelude.{
  ℕ, zero, suc, ◌<◌, ◌≡◌, refl, ap, ◌∙◌, Bool, true, false, ◌==◌, ◌&&◌, List, [], ◌∷◌, ◌++◌,
  append_assoc, arith, if◌then◌else◌,
}
use cvra_bootloader.Can.Setup.{
  Macros, Action, setup_enable, enables, clock_gpio, clock_can1, gpio_mode_setup, gpio_mode_af,
  gpio_set_af, gpio_set, can_init,
}
use cvra_bootloader.Can.Setup.Allowed.{Chip, in_order, ==-self, or_more, or_right}
use cvra_bootloader.Can.Setup.Clocks.{with_clock, clock_if_in_order}
use cvra_bootloader.Can.Setup.Order.{uses, uses_tx, uses_rx, uses_enable, enable_in_order}
use cvra_bootloader.Boards.Calls.{setup_outputs}
use cvra_bootloader.Boards.NucleoBoardStm32f334r8.{
  platform_main, can_interface_init, enable_port, led_init,
}

-- The ports A and B.
abbrev with_both : (ℕ → Bool) → Chip → Chip
with_both used c = with_clock (used 1) 1 (with_clock (used 0) 0 c)

clocked_if_used :
    (used : ℕ → Bool) (c : Chip) (port : ℕ)
    → port < 2
    → used port ≡ true
    → (with_both used c).clocked port ≡ true
clocked_if_used used c zero l u = or_more (used 0) _ u
clocked_if_used used c (suc zero) l u = or_more (used 1) _ u
clocked_if_used used c (suc (suc n)) l u = absurd (omega arith)

-- The calls behind the clocks, on a chip where every pin counts as set to its alternate function.
abbrev behind_clocks : Macros → List Action
behind_clocks m =
    clock_can1
    ∷ gpio_mode_setup m.tx_port gpio_mode_af true m.tx_pin
    ∷ gpio_set_af m.tx_port m.tx_pin
    ∷ gpio_mode_setup m.rx_port gpio_mode_af true m.rx_pin
    ∷ gpio_set_af m.rx_port m.rx_pin
    ∷ (setup_enable m.can_enable_inverted m.enable ++ (can_init false ∷ []))

behind_clocks-in_order :
    (m : Macros) (c : Chip)
    → c.clocked m.tx_port ≡ true
    → c.clocked m.rx_port ≡ true
    → ((port : ℕ) → enables m.enable port ≡ true → c.clocked port ≡ true)
    → ((port pin : ℕ) → c.has_af port pin ≡ true)
    → in_order (behind_clocks m) c ≡ true
behind_clocks-in_order m c tx rx on af =
    rw
      (
        tx,
        rx,
        af m.tx_port m.tx_pin,
        or_right (m.rx_port == m.tx_port && m.rx_pin == m.tx_pin) _ (af m.rx_port m.rx_pin),
      )
      (enable_in_order m.can_enable_inverted m.enable (can_init false ∷ []) _ on refl)

behind_the_clocks :
    (m : Macros) (port pin : ℕ) (c : Chip)
    → in_order (can_interface_init m) c ≡ in_order (behind_clocks m) (with_both (uses m) c)
unfolding can_interface_init enable_port
behind_the_clocks m port pin c =
    clock_if_in_order (uses m 0) 0 _ c
    ∙ clock_if_in_order (uses m 1) 1 _ (with_clock (uses m 0) 0 c)

second_fails : (a b c : Bool) → b ≡ false → ((a && b) && c) ≡ false
second_fails true b c e = rw e refl
second_fails false b c e = refl

-- Its first call that switches a pin comes before the alternate function is set.
behind_clocks_too_early :
    (m : Macros) (c : Chip)
    → c.has_af m.tx_port m.tx_pin ≡ false
    → in_order (behind_clocks m) c ≡ false
behind_clocks_too_early m c af = second_fails _ _ _ af

can_interface_init-in_order :
    (m : Macros) (port pin : ℕ) (c : Chip)
    → m.tx_port < 2
    → m.rx_port < 2
    → ((q : ℕ) → enables m.enable q ≡ true → q < 2)
    → ((port pin : ℕ) → c.has_af port pin ≡ true)
    → in_order (can_interface_init m) c ≡ true
can_interface_init-in_order m port pin c tx rx listed af =
    behind_the_clocks m port pin c
    ∙ behind_clocks-in_order m (with_both (uses m) c)
        (clocked_if_used (uses m) c m.tx_port tx (uses_tx m))
        (clocked_if_used (uses m) c m.rx_port rx (uses_rx m))
        (λ q e. clocked_if_used (uses m) c q (listed q e) (uses_enable m q e)) af

led_init_assoc :
    (port pin : ℕ) (rest : List Action)
    → led_init port pin ++ rest
      ≡ (if port == 0 then clock_gpio 0 ∷ [] else [])
        ++ ((if port == 1 then clock_gpio 1 ∷ [] else [])
            ++ (setup_outputs port (pin ∷ []) ++ (gpio_set port pin ∷ rest)))
unfolding led_init
led_init_assoc port pin rest = simp (append_assoc)

in_order-led_init :
    (port pin : ℕ) (rest : List Action) (c : Chip)
    → port < 2
    → in_order (led_init port pin ++ rest) c ≡ in_order rest (with_both (λ q. port == q) c)
unfolding setup_outputs
in_order-led_init port pin rest c l =
    let on : (with_both (λ q. port == q) c).clocked port ≡ true =
      clocked_if_used (λ q. port == q) c port l (==-self port) in
    ap (λ actions. in_order actions c) (led_init_assoc port pin rest)
    ∙ clock_if_in_order (port == 0) 0 _ c
    ∙ clock_if_in_order (port == 1) 1 _ (with_clock (port == 0) 0 c)
    ∙ rw on refl

module _ (m : Macros) (port pin : ℕ) (c : Chip) (led : port < 2) where
  pub stm32f334_in_order :
      m.tx_port < 2
      → m.rx_port < 2
      → ((q : ℕ) → enables m.enable q ≡ true → q < 2)
      → ((port pin : ℕ) → c.has_af port pin ≡ true)
      → in_order (platform_main m port pin) c ≡ true
  unfolding platform_main
  stm32f334_in_order tx rx listed af =
      in_order-led_init port pin _ c led
      ∙ can_interface_init-in_order m port pin (with_both (λ q. port == q) c) tx rx listed af

  pub stm32f334_too_early :
      c.has_af m.tx_port m.tx_pin ≡ false → in_order (platform_main m port pin) c ≡ false
  unfolding platform_main
  stm32f334_too_early af =
      in_order-led_init port pin _ c led
      ∙ behind_the_clocks m port pin (with_both (λ q. port == q) c)
      ∙ behind_clocks_too_early m (with_both (uses m) (with_both (λ q. port == q) c)) af

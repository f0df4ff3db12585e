-- ===== src/Can/Setup/Order.antt =====
-- The order of the calls of can_interface_init.
use cvra_bootloader.Prelude.{
  ℕ, ◌<◌, ◌≡◌, refl, ap, ◌∙◌, Bool, true, false, ◌==◌, ◌||◌, List, [], ◌∷◌, ◌++◌, Option, none,
  some, arith,
}
use cvra_bootloader.Can.Setup.{
  Macros, Action, clock_can1, clock_can2, can_init, fifo_init, can_ier_fmpie0, nvic_enable, enables,
  enable_clock, setup_pins, setup_enable, when, setup_interrupts, can_interface_init,
}
use cvra_bootloader.Can.Setup.Clocks.{with_clock, clock_if_in_order, with_clocks, clocked_if_used}
use cvra_bootloader.Can.Setup.Allowed.{
  Chip, allowed, in_order, ==-self, or_more, and_both, or_right,
}

abbrev pub uses : Macros → ℕ → Bool
uses m port = m.tx_port == port || m.rx_port == port || enables m.enable port

in_order-enable_clock :
    (m : Macros) (port : ℕ) (rest : List Action) (c : Chip)
    → in_order (enable_clock m port ++ rest) c ≡ in_order rest (with_clock (uses m port) port c)
unfolding enable_clock
in_order-enable_clock m port rest c = clock_if_in_order (uses m port) port rest c

interrupts_in_order :
    (m : Macros) (c : Chip)
    → c.can1_clocked ≡ true
    → (m.use_can2 ≡ true → c.can2_clocked ≡ true)
    → in_order (setup_interrupts m) c ≡ true
unfolding setup_interrupts
interrupts_in_order m c e f = cases m.can_use_interrupts m.use_can1 m.use_can2 f
  where
    cases :
        (b b1 b2 : Bool)
        → (b2 ≡ true → c.can2_clocked ≡ true)
        → in_order
            (when b (
              when b1 (can_ier_fmpie0 true ∷ nvic_enable true ∷ [])
              ++ when b2 (can_ier_fmpie0 false ∷ nvic_enable false ∷ [])))
            c
          ≡ true
    cases false b1 b2 f = refl
    cases true true true f = rw (e, f refl) refl
    cases true true false f = rw e refl
    cases true false true f = rw (e, f refl) refl
    cases true false false f = refl

-- The pin for the transceiver, and what follows.
pub enable_in_order :
    (inverted : Bool) (enable : Option (ℕ × ℕ)) (rest : List Action) (c : Chip)
    → ((port : ℕ) → enables enable port ≡ true → c.clocked port ≡ true)
    → in_order rest c ≡ true
    → in_order (setup_enable inverted enable ++ rest) c ≡ true
unfolding setup_enable
enable_in_order inverted none rest c on e = e
enable_in_order true (some (port, pin)) rest c on e = rw (on port (==-self port)) e
enable_in_order false (some (port, pin)) rest c on e = rw (on port (==-self port)) e

pins_in_order :
    (m : Macros) (rest : List Action) (c : Chip)
    → c.clocked m.tx_port ≡ true
    → c.clocked m.rx_port ≡ true
    → ((c' : Chip)
        → c'.clocked ≡ c.clocked
        → c'.can1_clocked ≡ c.can1_clocked
        → c'.can2_clocked ≡ c.can2_clocked
        → in_order rest c' ≡ true)
    → in_order (setup_pins m ++ rest) c ≡ true
unfolding setup_pins
pins_in_order m rest c tx rx e =
    rw (tx, rx, ==-self m.tx_port, ==-self m.tx_pin, ==-self m.rx_port, ==-self m.rx_pin)
      (e _ refl refl refl)

pub uses_tx : (m : Macros) → uses m m.tx_port ≡ true
uses_tx m = or_more _ _ (or_more _ _ (==-self m.tx_port))

pub uses_rx : (m : Macros) → uses m m.rx_port ≡ true
uses_rx m = or_more _ _ (or_right (m.tx_port == m.rx_port) _ (==-self m.rx_port))

pub uses_enable : (m : Macros) (port : ℕ) → enables m.enable port ≡ true → uses m port ≡ true
uses_enable m port e = or_right (m.tx_port == port || m.rx_port == port) _ e

-- The ports whose clocks the code can enable.
abbrev pub IsListed : Option (ℕ × ℕ) → Type 0
IsListed none = Unit
IsListed (some (port, pin)) = port < 4

pub listed_below :
    (enable : Option (ℕ × ℕ)) (port : ℕ) → IsListed enable → enables enable port ≡ true → port < 4
listed_below none port l e = absurd (ground (arith, e))
listed_below (some (q, pin)) port l e = ground (arith, l, e)

can_allowed :
    (can2 : Bool) (c : Chip)
    → c.can1_clocked ≡ true
    → (can2 ≡ true → c.can2_clocked ≡ true)
    → allowed (can_init can2) c ≡ true
can_allowed true c one two = and_both _ _ one (two refl)
can_allowed false c one two = and_both _ _ one refl

-- Behind the clocks.
tail_in_order :
    (m : Macros) (c : Chip)
    → c.clocked m.tx_port ≡ true
    → c.clocked m.rx_port ≡ true
    → ((port : ℕ) → enables m.enable port ≡ true → c.clocked port ≡ true)
    → c.can1_clocked ≡ true
    → (m.use_can2 ≡ true → c.can2_clocked ≡ true)
    → in_order
        (setup_pins m
          ++ (setup_enable m.can_enable_inverted m.enable
              ++ (can_init m.use_can2
                  ∷ (when m.can_rx_buffer_enabled (fifo_init ∷ []) ++ setup_interrupts m))))
        c
      ≡ true
tail_in_order m c tx rx on one two = pins_in_order m _ c tx rx λ c' e e1 e2.
    let two' : m.use_can2 ≡ true → c'.can2_clocked ≡ true = λ u. e2 ∙ two u in
    enable_in_order m.can_enable_inverted m.enable _ c' (λ port u. ap (λ f. f port) e ∙ on port u)
      (and_both _ _ (can_allowed m.use_can2 c' (e1 ∙ one) two')
        (buffered m.can_rx_buffer_enabled c' (e1 ∙ one) two'))
  where
    buffered :
        (b : Bool) (c' : Chip)
        → c'.can1_clocked ≡ true
        → (m.use_can2 ≡ true → c'.can2_clocked ≡ true)
        → in_order (when b (fifo_init ∷ []) ++ setup_interrupts m) c' ≡ true
    buffered true c' one' two' = interrupts_in_order m c' one' two'
    buffered false c' one' two' = interrupts_in_order m c' one' two'

-- Whatever is set up already.
pub can_interface_init-in_order :
    (m : Macros) (c : Chip)
    → m.tx_port < 4
    → m.rx_port < 4
    → IsListed m.enable
    → in_order (can_interface_init m) c ≡ true
unfolding can_interface_init
can_interface_init-in_order m c tx rx listed =
    let c0 = with_clock (uses m 0) 0 c in
    let c1 = with_clock (uses m 1) 1 c0 in
    let c2 = with_clock (uses m 2) 2 c1 in
    in_order-enable_clock m 0 _ c
    ∙ in_order-enable_clock m 1 _ c0
    ∙ in_order-enable_clock m 2 _ c1
    ∙ in_order-enable_clock m 3 _ c2
    ∙ cans m.use_can2 refl
  where
    on_tx : (with_clocks (uses m) c).clocked m.tx_port ≡ true
    on_tx = clocked_if_used (uses m) c m.tx_port tx (uses_tx m)

    on_rx : (with_clocks (uses m) c).clocked m.rx_port ≡ true
    on_rx = clocked_if_used (uses m) c m.rx_port rx (uses_rx m)

    on_enable :
        (port : ℕ) → enables m.enable port ≡ true → (with_clocks (uses m) c).clocked port ≡ true
    on_enable port e =
        clocked_if_used (uses m) c port (listed_below m.enable port listed e) (uses_enable m port e)

    cans :
        (can2 : Bool)
        → m.use_can2 ≡ can2
        → in_order
            (clock_can1
              ∷ (when can2 (clock_can2 ∷ [])
                  ++ (setup_pins m
                      ++ (setup_enable m.can_enable_inverted m.enable
                          ++ (can_init m.use_can2
                              ∷ (when m.can_rx_buffer_enabled (fifo_init ∷ [])
                                  ++ setup_interrupts m))))))
            (with_clocks (uses m) c)
          ≡ true
    cans true e = tail_in_order m _ on_tx on_rx on_enable refl (λ u. refl)
    cans false e = tail_in_order m _ on_tx on_rx on_enable refl (λ u. absurd (ground (arith, e, u)))

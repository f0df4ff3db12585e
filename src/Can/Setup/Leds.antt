-- ===== src/Can/Setup/Leds.antt =====
-- platform/mcu/stm32f4/led.c, led_init, and platform/nucleo-board-stm32f446re/platform.c, which calls it in
-- front of can_interface_init: the order of their calls.
use cvra_bootloader.Prelude.{
  ℕ, ◌<◌, ◌≡◌, ap, ◌∙◌, Bool, true, false, ◌||◌, List, [], ◌∷◌, ◌++◌, append_assoc, Option, none,
  some, if◌then◌else◌,
}
use cvra_bootloader.Can.Setup.{
  Macros, gpio_mode_output, Action, clock_gpio, gpio_mode_setup, gpio_set_output_options,
  gpio_clear, enables, can_interface_init,
}
use cvra_bootloader.Can.Setup.Allowed.{Chip, in_order, at_reset, ==-self, or_more, or_right}
use cvra_bootloader.Can.Setup.Clocks.{with_clock, clock_if_in_order, with_clocks, clocked_if_used}
use cvra_bootloader.Can.Setup.Order.{IsListed, listed_below, can_interface_init-in_order}

-- The port and the pin of LED1 and of LED2, or none without the LED.
pub record LedPins : Type 0 where
  pub led1 : Option (ℕ × ℕ)
  pub led2 : Option (ℕ × ℕ)

-- `(defined(LED1) && (GPIO_PORT_LED1 == port)) || (defined(LED2) && (GPIO_PORT_LED2 == port))`
unfoldable pub lights : LedPins → ℕ → Bool
lights l port = enables l.led1 port || enables l.led2 port

-- One of the four `#if`s on the ports.
unfoldable pub enable_led_clock : LedPins → ℕ → List Action
enable_led_clock l port = if lights l port then clock_gpio port ∷ [] else []

-- One of the two `#ifdef`s on the LEDs.
unfoldable pub setup_led : Option (ℕ × ℕ) → List Action
setup_led none = []
setup_led (some (port, pin)) =
    gpio_mode_setup port gpio_mode_output false pin
    ∷ gpio_set_output_options port pin
    ∷ gpio_clear port pin
    ∷ []

unfoldable pub led_init : LedPins → List Action
led_init l =
    enable_led_clock l 0
    ++ (enable_led_clock l 1
        ++ (enable_led_clock l 2
            ++ (enable_led_clock l 3 ++ (setup_led l.led1 ++ setup_led l.led2))))

-- The two calls of platform_main that set up pins. Left out are the clock, timer_init, and between the two
-- led_on, which lights an LED that is set up.
unfoldable pub set_up_pins : LedPins → Macros → List Action
set_up_pins l m = led_init l ++ can_interface_init m

in_order-enable_led_clock :
    (l : LedPins) (port : ℕ) (rest : List Action) (c : Chip)
    → in_order (enable_led_clock l port ++ rest) c
      ≡ in_order rest (with_clock (lights l port) port c)
unfolding enable_led_clock
in_order-enable_led_clock l port rest c = clock_if_in_order (lights l port) port rest c

setup_led-in_order :
    (led : Option (ℕ × ℕ)) (rest : List Action) (c : Chip)
    → ((port : ℕ) → enables led port ≡ true → c.clocked port ≡ true)
    → in_order rest c ≡ true
    → in_order (setup_led led ++ rest) c ≡ true
unfolding setup_led
setup_led-in_order none rest c on e = e
setup_led-in_order (some (port, pin)) rest c on e = rw (on port (==-self port)) e

led_init_assoc :
    (l : LedPins) (rest : List Action)
    → led_init l ++ rest
      ≡ enable_led_clock l 0
        ++ (enable_led_clock l 1
            ++ (enable_led_clock l 2
                ++ (enable_led_clock l 3 ++ (setup_led l.led1 ++ (setup_led l.led2 ++ rest)))))
unfolding led_init
led_init_assoc l rest = simp (append_assoc)

-- Whatever comes behind, if it is in order from any state of the chip.
led_init-in_order :
    (l : LedPins) (rest : List Action) (c : Chip)
    → IsListed l.led1
    → IsListed l.led2
    → ((c' : Chip) → in_order rest c' ≡ true)
    → in_order (led_init l ++ rest) c ≡ true
unfolding lights
led_init-in_order l rest c listed1 listed2 e =
    let c0 = with_clock (lights l 0) 0 c in
    let c1 = with_clock (lights l 1) 1 c0 in
    let c2 = with_clock (lights l 2) 2 c1 in
    ap (λ actions. in_order actions c) (led_init_assoc l rest)
    ∙ in_order-enable_led_clock l 0 _ c
    ∙ in_order-enable_led_clock l 1 _ c0
    ∙ in_order-enable_led_clock l 2 _ c1
    ∙ in_order-enable_led_clock l 3 _ c2
    ∙ setup_led-in_order l.led1 _ _ on1 (setup_led-in_order l.led2 _ _ on2 (e _))
  where
    on1 : (port : ℕ) → enables l.led1 port ≡ true → (with_clocks (lights l) c).clocked port ≡ true
    on1 port u =
        clocked_if_used (lights l) c port (listed_below l.led1 port listed1 u) (or_more _ _ u)

    on2 : (port : ℕ) → enables l.led2 port ≡ true → (with_clocks (lights l) c).clocked port ≡ true
    on2 port u =
        clocked_if_used (lights l) c port (listed_below l.led2 port listed2 u)
          (or_right (enables l.led1 port) _ u)

-- led_init and can_interface_init of the STM32F4, which platform_main calls in this order, make
-- their calls in an order that the hardware allows, for all settings of platform.h whose pins are on the
-- ports A to D: a port's clock is on before the port is touched, the clocks of CAN1 and of the CAN in use
-- before that CAN is, and a pin of the CAN has its alternate function before it is switched to it, so
-- that it does not send a frame by mistake.
pub set_up_pins-in_order :
    (l : LedPins) (m : Macros)
    → IsListed l.led1
    → IsListed l.led2
    → m.tx_port < 4
    → m.rx_port < 4
    → IsListed m.enable
    → in_order (set_up_pins l m) at_reset ≡ true
unfolding set_up_pins
set_up_pins-in_order l m listed1 listed2 tx rx listed =
    led_init-in_order l (can_interface_init m) at_reset listed1 listed2
      λ c. can_interface_init-in_order m c tx rx listed

-- ===== src/Boot/Vectors.antt =====
-- platform/mcu/armv7-m/vector_table.c, vector_table, and the fault_handler of
-- platform/nucleo-board-stm32f446re/platform.c: what runs when an exception comes.
use cvra_bootloader.Prelude.{
  ℕ, zero, suc, ◌+◌, ◌-◌, ◌<◌, ◌≡◌, refl, ap, ◌∙◌, List, [], ◌∷◌, ◌++◌, Option, some, arith, length,
  get_elem?, replicate, ◌==◌, if◌then◌else◌, dec_lt, false, inl, inr, Bool-cases,
}
use cvra_bootloader.Command.Settings.{boot_arg_start_bootloader_no_timeout}
use cvra_bootloader.Boot.{
  Ram, Start, reboot_system, reset_handler, asked, reset_handler-reboot_system,
}

pub data Handler : Type 0 where
  eram : Handler
  reset : Handler
  fault : Handler
  systick : Handler
  can2_rx0 : Handler
  reserved : Handler

-- The entries that the processor itself has, from the stack pointer on.
abbrev pub exceptions : List Handler
exceptions =
    eram ∷ reset ∷ fault ∷ fault ∷ fault ∷ fault ∷ fault ∷ reserved ∷ reserved ∷ reserved ∷ reserved
    ∷ fault ∷ reserved ∷ reserved ∷ fault ∷ systick ∷ []

-- IRQ0 to IRQ69, with CAN_USE_INTERRUPTS.
abbrev pub interrupt_requests : List Handler
interrupt_requests = replicate 64 fault ++ (can2_rx0 ∷ replicate 5 fault)

unfoldable pub vector_table : List Handler
vector_table = exceptions ++ interrupt_requests

-- `fault_handler`, up to the reset.
unfoldable pub fault_handler : Ram
fault_handler = reboot_system boot_arg_start_bootloader_no_timeout

-- What an exception leads to: a start, the next millisecond, a frame in the buffer, or nothing defined.
pub data Effect : Type 0 where
  starts : Start → Effect
  ticks : Effect
  receives : Effect
  undefined : Effect

-- The argument is the start behind a reset.
abbrev pub effect : Start → Option Handler → Effect
effect start (some fault) = starts (reset_handler fault_handler)
effect start (some reset) = starts start
effect start (some systick) = ticks
effect start (some can2_rx0) = receives
effect start other = undefined

-- The exceptions that the entries which are not reserved stand for.
pub data Source : Type 0 where
  nmi : Source
  hard_fault : Source
  mem_manage : Source
  bus_fault : Source
  usage_fault : Source
  svcall : Source
  pendsv : Source
  system_tick : Source
  irq : ℕ → Source

-- Their numbers in the architecture.
abbrev pub number : Source → ℕ
number nmi = 2
number hard_fault = 3
number mem_manage = 4
number bus_fault = 5
number usage_fault = 6
number svcall = 11
number pendsv = 14
number system_tick = 15
number (irq n) = 16 + n

abbrev pub IsServed : Source → Type 0
IsServed (irq n) = n < 70
IsServed source = Unit {0}

-- The interrupt of CAN2's first FIFO, in the STM32F446.
abbrev pub can2_rx0_irq : ℕ
can2_rx0_irq = 64

abbrev pub expected : Source → Effect
expected system_tick = ticks
expected (irq n) =
    if n == can2_rx0_irq then receives else starts (asked boot_arg_start_bootloader_no_timeout)
expected source = starts (asked boot_arg_start_bootloader_no_timeout)

get_elem?-append_right {ℓ} :
    {A : Type ℓ} (xs ys : List A) (i : ℕ) → get_elem? (xs ++ ys) (length xs + i) ≡ get_elem? ys i
get_elem?-append_right [] ys i = ap (get_elem? ys) (omega arith)
get_elem?-append_right (x ∷ xs) ys i =
    let e : suc (length xs) + i ≡ suc (length xs + i) = omega arith in
    rw e (get_elem?-append_right xs ys i)

get_elem?-replicate {ℓ} :
    {A : Type ℓ} (n : ℕ) (a : A) (ys : List A) (i : ℕ)
    → i < n
    → get_elem? (replicate n a ++ ys) i ≡ some a
get_elem?-replicate zero a ys i h = absurd (omega arith)
get_elem?-replicate (suc n) a ys zero h = refl
get_elem?-replicate (suc n) a ys (suc i) h = get_elem?-replicate n a ys i (omega arith)

handler_of_irq :
    (n : ℕ)
    → n < 70
    → get_elem? interrupt_requests n ≡ some (if n == can2_rx0_irq then can2_rx0 else fault)
handler_of_irq n h = elim (dec_lt n 64) [
  | yes l ↦
      let other : (n == can2_rx0_irq) ≡ false = ground arith in
      rw other (get_elem?-replicate 64 fault (can2_rx0 ∷ replicate 5 fault) n l)
  | no g ↦
      let at : n ≡ 64 + (n - 64) = omega arith in
      ap (get_elem? interrupt_requests) at
      ∙ get_elem?-append_right (replicate 64 fault) (can2_rx0 ∷ replicate 5 fault) (n - 64)
      ∙ elim (dec_lt 64 n) [
        | yes l ↦
            let other : (n == can2_rx0_irq) ≡ false = ground arith in
            let next : n - 64 ≡ suc (n - 65) = omega arith in
            rw (other, next) (get_elem?-replicate 5 fault [] (n - 65) (omega arith))
        | no equal ↦ let here : n ≡ 64 = omega arith in rw here refl
      ]
]

restarted :
    (start : Start)
    → effect start (some fault) ≡ starts (asked boot_arg_start_bootloader_no_timeout)
unfolding fault_handler
restarted start =
    ap starts (reset_handler-reboot_system boot_arg_start_bootloader_no_timeout (omega arith))

effect_of_irq :
    (start : Start) (n : ℕ)
    → effect start (some (if n == can2_rx0_irq then can2_rx0 else fault)) ≡ expected (irq n)
effect_of_irq start n = elim (Bool-cases (n == can2_rx0_irq)) [
  | inl e ↦ rw e refl
  | inr e ↦ rw e (restarted start)
]

-- The tick and the interrupt of CAN2's first FIFO have their handlers. Each fault, and each other interrupt of
-- the table, restarts the bootloader without a timeout: so does that of CAN1, which can_interface_init enables
-- if CAN1 is in use.
pub vector_table_lem :
    (start : Start) (source : Source)
    → IsServed source
    → effect start (get_elem? vector_table (number source)) ≡ expected source
unfolding vector_table
vector_table_lem start nmi h = restarted start
vector_table_lem start hard_fault h = restarted start
vector_table_lem start mem_manage h = restarted start
vector_table_lem start bus_fault h = restarted start
vector_table_lem start usage_fault h = restarted start
vector_table_lem start svcall h = restarted start
vector_table_lem start pendsv h = restarted start
vector_table_lem start system_tick h = refl
vector_table_lem start (irq n) h =
    ap (effect start) (get_elem?-append_right exceptions interrupt_requests n ∙ handler_of_irq n h)
    ∙ effect_of_irq start n

-- ===== src/Interrupt/Timer.antt =====
-- src/devices/timer.c: the milliseconds since the start, counted by interrupts.
use studix.Base.{ℕ, ◌/◌, ◌^◌, List, [], ◌∷◌, ◌++◌, ok, some, add32, u16, bit_and}
use studix.Interrupt.{Handler, Handlers, register_interrupt_handler, irq0}

abbrev pub timer_chan0 : ℕ
timer_chan0 = 0x40

abbrev pub timer_cmd : ℕ
timer_cmd = 0x43

abbrev pub base_frequency : ℕ
base_frequency = 1193180

abbrev pub millisecond_freq : ℕ
millisecond_freq = 1000

-- `writes` are the calls of outb so far, the port with the byte.
pub record Timer : Type 0 where
  pub milli_uptime : ℕ
  pub writes : List (ℕ × ℕ)

abbrev pub outb : (port value : ℕ) → Timer → Timer
outb port value t = record t { writes = t.writes ++ (port, value) ∷ [] }

unfoldable pub timer_handler : Handler Timer
timer_handler regs t = ok (record t { milli_uptime = add32 t.milli_uptime 1 })

unfoldable pub uptime : Timer → ℕ
uptime t = t.milli_uptime

unfoldable pub init_timer : Handlers Timer × Timer → Handlers Timer × Timer
unfolding timer_handler register_interrupt_handler
init_timer (handlers, t) =
    let divisor = u16 (base_frequency / millisecond_freq) in
    let t1 = outb timer_cmd 0x36 t in
    let t2 = outb timer_chan0 (bit_and divisor 0xff) t1 in
    let t3 = outb timer_chan0 (divisor / 2 ^ 8) t2 in
    (register_interrupt_handler Timer handlers irq0 (some timer_handler), t3)

-- ===== src/Interrupt/Tests.antt =====
-- The timer's interrupt between two of other devices.
use studix.Base.{ℕ, ◌<◌, [], ◌∷◌, arith, Returns}
use studix.Interrupt.{Registers}
use studix.Interrupt.Timer.{Timer, uptime}
use studix.Interrupt.Acknowledge.{irqs_from, Counted, irq_handler-Counted}

abbrev numbered : ℕ → Registers
numbered n = record {
  ds = 0;
  edi = 0;
  esi = 0;
  ebp = 0;
  esp = 0;
  ebx = 0;
  edx = 0;
  ecx = 0;
  eax = 0;
  int_no = n;
  err = 0;
  eip = 0;
  cs = 0;
  eflags = 0;
  useresp = 0;
  ss = 0;
}

abbrev last_tick : Timer
last_tick = record { milli_uptime = 4294967295; writes = [] }

last_tick_small : uptime last_tick < 4294967296
unfolding uptime
last_tick_small = omega arith

irq_handler-Counted_example :
    Returns
      (Counted last_tick (numbered 33 ∷ numbered 32 ∷ numbered 46 ∷ []))
      (irqs_from last_tick (numbered 33 ∷ numbered 32 ∷ numbered 46 ∷ []))
irq_handler-Counted_example =
    irq_handler-Counted last_tick (numbered 33 ∷ numbered 32 ∷ numbered 46 ∷ []) last_tick_small
      (omega arith, omega arith, (omega arith, omega arith, (omega arith, omega arith, tt)))

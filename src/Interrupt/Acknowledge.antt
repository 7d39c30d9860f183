-- ===== src/Interrupt/Acknowledge.antt =====
-- What a run of interrupts from the devices does, with the timer's handler registered.
use mathlib.Core.List.{append-nil, append_assoc}
use studix.Base.{
  ℕ, ◌+◌, ◌≤◌, ◌<◌, ◌≡◌, arith, refl, sym, ap, ◌∙◌, List, [], ◌∷◌, ◌++◌, Bool, true, false,
  Bool-cases, inl, inr, none, some, Result, ok, Returns, Returns-bind, Returns-mono, ◌>>=◌, leb,
  ◌==◌, if◌then◌else◌, u32,
}
use studix.Interrupt.{Registers, Handlers, irq_handler, register_interrupt_handler, irq0, irq8}
use studix.Interrupt.Timer.{Timer, outb, uptime, timer_handler, init_timer}

-- The interrupts one after the other.
irqs : Handlers Timer → List Registers → Timer → Result Timer
irqs handlers [] t = ok t
irqs handlers (regs ∷ rest) t =
    let next = λ (t' : Timer). irqs handlers rest t' in
    irq_handler Timer outb handlers regs t >>= next

abbrev pub irqs_from : Timer → List Registers → Result Timer
unfolding irqs
irqs_from t rs = irqs (init_timer (λ i. none, t)).0 rs t

-- The end of an interrupt is told to the slave, where it came through it, and to the master.
abbrev pub both_or_master : Bool → List (ℕ × ℕ)
both_or_master true = (0xa0, 0x20) ∷ (0x20, 0x20) ∷ []
both_or_master false = (0x20, 0x20) ∷ []

abbrev pub acknowledged : List Registers → List (ℕ × ℕ)
acknowledged [] = []
acknowledged (regs ∷ rest) = both_or_master (leb irq8 regs.int_no) ++ acknowledged rest

abbrev pub ticks : List Registers → ℕ
ticks [] = 0
ticks (regs ∷ rest) = (if regs.int_no == irq0 then 1 else 0) + ticks rest

-- Their numbers are those of the devices.
abbrev pub AllIrqs : List Registers → Type 0
AllIrqs [] = Unit
AllIrqs (regs ∷ rest) = (irq0 ≤ regs.int_no) × (regs.int_no < 48) × AllIrqs rest

-- What the interrupts rs make of t.
abbrev pub Counted : Timer → List Registers → Timer → Type 0
Counted t rs t' =
    (uptime t' ≡ u32 (uptime t + ticks rs)) × (t'.writes ≡ t.writes ++ acknowledged rs)

told : Bool → Timer → Timer
told slave t = outb 0x20 0x20 (if slave then outb 0xa0 0x20 t else t)

told-writes :
    (slave : Bool) (t : Timer) → (told slave t).writes ≡ t.writes ++ (both_or_master slave ++ [])
unfolding told
told-writes true t = append_assoc t.writes _ _
told-writes false t = refl

told-uptime : (slave : Bool) (t : Timer) → uptime (told slave t) ≡ uptime t
unfolding told uptime
told-uptime true t = refl
told-uptime false t = refl

module _ (handlers : Handlers Timer)
    (timer : (i : ℕ) → handlers i ≡ (if i == irq0 then some timer_handler else none)) where
  one_irq :
      (regs : Registers) (t : Timer)
      → irq0 ≤ regs.int_no
      → regs.int_no < 48
      → uptime t < 4294967296
      → Returns
          (λ t'. Counted t (regs ∷ []) t' × (uptime t' < 4294967296))
          (irq_handler Timer outb handlers regs t)
  unfolding irq_handler uptime timer_handler told
  one_irq regs t lo hi w =
      let inside : leb 256 regs.int_no ≡ false = ground arith in
      let slave = leb irq8 regs.int_no in
      elim (Bool-cases (regs.int_no == irq0)) [
        | inl tick ↦
            rw (inside, timer regs.int_no, tick)
              ((omega (arith, told-uptime slave t), told-writes slave t), omega arith)
        | inr other ↦
            rw (inside, timer regs.int_no, other)
              (
                (omega (arith, told-uptime slave t), told-writes slave t),
                omega (arith, told-uptime slave t),
              )
      ]

  Counted-append :
      (t t1 t2 : Timer) (regs : Registers) (rs : List Registers)
      → Counted t (regs ∷ []) t1
      → Counted t1 rs t2
      → Counted t (regs ∷ rs) t2
  Counted-append t t1 t2 regs rs (up, out) (up', out') =
      let one = both_or_master (leb irq8 regs.int_no) in
      let rest = acknowledged rs in
      (
        omega arith,
        out'
            ∙ ap (λ l. l ++ rest) out
            ∙ append_assoc t.writes (one ++ []) rest
            ∙ ap (λ l. t.writes ++ (l ++ rest)) (append-nil one),
      )

  irqs-Counted :
      (rs : List Registers) (t : Timer)
      → uptime t < 4294967296
      → AllIrqs rs
      → Returns (Counted t rs) (irqs handlers rs t)
  unfolding irqs
  irqs-Counted [] t w all = (omega arith, sym (append-nil t.writes))
  irqs-Counted (regs ∷ rs) t w (lo, hi, all) =
      Returns-bind _ (irq_handler Timer outb handlers regs t) _ (one_irq regs t lo hi w)
        λ t1 ((up, out), w1).
          Returns-mono {P = Counted t1 rs} {Q = Counted t (regs ∷ rs)} (irqs handlers rs t1)
            (λ t' h. Counted-append t t1 t' regs rs (up, out) h) (irqs-Counted rs t1 w1 all)

-- A run of interrupts from the devices, after init_timer, returns: the uptime counts those of the timer,
-- and the end of each is told to the master, before that to the slave if it came through it.
pub irq_handler-Counted :
    (t : Timer) (rs : List Registers)
    → uptime t < 4294967296
    → AllIrqs rs
    → Returns (Counted t rs) (irqs_from t rs)
unfolding init_timer register_interrupt_handler irqs
irq_handler-Counted t rs w all = irqs-Counted (init_timer (λ i. none, t)).0 (λ i. refl) rs t w all

-- ===== src/Interrupt.antt =====
-- src/cpu_setup/interrupt.c and src/include/interrupt.h: the table of handlers, and what the C parts of the
-- stubs do. `S` is all that handlers change, with `outb` among what can be done to it; disable_interrupts
-- and enable_interrupts are one instruction each.
pub mod Timer
pub mod Acknowledge
mod Tests
use studix.Base.{
  ℕ, ◌+◌, Bool, Option, none, some, Result, ok, stop, panicked, undefined, ◌>>=◌, leb, ltb, ◌==◌,
  if◌then◌else◌, u8,
}
use studix.Idt.{num_idt_entries}

abbrev pub irq0 : ℕ
irq0 = 32

abbrev pub irq1 : ℕ
irq1 = 33

abbrev pub irq8 : ℕ
irq8 = 40

pub record Registers : Type 0 where
  pub ds : ℕ
  pub edi : ℕ
  pub esi : ℕ
  pub ebp : ℕ
  pub esp : ℕ
  pub ebx : ℕ
  pub edx : ℕ
  pub ecx : ℕ
  pub eax : ℕ
  pub int_no : ℕ
  pub err : ℕ
  pub eip : ℕ
  pub cs : ℕ
  pub eflags : ℕ
  pub useresp : ℕ
  pub ss : ℕ

-- How many names of interrupts there are.
abbrev pub interrupt_names : ℕ
interrupt_names = 19

module _ (S : Type 0) where
  abbrev pub Handler : Type 0
  Handler = Registers → S → Result S

  -- `none` is a null pointer.
  abbrev pub Handlers : Type 0
  Handlers = ℕ → Option Handler

  -- handlers[int_no](regs), or what is done where there is none.
  unfoldable pub dispatch : Handlers → Registers → (Unit {0} → Result S) → S → Result S
  dispatch handlers regs otherwise s =
      if leb num_idt_entries regs.int_no
      then stop undefined
      else elim (handlers regs.int_no) [ none ↦ otherwise tt | some handler ↦ handler regs s ]

  unfoldable pub irq_handler : (outb : ℕ → ℕ → S → S) → Handlers → Registers → S → Result S
  unfolding dispatch
  irq_handler outb handlers regs s =
      let s1 = if leb irq8 regs.int_no then outb 0xa0 0x20 s else s in
      let s2 = outb 0x20 0x20 s1 in dispatch handlers regs (λ u. ok s2) s2

  -- The name that the panic prints is looked up first.
  unfoldable pub isr_handler : Handlers → Registers → S → Result S
  unfolding dispatch
  isr_handler handlers regs s =
      dispatch handlers regs
        (λ u. if ltb regs.int_no interrupt_names then stop panicked else stop undefined) s

  unfoldable pub register_interrupt_handler : Handlers → ℕ → Option Handler → Handlers
  register_interrupt_handler handlers i handler n = if n == u8 i then handler else handlers n

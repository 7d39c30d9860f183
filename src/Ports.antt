-- ===== src/Ports.antt =====
-- src/devices/dev.c: access to the ports of the machine. Each of its functions is one instruction, so
-- what lies behind the ports is a parameter here.
use studix.Base.{ℕ}

pub record Ports : Type 1 where
  pub State : Type 0
  pub outb : (port value : ℕ) → State → State
  pub inb : (port : ℕ) → State → ℕ × State
  pub inw : (port : ℕ) → State → ℕ × State

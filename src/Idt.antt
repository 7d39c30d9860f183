-- ===== src/Idt.antt =====
-- src/cpu_setup/idt.c: the table of interrupt descriptors, and the writes that move the interrupts of
-- the devices. The instruction that loads the table, flush_idt, is assembly, and so are the
-- stubs isr0 to isr47, whose addresses are an argument.
pub mod Fields
mod Tests
use studix.Base.{
  ℕ, zero, suc, ◌+◌, ◌-◌, ◌*◌, ◌/◌, ◌^◌, List, [], ◌∷◌, ◌++◌, ◌==◌, if◌then◌else◌, u8, u16, bit_and,
}

abbrev pub num_idt_entries : ℕ
num_idt_entries = 256

-- IDT_entry and IDT_ptr.
pub record IdtEntry : Type 0 where
  pub base_low : ℕ
  pub selector : ℕ
  pub zero_byte : ℕ
  pub flags : ℕ
  pub base_high : ℕ

pub record IdtPtr : Type 0 where
  pub limit : ℕ
  pub base : ℕ

-- idt_entries
abbrev pub IdtEntries : Type 0
IdtEntries = ℕ → IdtEntry

unfoldable pub set_idt_entry : IdtEntries → (i base selector flags : ℕ) → IdtEntries
set_idt_entry entries i base selector flags x =
    if x == u8 i
    then record {
      base_low = bit_and base 0xffff;
      selector = u16 selector;
      zero_byte = 0;
      flags = u8 flags;
      base_high = u16 (base / 2 ^ 16);
    }
    else entries x

-- The calls of outb, the port with the byte.
unfoldable pub remap_irq : List (ℕ × ℕ)
remap_irq =
    (0x20, 0x11)
    ∷ (0xa0, 0x11)
    ∷ (0x21, 0x20)
    ∷ (0xa1, 0x28)
    ∷ (0x21, 0x04)
    ∷ (0xa1, 0x02)
    ∷ (0x21, 0x01)
    ∷ (0xa1, 0x01)
    ∷ (0x21, 0x0)
    ∷ (0xa1, 0x0)
    ∷ []

-- What memset leaves in an entry.
abbrev pub no_entry : IdtEntry
no_entry = record { base_low = 0; selector = 0; zero_byte = 0; flags = 0; base_high = 0 }

-- SET_IDT(0) to SET_IDT(n - 1); `isr n` is the address of the stub n.
unfoldable pub set_idt : (isr : ℕ → ℕ) → (n : ℕ) → IdtEntries → IdtEntries
set_idt isr zero entries = entries
set_idt isr (suc n) entries = set_idt_entry (set_idt isr n entries) n (isr n) 0x08 0x8e

-- `addr` is where the table lies; an entry has eight bytes.
unfoldable pub init_idt : (isr : ℕ → ℕ) → (addr : ℕ) → IdtPtr × IdtEntries × List (ℕ × ℕ)
unfolding remap_irq set_idt
init_idt isr addr = (
  record { limit = 8 * num_idt_entries - 1; base = addr },
  set_idt isr 48 (λ x. no_entry),
  remap_irq,
)

-- ===== src/Idt/Fields.antt =====
-- Where the processor finds the handler of an interrupt.
use studix.Base.{
  ℕ, zero, suc, ◌+◌, ◌*◌, ◌%◌, ◌≤◌, ◌<◌, ◌≡◌, arith, refl, bit_and, bit_and-ones, ◌==◌, false, u8,
  Bool-cases, inl, inr, ap,
}
use studix.Idt.{IdtEntry, IdtEntries, no_entry, set_idt_entry, set_idt, init_idt}

-- The address of the handler, put together again.
abbrev pub handler_addr : IdtEntry → ℕ
handler_addr e = e.base_low + 65536 * e.base_high

-- A present interrupt gate of the kernel's code segment, with this handler.
abbrev pub Leads : (addr : ℕ) → IdtEntry → Type 0
Leads addr e = (handler_addr e ≡ addr) × (e.selector ≡ 0x08) × (e.flags ≡ 0x8e) × (e.zero_byte ≡ 0)

set_idt-here :
    (isr : ℕ → ℕ) (n i : ℕ) (entries : IdtEntries)
    → isr i < 4294967296
    → i < n
    → n ≤ 48
    → Leads (isr i) (set_idt isr n entries i)
unfolding set_idt set_idt_entry
set_idt-here isr zero i entries w h k = absurd (omega arith)
set_idt-here isr (suc n) i entries w h k = elim (Bool-cases (i == u8 n)) [
  | inl e ↦
      let at : i ≡ n = ground arith in
      let low : bit_and (isr n) 0xffff ≡ isr n % 65536 = omega (arith, bit_and-ones 16 (isr n)) in
      rw e (omega (arith, low, ap isr at), refl, refl, refl)
  | inr e ↦ rw e (set_idt-here isr n i entries w (ground arith) (omega arith))
]

set_idt-beyond :
    (isr : ℕ → ℕ) (n i : ℕ) (entries : IdtEntries)
    → n ≤ 48
    → n ≤ i
    → set_idt isr n entries i ≡ entries i
unfolding set_idt set_idt_entry
set_idt-beyond isr zero i entries k h = refl
set_idt-beyond isr (suc n) i entries k h =
    let away : (i == u8 n) ≡ false = ground arith in
    rw away (set_idt-beyond isr n i entries (omega arith) (omega arith))

-- After init_idt the entries 0 to 47 are gates that lead to their stubs, and the others are empty.
pub init_idt-Leads :
    (isr : ℕ → ℕ) (addr i : ℕ)
    → isr i < 4294967296
    → (i < 48 → Leads (isr i) ((init_idt isr addr).1 i))
      × (48 ≤ i → (init_idt isr addr).1 i ≡ no_entry)
unfolding init_idt
init_idt-Leads isr addr i w =
    (λ h. set_idt-here isr 48 i _ w h (omega arith), λ h. set_idt-beyond isr 48 i _ (omega arith) h)

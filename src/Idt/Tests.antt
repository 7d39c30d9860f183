-- ===== src/Idt/Tests.antt =====
-- A descriptor at concrete numbers.
use studix.Base.{ℕ, ◌+◌, ◌*◌, ◌≤◌, ◌<◌, ◌≡◌, arith}
use studix.Idt.{no_entry, init_idt}
use studix.Idt.Fields.{Leads, init_idt-Leads}

abbrev stubs : ℕ → ℕ
stubs n = 0x101000 + 16 * n

init_idt-Leads_example :
    (33 < 48 → Leads (stubs 33) ((init_idt stubs 0x200000).1 33))
    × (48 ≤ 33 → (init_idt stubs 0x200000).1 33 ≡ no_entry)
init_idt-Leads_example = init_idt-Leads stubs 0x200000 33 (omega arith)

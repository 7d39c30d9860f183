-- ===== src/Gdt/Tests.antt =====
-- A descriptor at concrete numbers.
use studix.Base.{ℕ, ◌%◌, ◌/◌, ◌≡◌, ◌≢◌, arith}
use studix.Gdt.{GdtEntries, set_gdt_entry}
use studix.Gdt.Fields.{Describes, set_gdt_entry-Describes}

abbrev empty : GdtEntries
empty x = record { limit_low = 0; base_low = 0; base_mid = 0; access = 0; gran = 0; base_high = 0 }

set_gdt_entry-Describes_example :
    Describes 0x12345678
      (0xffffffff % 1048576)
      (0xcf / 16)
      0x9a
      (set_gdt_entry empty 1 0x12345678 0xffffffff 0x9a 0xcf 1)
    × (◌≢◌ {A = ℕ} 2 1 → set_gdt_entry empty 1 0x12345678 0xffffffff 0x9a 0xcf 2 ≡ empty 2)
set_gdt_entry-Describes_example =
    set_gdt_entry-Describes empty 1 0x12345678 0xffffffff 0x9a 0xcf 2 (omega arith) (omega arith)
      (omega arith)

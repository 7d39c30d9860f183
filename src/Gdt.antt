-- ===== src/Gdt.antt =====
-- src/cpu_setup/gdt.c: the table of segment descriptors. The instruction that loads the table,
-- flush_gdt, is assembly.
pub mod Fields
mod Tests
use studix.Base.{ℕ, ◌+◌, ◌-◌, ◌*◌, ◌/◌, ◌^◌, ◌==◌, if◌then◌else◌, u8, bit_and, bit_or}

-- GDT_entry and GDT_ptr.
pub record GdtEntry : Type 0 where
  pub limit_low : ℕ
  pub base_low : ℕ
  pub base_mid : ℕ
  pub access : ℕ
  pub gran : ℕ
  pub base_high : ℕ

pub record GdtPtr : Type 0 where
  pub limit : ℕ
  pub base : ℕ

abbrev pub num_gdt_entries : ℕ
num_gdt_entries = 5

-- gdt_entries
abbrev pub GdtEntries : Type 0
GdtEntries = ℕ → GdtEntry

unfoldable pub set_gdt_entry : GdtEntries → (i base limit access gran : ℕ) → GdtEntries
set_gdt_entry entries i base limit access gran x =
    if x == i
    then record {
      limit_low = bit_and limit 0xffff;
      base_low = bit_and base 0xffff;
      base_mid = bit_and (base / 2 ^ 16) 0xff;
      access = u8 access;
      gran = bit_or (bit_and (limit / 2 ^ 16) 0xf) (bit_and gran 0xf0);
      base_high = u8 (base / 2 ^ 24);
    }
    else entries x

-- `addr` is where the table lies; an entry has eight bytes.
unfoldable pub init_gdt : GdtEntries → (addr : ℕ) → GdtPtr × GdtEntries
unfolding set_gdt_entry
init_gdt entries addr =
    let e0 = set_gdt_entry entries 0 0 0 0 0 in
    let e1 = set_gdt_entry e0 1 0 0xffffffff 0x9a 0xcf in
    let e2 = set_gdt_entry e1 2 0 0xffffffff 0x92 0xcf in
    let e3 = set_gdt_entry e2 3 0 0xffffffff 0xfa 0xcf in
    let e4 = set_gdt_entry e3 4 0 0xffffffff 0xf2 0xcf in
    (record { limit = 8 * num_gdt_entries - 1; base = addr }, e4)

-- ===== src/Pata/Select.antt =====
-- What the registers hold when the read command is sent.
use studix.Base.{
  ℕ, ◌+◌, ◌*◌, ◌/◌, ◌%◌, ◌<◌, ◌≡◌, ◌⊎◌, inl, inr, arith, refl, ◌∙◌, u8, bit_and, bit_or,
  bit_and-ones, by_table, subst,
}
use studix.Ports.{Ports}
use studix.Pata.{Pata, send_read, sel_master, sel_slave}
use studix.Pata.Drive.{AtaDrive, addressed, counted}

-- The byte that selects drive and address, for a top part t of the address.
select_master : (t : ℕ) → t < 16 → bit_or (bit_or t sel_master) 64 ≡ t + 0xe0
select_master = by_table 16 (λ t. bit_or (bit_or t sel_master) 64) (λ t. t + 0xe0) refl

select_slave : (t : ℕ) → t < 16 → bit_or (bit_or t sel_slave) 64 ≡ t + 0xf0
select_slave = by_table 16 (λ t. bit_or (bit_or t sel_slave) 64) (λ t. t + 0xf0) refl

-- The drive that the driver has selected, master or slave.
abbrev pub Selects : Pata → (base unit : ℕ) → Type 0
Selects p base unit =
    (p.sel_base_port ≡ base)
    × ((p.sel_master_or_slave ≡ sel_master) × (unit ≡ 0)
        ⊎ (p.sel_master_or_slave ≡ sel_slave) × (unit ≡ 1))

select_byte :
    (p : Pata) (base unit t : ℕ)
    → Selects p base unit
    → t < 16
    → bit_or (bit_or t p.sel_master_or_slave) 64 ≡ t + 0xe0 + 16 * unit
select_byte p base unit t (b, inl (m, z)) h = rw (m, z) (omega (arith, select_master t h))
select_byte p base unit t (b, inr (m, o)) h = rw (m, o) (omega (arith, select_slave t h))

module _ (ports : Ports) (base unit : ℕ) (disk : ℕ → ℕ)
    (drive : AtaDrive ports base unit disk) where
  open drive use {register, Sending, write_register, command}

  -- The five writes before the command.
  abbrev written : (r6 r2 r3 r4 r5 : ℕ) → ports.State → ports.State
  written r6 r2 r3 r4 r5 s = ports.outb (base + 5) r5 (
      ports.outb (base + 4) r4
        (ports.outb (base + 3) r3 (ports.outb (base + 2) r2 (ports.outb (base + 6) r6 s))))

  written_registers :
      (r6 r2 r3 r4 r5 : ℕ) (s : ports.State)
      → let reg = register (written r6 r2 r3 r4 r5 s) in
        (reg 2 ≡ r2) × (reg 3 ≡ r3) × (reg 4 ≡ r4) × (reg 5 ≡ r5) × (reg 6 ≡ r6)
  written_registers r6 r2 r3 r4 r5 s =
      let s6 = ports.outb (base + 6) r6 s in
      let s2 = ports.outb (base + 2) r2 s6 in
      let s3 = ports.outb (base + 3) r3 s2 in
      let s4 = ports.outb (base + 4) r4 s3 in
      let last = λ (r : ℕ). write_register 5 r5 r s4 (omega arith) (omega arith) in
      let fourth = λ (r : ℕ). write_register 4 r4 r s3 (omega arith) (omega arith) in
      let third = λ (r : ℕ). write_register 3 r3 r s2 (omega arith) (omega arith) in
      let second = λ (r : ℕ). write_register 2 r2 r s6 (omega arith) (omega arith) in
      let first = λ (r : ℕ). write_register 6 r6 r s (omega arith) (omega arith) in
      (
        last 2 ∙ fourth 2 ∙ third 2 ∙ second 2,
        last 3 ∙ fourth 3 ∙ third 3,
        last 4 ∙ fourth 4,
        last 5,
        last 6 ∙ fourth 6 ∙ third 6 ∙ second 6 ∙ first 6,
      )

  written-Sending :
      (r6 r3 r4 r5 lba count : ℕ) (s : ports.State)
      → r6 ≡ lba / 16777216 + 0xe0 + 16 * unit
      → r3 ≡ lba % 256
      → r4 ≡ lba / 256 % 256
      → r5 ≡ lba / 65536 % 256
      → (unit < 2) × (lba < 268435456) × (0 < count)
      → Sending
          (ports.outb (base + 7) 0x20 (written r6 count r3 r4 r5 s))
          (256 * lba)
          (256 * (lba + count))
  written-Sending r6 r3 r4 r5 lba count s e6 e3 e4 e5 (u, small, some) =
      let s5 = written r6 count r3 r4 r5 s in
      let out = ports.outb (base + 7) 0x20 s5 in
      let (w2, w3, w4, w5, w6) = written_registers r6 count r3 r4 r5 s in
      let addr : addressed (register s5) ≡ lba = omega arith in
      let many : counted (register s5) ≡ count = rw w2 (ground arith) in
      let sent = command s5 (omega (arith, w6)) (omega (arith, w6)) in
      subst (λ n. Sending out (256 * lba) (256 * (lba + n))) many
        (subst (λ a. Sending out (256 * a) (256 * (a + counted (register s5)))) addr sent)

  -- After the writes of a read the drive has the sectors to send that were asked for.
  pub send_read-Sending :
      (p : Pata) (lba count : ℕ) (s : ports.State)
      → Selects p base unit
      → lba < 268435456
      → 0 < count
      → Sending (send_read ports p lba count s) (256 * lba) (256 * (lba + count))
  unfolding send_read
  send_read-Sending p lba count s sel small some =
      let byte = select_byte p base unit (lba / 16777216) sel (omega arith) in
      let u : unit < 2 = omega (arith, sel) in
      let low : bit_and lba 0xff ≡ lba % 256 = omega (arith, bit_and-ones 8 lba) in
      let mid : bit_and (lba / 256) 0xff ≡ lba / 256 % 256 =
        omega (arith, bit_and-ones 8 (lba / 256)) in
      let high : bit_and (lba / 65536) 0xff ≡ lba / 65536 % 256 =
        omega (arith, bit_and-ones 8 (lba / 65536)) in
      let whole : u8 (bit_or (bit_or (lba / 16777216) p.sel_master_or_slave) 64)
          ≡ lba / 16777216 + 0xe0 + 16 * unit =
        omega (arith, byte) in
      rw sel.0 (written-Sending _ _ _ _ lba count s whole low mid high (u, small, some))

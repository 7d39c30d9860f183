-- ===== src/Pata.antt =====
-- src/devices/pata.c and src/include/pata.h: the ATA driver, over the ports of the machine. Loops that
-- wait for the drive take fuel. The messages of init_ata are left out.
pub mod Drive
pub mod Select
pub mod Poll
pub mod Read
pub mod Contract
mod Tests
use studix.Base.{
  ℕ, zero, suc, ◌+◌, ◌-◌, ◌*◌, ◌/◌, ◌^◌, Bool, true, false, not, ◌&&◌, Result, ok, stop, fuel,
  ◌>>=◌, ◌>>◌, assert, ltb, ◌==◌, if◌then◌else◌, u8, u32, bit_and, bit_or,
}
use studix.Memory.{Memory, store8}
use studix.Ports.{Ports}

abbrev pub lba_bits : ℕ
lba_bits = 28

abbrev pub primary_base : ℕ
primary_base = 0x1f0

abbrev pub secondary_base : ℕ
secondary_base = 0x170

-- The registers, as offsets from the base port.
abbrev pub data_port : ℕ
data_port = 0

abbrev pub sector_count_port : ℕ
sector_count_port = 2

abbrev pub lba_low : ℕ
lba_low = 3

abbrev pub lba_mid : ℕ
lba_mid = 4

abbrev pub lba_high : ℕ
lba_high = 5

abbrev pub drive_select : ℕ
drive_select = 6

abbrev pub com_stat : ℕ
com_stat = 7

abbrev pub sel_master : ℕ
sel_master = 0xa0

abbrev pub sel_slave : ℕ
sel_slave = 0xb0

abbrev pub identify : ℕ
identify = 0xec

abbrev pub read_sectors : ℕ
read_sectors = 0x20

abbrev pub err : ℕ
err = 1

abbrev pub drq : ℕ
drq = 8

abbrev pub bsy : ℕ
bsy = 128

abbrev pub sector_size : ℕ
sector_size = 512

abbrev pub max_28lba_sectors : ℕ
max_28lba_sectors = 60

-- The globals of pata.c.
pub record Pata : Type 0 where
  pub sel_base_port : ℕ
  pub sel_master_or_slave : ℕ
  pub max_sector : ℕ

-- *(uint16_t *)a = v
unfoldable pub store16 : Memory → ℕ → ℕ → Memory
store16 m a v = store8 (store8 m a v) (a + 1) (v / 256)

module _ (ports : Ports) where
  open ports use {State, outb, inb, inw}

  unfoldable pub read_stat : (base : ℕ) → State → ℕ × State
  read_stat base s =
      let (v1, s1) = inb (base + com_stat) s in
      let (v2, s2) = inb (base + com_stat) s1 in
      let (v3, s3) = inb (base + com_stat) s2 in
      let (v4, s4) = inb (base + com_stat) s3 in inb (base + com_stat) s4

  -- while ((stat & BSY) != 0)
  unfoldable pub while_busy : (f base stat : ℕ) → State → Result (ℕ × State)
  unfolding read_stat
  while_busy zero base stat s = stop fuel
  while_busy (suc f) base stat s =
      let (stat', s') = read_stat base s in
      let rest = while_busy f base stat' s' in if bit_and stat bsy == 0 then ok (stat, s) else rest

  -- while ((stat & DRQ) == 0 && (stat & ERR) == 0)
  unfoldable pub while_waiting : (f base stat : ℕ) → State → Result (ℕ × State)
  unfolding read_stat
  while_waiting zero base stat s = stop fuel
  while_waiting (suc f) base stat s =
      let (stat', s') = read_stat base s in
      let rest = while_waiting f base stat' s' in
      if (bit_and stat drq == 0) && (bit_and stat err == 0) then rest else ok (stat, s)

  -- drive_data[i] = inw(base + DATA), from place i on.
  unfoldable pub read_words : (left i base : ℕ) → (ℕ → ℕ) → State → (ℕ → ℕ) × State
  read_words zero i base drive_data s = (drive_data, s)
  read_words (suc left) i base drive_data s =
      let (w, s') = inw (base + data_port) s in
      read_words left (i + 1) base (λ j. if j == i then w else drive_data j) s'

  -- The writes of check_drive that end with the IDENTIFY command.
  unfoldable pub send_identify : (base master_or_slave : ℕ) → State → State
  send_identify base master_or_slave s =
      let s1 = outb (base + drive_select) master_or_slave s in
      let s2 = outb (base + sector_count_port) 0 s1 in
      let s3 = outb (base + lba_low) 0 s2 in
      let s4 = outb (base + lba_mid) 0 s3 in
      let s5 = outb (base + lba_high) 0 s4 in outb (base + com_stat) identify s5

  unfoldable pub check_drive : (f base master_or_slave : ℕ) → Pata × State → Result (Pata × State)
  unfolding send_identify read_stat while_busy while_waiting read_words
  check_drive f base master_or_slave (p, s) = do
    let (stat, s1) = read_stat base (send_identify base master_or_slave s)
    let found = λ (q : Pata × State). ok q
    if not (p.sel_base_port == 0) then ok (p, s) else if stat == 0 then ok (p, s1) else do
      (stat2, s2) ← while_busy f base stat s1
      (stat3, s3) ← while_waiting f base stat2 s2
      let (drive_data, s4) = read_words 256 0 base (λ i. 0) s3
      if not (bit_and stat3 err == 0)
          then ok (p, s3)
          else ok (
            record {
              sel_base_port = base;
              sel_master_or_slave = master_or_slave;
              max_sector =
                  bit_or (drive_data max_28lba_sectors)
                    (drive_data (max_28lba_sectors + 1) * 2 ^ 16);
            },
            s4,
          )

  unfoldable pub init_ata : (f : ℕ) → Pata × State → Result (Pata × State)
  unfolding check_drive
  init_ata f (p, s) = do
    let (pri_status, s1) = inb (primary_base + com_stat) s
    let (sec_status, s2) = inb (secondary_base + com_stat) s1
    if (pri_status == 0xff) && (sec_status == 0xff) then ok (p, s2) else do
      t1 ← check_drive f primary_base sel_master (p, s2)
      t2 ← check_drive f primary_base sel_slave t1
      t3 ← check_drive f secondary_base sel_master t2
      check_drive f secondary_base sel_slave t3

  -- do stat = read_stat(sel_base_port); while ((stat & BSY) != 0);
  unfoldable pub poll : (f base : ℕ) → State → Result State
  unfolding read_stat
  poll zero base s = stop fuel
  poll (suc f) base s =
      let (stat, s') = read_stat base s in
      let rest = poll f base s' in if bit_and stat bsy == 0 then ok s' else rest

  -- rep insw: `left` words from a port to the addresses from `to` on.
  unfoldable pub insw : (left port to : ℕ) → Memory × State → Memory × State
  unfolding store16
  insw zero port to (m, s) = (m, s)
  insw (suc left) port to (m, s) =
      let (w, s') = inw port s in insw left port (to + 2) (store16 m to w, s')

  -- The address and the command of a read, on their way to the drive.
  unfoldable pub send_read : Pata → (lba sector_count : ℕ) → State → State
  send_read p lba sector_count s =
      let base = p.sel_base_port in
      let select = bit_or (bit_or (lba / 2 ^ (lba_bits - 4)) p.sel_master_or_slave) (2 ^ 6) in
      let s1 = outb (base + drive_select) (u8 select) s in
      let s2 = outb (base + sector_count_port) sector_count s1 in
      let s3 = outb (base + lba_low) (bit_and lba 0xff) s2 in
      let s4 = outb (base + lba_mid) (bit_and (lba / 2 ^ 8) 0xff) s3 in
      let s5 = outb (base + lba_high) (bit_and (lba / 2 ^ 16) 0xff) s4 in
      outb (base + com_stat) read_sectors s5

  -- The loop over the sectors; `i` counts the words.
  unfoldable pub sectors_loop :
      (f base sector_count i buf : ℕ) → Memory × State → Result (Memory × State)
  unfolding poll insw
  sectors_loop f base zero i buf (m, s) = ok (m, s)
  sectors_loop f base (suc left) i buf (m, s) = do
    s' ← poll f base s
    sectors_loop f base left (i + sector_size / 2) buf
        (insw (sector_size / 2) (base + data_port) (buf + 2 * i) (m, s'))

  unfoldable pub read_abs_sectors :
      (f : ℕ) → Pata → (lba sector_count buf : ℕ) → Memory × State → Result (Memory × State)
  unfolding send_read sectors_loop
  read_abs_sectors f p lba sector_count buf (m, s) = do
    assert (lba / 2 ^ lba_bits == 0)
    sectors_loop f p.sel_base_port (u8 sector_count) 0 buf (m, send_read p lba (u8 sector_count) s)

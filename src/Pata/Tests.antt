-- ===== src/Pata/Tests.antt =====
-- A drive on the primary bus that is busy for seven readings of the status before each sector.
use studix.Base.{
  ℕ, ◌+◌, ◌-◌, ◌*◌, ◌/◌, ◌%◌, ◌≤◌, ◌≡◌, inl, refl, arith, ◌==◌, if◌then◌else◌, Returns, ap,
}
use studix.Ports.{Ports}
use studix.Ext2
use studix.Pata.{Pata, read_abs_sectors, poll}
use studix.Pata.Drive.{AtaDrive, addressed, counted, disk_word}
use studix.Pata.Poll.{poll-Ready}
use studix.Pata.Contract.{Delivers, read_abs_sectors-Delivers}

record Wire : Type 0 where
  reg : ℕ → ℕ
  next : ℕ
  end : ℕ
  busy_for : ℕ

abbrev disk : ℕ → ℕ
disk x = x / 3

abbrev write : (port value : ℕ) → Wire → Wire
write port value w =
    if port == 0x1f7
    then (if value == 0x20
        then record w {
          next = 256 * addressed w.reg;
          end = 256 * (addressed w.reg + counted w.reg);
          busy_for = 7;
        }
        else w)
    else record w { reg = λ r. if r == port - 0x1f0 then value else w.reg r }

abbrev wire : Ports
wire = record {
  State = Wire;
  outb = write;
  inb = λ port w. (if w.busy_for == 0 then 0x58 else 0x80, record w { busy_for = w.busy_for - 1 });
  inw = λ port w. (
    disk_word disk w.next,
    record w { next = w.next + 1; busy_for = if (w.next + 1) % 256 == 0 then 7 else w.busy_for },
  );
}

abbrev drive : AtaDrive wire 0x1f0 0 disk
drive = record {
  register = λ w. w.reg;
  busy = λ w. w.busy_for;
  limit = 7;
  Sending = λ w k e. (w.next ≡ k) × (w.end ≡ e) × (w.busy_for ≤ 7);
  write_register = λ r v r' w lo hi. ground arith;
  command = λ w lba_mode master. (refl, refl, omega arith);
  busy_limit = λ w k e sending. omega arith;
  status_clear = λ w idle. rw idle refl;
  status_set = λ w held. ground arith;
  status_busy = λ w. refl;
  status_Sending = λ w k e sending. ground arith;
  data_word = λ w k e sending idle more.
      (ap (disk_word disk) sending.0, (omega arith, sending.1, ground arith));
  data_ready = λ w k e sending idle inside. ground arith;
}

abbrev idle_wire : Wire
idle_wire = record { reg = λ r. 0; next = 0; end = 0; busy_for = 0 }

abbrev selected : Pata
selected = record { sel_base_port = 0x1f0; sel_master_or_slave = 0xa0; max_sector = 0 }

read_abs_sectors-Delivers_example :
    Returns
      (λ r. Returns (λ b. Delivers (λ x. 0) 4096 2 b r.0) (Ext2.read_abs_sectors disk 1000000 2))
      (read_abs_sectors wire 8 selected 1000000 2 4096 (λ x. 0, idle_wire))
read_abs_sectors-Delivers_example =
    read_abs_sectors-Delivers wire 0x1f0 0 disk drive 8 selected 1000000 2 4096 (λ x. 0) idle_wire
      (refl, inl (refl, refl)) (omega arith) (omega arith) (omega arith, omega arith)

abbrev waiting : Wire
waiting = record { reg = λ r. 0; next = 5; end = 256; busy_for = 7 }

poll-Ready_example :
    Returns (λ w. (drive.busy w ≡ 0) × drive.Sending w 5 256) (poll wire 8 0x1f0 waiting)
poll-Ready_example =
    poll-Ready wire 0x1f0 0 disk drive 8 5 256 waiting (omega arith) (refl, refl, omega arith)

-- ===== src/Pata/Drive.antt =====
-- What the driver relies on: a drive that follows the ATA protocol for reading by 28-bit addresses.
-- Whatever else its state holds, it keeps what is written to its registers; a read command makes it
-- send the sectors that the registers name; it is busy for some readings of the status before each.
use studix.Base.{ℕ, ◌+◌, ◌-◌, ◌*◌, ◌/◌, ◌%◌, ◌≤◌, ◌<◌, ◌≡◌, ◌≢◌, ◌==◌, if◌then◌else◌, bit_and}
use studix.Ports.{Ports}
use studix.Pata.{com_stat, read_sectors, data_port, bsy}

-- The address and the count that the registers 2 to 6 hold; a count of 0 stands for 256.
abbrev pub addressed : (ℕ → ℕ) → ℕ
addressed reg = reg 3 + 256 * reg 4 + 65536 * reg 5 + 16777216 * (reg 6 % 16)

abbrev pub counted : (ℕ → ℕ) → ℕ
counted reg = if reg 2 == 0 then 256 else reg 2

-- The word k of a disk that is given byte by byte.
abbrev pub disk_word : (ℕ → ℕ) → ℕ → ℕ
disk_word disk k = disk (2 * k) % 256 + 256 * (disk (2 * k + 1) % 256)

-- `unit` is 0 for the master and 1 for the slave; `Sending s k e` says that the words from k up to e are
-- still to be sent; `busy s` is for how many readings of the status the drive stays busy, never more
-- than `limit` while it has words to send.
pub record AtaDrive (ports : Ports) (base unit : ℕ) (disk : ℕ → ℕ) : Type 1 where
  pub register : ports.State → ℕ → ℕ
  pub busy : ports.State → ℕ
  pub limit : ℕ
  pub Sending : ports.State → (k e : ℕ) → Type 0
  pub write_register :
      (r v r' : ℕ) (s : ports.State)
      → 2 ≤ r
      → r ≤ 6
      → register (ports.outb (base + r) v s) r' ≡ (if r' == r then v else register s r')
  pub command :
      (s : ports.State)
      → register s 6 / 64 % 2 ≡ 1
      → register s 6 / 16 % 2 ≡ unit
      → Sending
          (ports.outb (base + com_stat) read_sectors s)
          (256 * addressed (register s))
          (256 * (addressed (register s) + counted (register s)))
  pub busy_limit : (s : ports.State) (k e : ℕ) → Sending s k e → busy s ≤ limit
  pub status_clear :
      (s : ports.State) → busy s ≡ 0 → bit_and (ports.inb (base + com_stat) s).0 bsy ≡ 0
  pub status_set :
      (s : ports.State) → busy s ≢ 0 → bit_and (ports.inb (base + com_stat) s).0 bsy ≢ 0
  pub status_busy : (s : ports.State) → busy (ports.inb (base + com_stat) s).1 ≡ busy s - 1
  pub status_Sending :
      (s : ports.State) (k e : ℕ) → Sending s k e → Sending (ports.inb (base + com_stat) s).1 k e
  pub data_word :
      (s : ports.State) (k e : ℕ)
      → Sending s k e
      → busy s ≡ 0
      → k < e
      → ((ports.inw (base + data_port) s).0 ≡ disk_word disk k)
        × Sending (ports.inw (base + data_port) s).1 (k + 1) e
  pub data_ready :
      (s : ports.State) (k e : ℕ)
      → Sending s k e
      → busy s ≡ 0
      → (k + 1) % 256 ≢ 0
      → busy (ports.inw (base + data_port) s).1 ≡ 0

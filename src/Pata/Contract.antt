-- ===== src/Pata/Contract.antt =====
-- The driver against what the file system takes a read to be (read_abs_sectors of Ext2).
use studix.Base.{
  ℕ, ◌+◌, ◌*◌, ◌/◌, ◌%◌, ◌≤◌, ◌<◌, ◌≡◌, ◌⊎◌, arith, Returns, Returns-mono, true, lt→ltb, ltb, ◌==◌,
  subst, ap, ◌∙◌, sym, u8,
}
use studix.Memory.{Memory, load8}
use studix.Ports.{Ports}
use studix.Ext2
use studix.Pata.{Pata, read_abs_sectors, send_read, sectors_loop}
use studix.Pata.Drive.{AtaDrive}
use studix.Pata.Select.{Selects, send_read-Sending}
use studix.Pata.Read.{Filled, sectors_loop-Filled}

-- The buffer of `count` sectors at `buf` holds b, and no other byte has changed.
abbrev pub Delivers : Memory → (buf count : ℕ) → Ext2.Buffer → Memory → Type 0
Delivers m buf count b m' =
    ((x : ℕ) → x < 512 * count → m' (buf + x) ≡ load8 b x)
    × ((x : ℕ) → (x < buf) ⊎ (buf + 512 * count ≤ x) → m' x ≡ m x)

module _ (ports : Ports) (base unit : ℕ) (disk : ℕ → ℕ)
    (drive : AtaDrive ports base unit disk) where
  read_abs_sectors-Filled :
      (f : ℕ) (p : Pata) (lba count buf : ℕ) (m : Memory) (s : ports.State)
      → Selects p base unit
      → drive.limit < f
      → lba < 268435456
      → (0 < count) × (count < 256)
      → Returns
          (λ r. Filled disk m buf (256 * lba) (256 * count) r.0)
          (read_abs_sectors ports f p lba count buf (m, s))
  unfolding read_abs_sectors
  read_abs_sectors-Filled f p lba count buf m s sel fuel small (some, few) =
      let fits : (lba / 268435456 == 0) ≡ true = ground arith in
      let word : u8 count ≡ count = omega arith in
      let sent = send_read ports p lba count s in
      let loop =
        sectors_loop-Filled disk ports base unit drive f count (256 * (lba + count)) 0 buf
          (256 * lba) m sent fuel
          (send_read-Sending ports base unit disk drive p lba count s sel small some) (omega arith)
          (omega arith) in
      let start : buf + 2 * 0 ≡ buf = omega arith in
      rw (fits, word)
        (subst
          (λ b.
            Returns (λ r. Filled disk m buf (256 * lba) (256 * count) r.0)
              (sectors_loop ports f b count 0 buf (m, sent)))
          (sym sel.0)
          (subst
            (λ t.
              Returns (λ r. Filled disk m t (256 * lba) (256 * count) r.0)
                (sectors_loop ports f base count 0 buf (m, sent)))
            start loop))

  -- With a drive that follows the protocol selected, and fuel for its longest wait, the driver returns,
  -- and the buffer then holds what the file system takes the sectors to be; no other byte of the
  -- memory changes. The address has 28 bits, and from 1 to 255 sectors are read.
  pub read_abs_sectors-Delivers :
      (f : ℕ) (p : Pata) (lba count buf : ℕ) (m : Memory) (s : ports.State)
      → Selects p base unit
      → drive.limit < f
      → lba < 268435456
      → (0 < count) × (count < 256)
      → Returns
          (λ r. Returns (λ b. Delivers m buf count b r.0) (Ext2.read_abs_sectors disk lba count))
          (read_abs_sectors ports f p lba count buf (m, s))
  unfolding Ext2.read_abs_sectors
  read_abs_sectors-Delivers f p lba count buf m s sel fuel small (some, few) =
      let fits : (lba / 268435456 == 0) ≡ true = ground arith in
      rw fits (
        Returns-mono (read_abs_sectors ports f p lba count buf (m, s))
          (λ (r : Memory × ports.State) (inside, outside). (
            λ x lt.
                let within : ltb x (512 * u8 count) ≡ true = lt→ltb x _ (omega arith) in
                let at : 2 * (256 * lba) + x ≡ 512 * lba + x = omega arith in
                rw within (inside x (omega arith) ∙ ap (λ t. disk t % 256) at),
            λ x h. outside x (omega arith),
          ))
          (read_abs_sectors-Filled f p lba count buf m s sel fuel small (some, few)))

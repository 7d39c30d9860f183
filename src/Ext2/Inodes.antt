-- ===== src/Ext2/Inodes.antt =====
-- Where an inode lies, and which inodes are read from there.
use studix.Base.{
  ℕ, ◌+◌, ◌-◌, ◌*◌, ◌/◌, ◌%◌, ◌^◌, ◌≤◌, ◌<◌, ◌≡◌, ◌≢◌, refl, ap, true, false, arith, ok, Returns,
  ltb, lt→ltb, leb, ◌==◌, if◌then◌else◌, u8, u32, sub32, mul32, ◌||◌, Returns-bind,
}
use studix.Ext2.{
  read_block, Ext2, Buffer, inodes_per_group, inode_table_addr, read_inode, ext2_open_inode, dbp,
}
use studix.Ext2.Read.{DirectOk, IsOpen, read_block-Holds}

-- The bytes before the inode in its group's table.
abbrev pub inode_place : Ext2 → ℕ → ℕ
inode_place fs num = (num - 1) % inodes_per_group fs.superblock * 128

abbrev pub inode_block : Ext2 → ℕ → ℕ
inode_block fs num =
    inode_table_addr fs.bgdt ((num - 1) / inodes_per_group fs.superblock)
    + inode_place fs num / fs.block_size

abbrev pub inode_offset : Ext2 → ℕ → ℕ
inode_offset fs num = inode_place fs num % fs.block_size

-- The inode exists, and its block lies on the first 4 GiB of the drive.
pub record IsInode (fs : Ext2) (num : ℕ) : Type 0 where
  pub numbered : 0 < num
  pub small : num < 4294967296
  pub groups : inodes_per_group fs.superblock ≢ 0
  pub group : (num - 1) / inodes_per_group fs.superblock < fs.num_groups
  pub table : inode_place fs num < 4294967296
  pub sectors : ℕ
  pub whole : fs.block_size ≡ 512 * sectors
  pub some_sectors : 0 < sectors
  pub placed : inode_block fs num * fs.block_size + fs.block_size ≤ 4294967296

le_mul : (a s : ℕ) → 0 < s → a ≤ a * s
le_mul a s h = grind arith

-- A byte of the loaded sector and the same byte of the block on the drive.
sector_byte :
    (disk : ℕ → ℕ) (b s size o x : ℕ)
    → size ≡ 512 * s
    → o + x < 512
    → (if ltb (o + x) (512 * u8 1) then disk (512 * (b * s) + (o + x)) else 0)
      ≡ disk (b * size + o + x)
sector_byte disk b s size o x e lt =
    let at : 512 * (b * s) + (o + x) ≡ b * size + o + x = omega (arith, ap (λ (t : ℕ). b * t) e) in
    rw (lt→ltb (o + x) 512 lt, at)

-- Past its guards read_inode works on one sector, the first of the inode's block.
module _ (fs : Ext2) (num : ℕ) (is : IsInode fs num) where
  guards :
      ((inodes_per_group fs.superblock == 0)
        || leb fs.num_groups ((num - 1) / inodes_per_group fs.superblock)
        || (fs.block_size == 0))
      ≡ false
  guards = ground (arith, is.groups, is.group, is.whole, is.some_sectors)

  lba_lem : mul32 (inode_block fs num) fs.block_size / 512 ≡ inode_block fs num * is.sectors
  lba_lem =
      omega (
        arith,
        ap (λ (t : ℕ). inode_block fs num * t) is.whole,
        is.placed,
        is.whole,
        is.some_sectors,
      )

  block_fits : u32 (inode_block fs num) ≡ inode_block fs num
  block_fits = omega (
    arith,
    ap (λ (t : ℕ). inode_block fs num * t) is.whole,
    le_mul (inode_block fs num) is.sectors is.some_sectors,
    is.placed,
    is.whole,
    is.some_sectors,
  )

  lba_fits : (inode_block fs num * is.sectors / 2 ^ 28 == 0) ≡ true
  lba_fits =
      let e = ap (λ (t : ℕ). inode_block fs num * t) is.whole in let p = is.placed in ground arith

  index_lem : sub32 num 1 ≡ num - 1
  index_lem = omega (arith, is.numbered, is.small)

  place_lem : mul32 ((num - 1) % inodes_per_group fs.superblock) 128 ≡ inode_place fs num
  place_lem = omega (arith, is.table)

  -- An inode that ends in the first sector of its block is read from where it lies on the drive.
  pub read_inode_near :
      inode_offset fs num + 128 ≤ 512
      → Returns
          (λ inode.
            (x : ℕ)
            → x < 128
            → inode x ≡ fs.disk (inode_block fs num * fs.block_size + inode_offset fs num + x))
          (read_inode fs num)
  unfolding read_inode
  read_inode_near near =
      let inside : ltb 512 (inode_offset fs num + 128) ≡ false = ground arith in
      rw (index_lem, place_lem, guards, block_fits, lba_lem, lba_fits, inside)
        λ x lt.
          sector_byte fs.disk (inode_block fs num) is.sectors fs.block_size (inode_offset fs num) x
            is.whole (omega arith)

-- Opening an inode whose direct blocks can be read leaves the file open at position 0.
pub ext2_open_inode-IsOpen :
    (fs : Ext2) (num : ℕ) (inode : Buffer)
    → read_inode fs num ≡ ok inode
    → DirectOk fs inode
    → Returns (λ file. IsOpen fs inode file × (file.pos ≡ 0)) (ext2_open_inode fs num)
unfolding ext2_open_inode
ext2_open_inode-IsOpen fs num inode e direct =
    let is = direct 0 (omega arith) in
    rw e (
      Returns-bind _ (read_block fs (dbp inode 0)) _ (read_block-Holds fs (dbp inode 0) is) λ buf h.
        ((refl, omega (arith, is.whole, is.some_sectors), omega arith, omega arith, h), refl))

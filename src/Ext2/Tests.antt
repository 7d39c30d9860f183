-- ===== src/Ext2/Tests.antt =====
-- A drive of numbered bytes, a file of two blocks on it, and the theorems of ext2.c there.
use studix.Base.{
  ℕ, ◌+◌, ◌-◌, ◌*◌, ltb, lt→ltb, true, ◌&&◌, ◌/◌, ◌%◌, ◌<◌, ◌≡◌, refl, arith, ok, Returns, leb,
  ◌==◌, if◌then◌else◌,
}
use studix.Memory.{load32}
use studix.Ext2.{Disk, Buffer, Ext2, File, dbp, read_inode, ext2_read}
use studix.Ext2.Read.{DirectOk, IsOpen, file_bytes, ext2_read-file_bytes}
use studix.Ext2.Inodes.{IsInode, read_inode_near}

abbrev numbered : Disk
numbered x = x % 251

-- 2048 bytes long, in the blocks 10 to 21.
abbrev two_blocks : Buffer
two_blocks x = if leb 40 x then (if x % 4 == 0 then x / 4 else 0) else if x == 5 then 8 else 0

-- 8 inodes in a group, whose table starts at block 5.
abbrev superblock : Buffer
superblock x = if x == 40 then 8 else 0

abbrev descriptors : Buffer
descriptors x = if x == 8 then 5 else 0

abbrev fs : Ext2
fs = record {
  disk = numbered;
  superblock = superblock;
  bgdt = descriptors;
  block_size = 1024;
  num_groups = 1;
}

dbp-two_blocks : (i : ℕ) → dbp two_blocks i ≡ (10 + i) % 256
unfolding load32
dbp-two_blocks i = ground arith

two_blocks-DirectOk : DirectOk fs two_blocks
two_blocks-DirectOk i lt = record {
  sectors = 2;
  whole = refl;
  some_sectors = omega arith;
  few = omega arith;
  placed = omega (arith, dbp-two_blocks i);
}

-- Open 24 bytes before the end of the first block.
abbrev near_end : File
near_end = record {
  inode = two_blocks;
  pos = 1000;
  block_index = 0;
  buf = λ x. numbered (10240 + x);
  curr_block_pos = 1000;
}

near_end-IsOpen : IsOpen fs two_blocks near_end
unfolding load32
near_end-IsOpen = (refl, omega arith, omega arith, refl, λ x lt. refl)

-- The read goes on into the second block.
ext2_read-file_bytes_example :
    Returns
      (λ (file', out).
        (out ≡ file_bytes fs two_blocks 1000 40) × IsOpen fs two_blocks file' × (file'.pos ≡ 1040))
      (ext2_read fs near_end 40)
unfolding load32
ext2_read-file_bytes_example =
    ext2_read-file_bytes fs two_blocks two_blocks-DirectOk near_end 40 near_end-IsOpen (omega arith)
      (omega arith)

-- A file of twelve full blocks.
abbrev twelve_blocks : Buffer
twelve_blocks x = if leb 40 x then (if x % 4 == 0 then x / 4 else 0) else if x == 5 then 48 else 0

abbrev last_block : File
last_block = record {
  inode = twelve_blocks;
  pos = 12278;
  block_index = 11;
  buf = λ x. numbered (21504 + x);
  curr_block_pos = 1014;
}

root-IsInode : IsInode fs 2
unfolding load32
root-IsInode = record {
  numbered = omega arith;
  small = omega arith;
  groups = omega arith;
  group = omega arith;
  table = omega arith;
  sectors = 2;
  whole = refl;
  some_sectors = omega arith;
  placed = omega arith;
}

read_inode_near_example :
    Returns (λ inode. (x : ℕ) → x < 128 → inode x ≡ numbered (5 * 1024 + 128 + x)) (read_inode fs 2)
unfolding load32
read_inode_near_example = read_inode_near fs 2 root-IsInode (omega arith)

fifth-IsInode : IsInode fs 5
unfolding load32
fifth-IsInode = record {
  numbered = omega arith;
  small = omega arith;
  groups = omega arith;
  group = omega arith;
  table = omega arith;
  sectors = 2;
  whole = refl;
  some_sectors = omega arith;
  placed = omega arith;
}

-- A drive whose inode 2 is the file of two blocks.
abbrev drive : Disk
drive x = if leb 5248 x && ltb x 5376 then two_blocks (x - 5248) else numbered x

abbrev drive_fs : Ext2
drive_fs = record fs { disk = drive }

abbrev read_back : Buffer
read_back x = if ltb (128 + x) 512 then drive (5120 + (128 + x)) else 0

read_inode-read_back : read_inode drive_fs 2 ≡ ok read_back
unfolding read_inode load32
read_inode-read_back = refl

read_back_lem : (x : ℕ) → x < 128 → read_back x ≡ two_blocks x
read_back_lem x h =
    let here : ltb (128 + x) 512 ≡ true = lt→ltb (128 + x) 512 (omega arith) in
    let low : leb 5248 (5120 + (128 + x)) ≡ true = ground arith in
    let high : ltb (5120 + (128 + x)) 5376 ≡ true = lt→ltb (5120 + (128 + x)) 5376 (omega arith) in
    let at : 5120 + (128 + x) - 5248 ≡ x = omega arith in rw (here, low, high, at)

dbp-read_back : (i : ℕ) → i < 12 → dbp read_back i ≡ dbp two_blocks i
unfolding load32
dbp-read_back i h = rw (
  read_back_lem (40 + 4 * i) (omega arith),
  read_back_lem (40 + 4 * i + 1) (omega arith),
  read_back_lem (40 + 4 * i + 2) (omega arith),
  read_back_lem (40 + 4 * i + 3) (omega arith),
)

read_back-DirectOk : DirectOk drive_fs read_back
read_back-DirectOk i lt = record {
  sectors = 2;
  whole = refl;
  some_sectors = omega arith;
  few = omega arith;
  placed = omega (arith, dbp-read_back i lt, dbp-two_blocks i);
}

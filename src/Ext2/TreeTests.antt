-- ===== src/Ext2/TreeTests.antt =====
-- A drive whose root directory has the entries "f" and "gh".
use studix.Base.{
  ℕ, ◌+◌, ◌-◌, ◌*◌, ◌/◌, ◌%◌, ◌<◌, ◌≡◌, refl, arith, true, ◌&&◌, List, [], ◌∷◌, ok, Returns, ltb,
  lt→ltb, leb, ◌==◌, if◌then◌else◌,
}
use studix.Memory.{load32}
use studix.Ext2.{
  Disk, Buffer, Ext2, File, dbp, byte_at, read_inode, ext2_find_in_dir, ext2_look_up_path,
}
use studix.Ext2.Read.{DirectOk, file_bytes}
use studix.Ext2.Paths.{components}
use studix.Ext2.Directory.{Entry, directory_bytes, At, ext2_find_in_dir-first_inode}
use studix.Ext2.Init.{list_loop}
use studix.Ext2.Listing.{Lines, list_loop-Lines}
use studix.Ext2.Tree.{IsDirectory, ext2_look_up_path-resolve}

abbrev entries : List Entry
entries =
    record { inode = 3; type = 1; name = b'f' ∷ []; padding = 0 ∷ 0 ∷ 0 ∷ [] }
    ∷ record { inode = 4; type = 1; name = b'g' ∷ b'h' ∷ []; padding = 0 ∷ 0 ∷ [] }
    ∷ []

-- 24 bytes long, in the blocks from 10 on.
abbrev root : Buffer
root x = if leb 40 x then (if x % 4 == 0 then x / 4 else 0) else if x == 4 then 24 else 0

abbrev stored : List ℕ
stored =
    3 ∷ 0 ∷ 0 ∷ 0 ∷ 12 ∷ 0 ∷ 1 ∷ 1 ∷ b'f' ∷ 0 ∷ 0 ∷ 0 ∷ 4 ∷ 0 ∷ 0 ∷ 0 ∷ 12 ∷ 0 ∷ 2 ∷ 1 ∷ b'g' ∷ b'h'
    ∷ 0 ∷ 0 ∷ []

abbrev drive : Disk
drive x =
    if leb 5248 x && ltb x 5376
    then root (x - 5248)
    else if leb 10240 x && ltb x 10264
    then byte_at stored (x - 10240)
    else 0

-- 8 inodes in a group, whose table starts at block 5.
abbrev fs : Ext2
fs = record {
  disk = drive;
  superblock = λ x. if x == 40 then 8 else 0;
  bgdt = λ x. if x == 8 then 5 else 0;
  block_size = 1024;
  num_groups = 1;
}

abbrev second : Buffer
second x = if ltb (128 + x) 512 then drive (5120 + (128 + x)) else 0

read_inode-second : read_inode fs 2 ≡ ok second
unfolding read_inode load32
read_inode-second = refl

second_lem : (x : ℕ) → x < 128 → second x ≡ root x
second_lem x h =
    let here : ltb (128 + x) 512 ≡ true = lt→ltb (128 + x) 512 (omega arith) in
    let in_table : (leb 5248 (5120 + (128 + x)) && ltb (5120 + (128 + x)) 5376) ≡ true =
      ground arith in
    let at : 5120 + (128 + x) - 5248 ≡ x = omega arith in rw (here, in_table, at)

dbp-second : (i : ℕ) → i < 12 → dbp second i ≡ 10 + i
unfolding load32
dbp-second i h =
    rw
      (
        second_lem (40 + 4 * i) (omega arith),
        second_lem (40 + 4 * i + 1) (omega arith),
        second_lem (40 + 4 * i + 2) (omega arith),
        second_lem (40 + 4 * i + 3) (omega arith),
      )
      ground arith

second-DirectOk : DirectOk fs second
second-DirectOk i lt = record {
  sectors = 2;
  whole = refl;
  some_sectors = omega arith;
  few = omega arith;
  placed = omega (arith, dbp-second i lt);
}

second_holds : file_bytes fs second 0 24 ≡ directory_bytes entries
unfolding load32 directory_bytes
second_holds = refl

ext2_find_in_dir-first_inode_example : ext2_find_in_dir 3 fs 2 (b'g' ∷ b'h' ∷ []) ≡ ok 4
unfolding load32
ext2_find_in_dir-first_inode_example =
    ext2_find_in_dir-first_inode 3 fs 2 second entries (b'g' ∷ b'h' ∷ []) read_inode-second
      second-DirectOk (omega arith) second_holds (omega arith) (omega arith) (omega arith)
      (omega arith) (omega arith)

root-IsDirectory : IsDirectory 3 fs 2 entries
unfolding load32
root-IsDirectory = record {
  inode = second;
  readable = read_inode-second;
  direct = second-DirectOk;
  ends = omega arith;
  holds = second_holds;
  fit = omega arith;
  names = omega arith;
  short = omega arith;
}

ext2_look_up_path-resolve_example : ext2_look_up_path 3 fs (b'/' ∷ b'g' ∷ b'h' ∷ []) ≡ ok 4
unfolding components
ext2_look_up_path-resolve_example =
    ext2_look_up_path-resolve 3 fs (λ dir. entries) (b'g' ∷ b'h' ∷ [])
      (root-IsDirectory, omega arith)

-- The directory, open at its start.
abbrev opened : File
opened = record {
  inode = second;
  pos = 0;
  block_index = 0;
  buf = λ x. drive (10240 + x);
  curr_block_pos = 0;
}

opened-At : At fs second second-DirectOk entries opened
unfolding load32
opened-At = ((refl, omega arith, omega arith, refl, λ x lt. refl), omega arith, second_holds)

list_loop-Lines_example : Returns (Lines entries) (list_loop 10 3 fs opened)
unfolding load32
list_loop-Lines_example =
    list_loop-Lines fs second 3 opened entries second-DirectOk (omega arith) (omega arith)
      (omega arith) (omega arith) opened-At (omega arith)

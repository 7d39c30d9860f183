-- ===== src/Ext2Vfs/Tests.antt =====
-- A drive with the file `/f`, mounted at the node at 2000.
use studix.Base.{
  ℕ, ◌+◌, ◌-◌, ◌*◌, ◌/◌, ◌%◌, ◌<◌, ◌≡◌, ◌≢◌, refl, inl, inr, arith, true, false, ◌&&◌, List, [],
  ◌∷◌, length, Option, none, some, Result, ok, stop, undefined, assertion, Returns, ◌>>=◌, ltb,
  lt→ltb, leb, ◌==◌, if◌then◌else◌, u8, bit_or,
}
use studix.Memory.{Memory, load32, store32}
use studix.Kernel.{Kernel}
use studix.Kmalloc.{HeapAlloc, kmalloc}
use studix.Vfs.{open_fs_node, entry_inode, mountpoint_node}
use studix.Vfs.FsNode
use studix.Ext2.{
  Disk, Buffer, Ext2, File, Dirent, dbp, byte_at, text_of, read_inode, ext2_look_up_path,
  ext2_next_dirent, ext2_open_inode, find_loop, ext2_read, dirent_of,
}
use studix.Ext2.Read.{DirectOk, file_bytes}
use studix.Ext2Vfs.{Mounted, Linked, memory, ext2_vfs_open, ext2_vfs_read_dir, ext2_mount}
use studix.Ext2Vfs.Stream.{call_open, read_pieces}
use studix.Ext2Vfs.Open.{read_pieces-open_fs_node}
use studix.Ext2Vfs.Entry.{ext2_vfs_open_root, ext2_vfs_read_dir-text_of, ext2_vfs_read_dir_long}
use studix.Ext2Vfs.Mount.{IsRoot, ext2_mount-IsRoot}

-- 12 bytes long, in the blocks from 10 on.
abbrev dir_inode : Buffer
dir_inode x = if leb 40 x then (if x % 4 == 0 then x / 4 else 0) else if x == 4 then 12 else 0

-- 2048 bytes long, in the blocks from 30 on.
abbrev file_inode : Buffer
file_inode x = if leb 40 x then (if x % 4 == 0 then x / 4 + 20 else 0) else if x == 5 then 8 else 0

abbrev entry : List ℕ
entry = 3 ∷ 0 ∷ 0 ∷ 0 ∷ 12 ∷ 0 ∷ 1 ∷ 1 ∷ b'f' ∷ 0 ∷ 0 ∷ 0 ∷ []

abbrev drive : Disk
drive x =
    if leb 5248 x && ltb x 5376
    then dir_inode (x - 5248)
    else if leb 5376 x && ltb x 5504
    then file_inode (x - 5376)
    else if leb 10240 x && ltb x 10252
    then byte_at entry (x - 10240)
    else x % 251

-- 8 inodes in a group, whose table starts at block 5.
abbrev fs : Ext2
fs = record {
  disk = drive;
  superblock = λ x. if x == 40 then 8 else 0;
  bgdt = λ x. if x == 8 then 5 else 0;
  block_size = 1024;
  num_groups = 1;
}

abbrev third : Buffer
third x = if ltb (256 + x) 512 then drive (5120 + (256 + x)) else 0

read_inode-third : read_inode fs 3 ≡ ok third
unfolding read_inode load32
read_inode-third = refl

third_lem : (x : ℕ) → x < 128 → third x ≡ file_inode x
third_lem x h =
    let here : ltb (256 + x) 512 ≡ true = lt→ltb (256 + x) 512 (omega arith) in
    let low : (leb 5248 (5120 + (256 + x)) && ltb (5120 + (256 + x)) 5376) ≡ false = ground arith in
    let high : (leb 5376 (5120 + (256 + x)) && ltb (5120 + (256 + x)) 5504) ≡ true = ground arith in
    let at : 5120 + (256 + x) - 5376 ≡ x = omega arith in rw (here, low, high, at)

dbp-third : (i : ℕ) → i < 12 → dbp third i ≡ 30 + i
unfolding load32
dbp-third i h =
    rw
      (
        third_lem (40 + 4 * i) (omega arith),
        third_lem (40 + 4 * i + 1) (omega arith),
        third_lem (40 + 4 * i + 2) (omega arith),
        third_lem (40 + 4 * i + 3) (omega arith),
      )
      ground arith

third-DirectOk : DirectOk fs third
third-DirectOk i lt = record {
  sectors = 2;
  whole = refl;
  some_sectors = omega arith;
  few = omega arith;
  placed = omega (arith, dbp-third i lt);
}

ext2_look_up_path-f : ext2_look_up_path 9 fs (b'/' ∷ b'f' ∷ []) ≡ ok 3
unfolding ext2_look_up_path load32 ext2_open_inode find_loop ext2_next_dirent ext2_read dirent_of
ext2_look_up_path-f = refl

abbrev no_heap : HeapAlloc
no_heap k size align = stop undefined

abbrev kernel : Memory → Kernel
kernel m = record {
  mem = m;
  placement_addr = 32768;
  kheap = false;
  heap = record {
    index = record { array = 0; size = 0; max_size = 0; comparer = none };
    start_addr = 0;
    end_addr = 0;
    max_addr = 0;
    supervisor = false;
    readonly = false;
  };
  kernel_dir = 0;
  curr_dir = 0;
  frames = 0;
  num_frames = 0;
}

abbrev linked : Linked
linked = record {
  ext2_vfs_read_fn = 1;
  ext2_vfs_write_fn = 2;
  ext2_vfs_open_fn = 3;
  ext2_vfs_close_fn = 4;
  ext2_vfs_read_dir_fn = 5;
  ext2_vfs_find_dir_fn = 6;
}

-- The node at 2000 has the name `/f`.
abbrev node_f : Memory
node_f x =
    if x == 2000
    then b'/'
    else if x == 2001
    then b'f'
    else if x == 2160
    then 1
    else if x == 2168
    then 3
    else 0

abbrev mounted : Mounted
mounted = record { kernel = kernel node_f; fs = fs; files = λ a. none; blocks = λ a. 0 }

abbrev pieces : List (ℕ × ℕ)
pieces = (10, 4096) ∷ (20, 5000) ∷ []

read_pieces-open_fs_node_example :
    Returns
      (λ (s', out). out ≡ file_bytes fs third 0 30)
      (open_fs_node Mounted memory (call_open 9 no_heap linked) 2000 true false mounted
        >>= read_pieces linked 2000 0 pieces)
unfolding load32 kmalloc
read_pieces-open_fs_node_example =
    read_pieces-open_fs_node 9 no_heap linked (omega arith) (omega arith) third 2000 mounted
      (b'/' ∷ b'f' ∷ []) 3
      (record (kernel node_f) { mem = store32 node_f 2132 3; placement_addr = 32912 })
      (record (kernel node_f) { mem = store32 node_f 2132 3; placement_addr = 33936 }) 32768 32912
      pieces ((refl, omega arith, (refl, omega arith, refl)), refl, refl) (omega arith)
      ext2_look_up_path-f (omega arith) (omega arith) read_inode-third third-DirectOk refl refl
      (omega arith) (λ x lo hi. (refl, refl)) (omega arith) (omega arith)
      (inr (omega arith), (inr (omega arith), (inr (omega arith), (inr (omega arith), tt))))
      (inr (omega arith), (inl (omega arith), (inl (omega arith), tt)))
      (inl (omega arith), (inl (omega arith), tt))

-- The node at 2000 is a directory.
abbrev node_dir : Memory
node_dir x = if x == 2148 then 2 else 0

ext2_mount-IsRoot_example :
    Returns
      (λ k'.
        IsRoot linked 32768 (k'.mem)
        × (load32 (k'.mem) (FsNode.node_ptr 2000) ≡ 32768)
        × (load32 (k'.mem) (FsNode.type 2000) ≡ bit_or 2 mountpoint_node)
        × (ext2_mount no_heap linked 2000 k' ≡ stop assertion))
      (ext2_mount no_heap linked 2000 (kernel node_dir))
unfolding load32 kmalloc
ext2_mount-IsRoot_example =
    ext2_mount-IsRoot no_heap linked 2000 (kernel node_dir)
      (record (kernel node_dir) { placement_addr = 32952 }) 32768 (refl, refl, omega arith) refl
      (omega arith) (omega arith) (inl (omega arith)) (λ x lo hi. refl)

-- A root as it is after ext2_mount, at 32768.
abbrev root_memory : Memory
root_memory x =
    if x == 32900
    then 2
    else if x == 32916
    then 2
    else if leb 32928 x && ltb x 32952 && (x % 4 == 0)
    then (x - 32924) / 4
    else 0

ext2_vfs_open_root_example :
    Returns
      (λ s'. load32 (memory s') 32900 ≡ 0)
      (ext2_vfs_open 9 no_heap 32768 (record mounted { kernel = kernel root_memory }))
    × ((ext2_vfs_open 9 no_heap 32768 (record mounted { kernel = kernel root_memory })
          >>= ext2_vfs_read_dir no_heap 32768 0)
        ≡ stop undefined)
unfolding load32
ext2_vfs_open_root_example =
    ext2_vfs_open_root 9 no_heap linked 32768 0 (record mounted { kernel = kernel root_memory })
      (refl, refl, refl, refl, refl, refl, refl, refl, refl, refl, refl, refl) (omega arith) refl

-- The directory of `/f`, open at its start at address 900, which the node at 2000 leads to.
abbrev dir_file : File
dir_file = record {
  inode = dir_inode;
  pos = 0;
  block_index = 0;
  buf = λ x. drive (10240 + x);
  curr_block_pos = 0;
}

abbrev node_open : Memory
node_open x = if x == 2156 then 132 else if x == 2157 then 3 else 0

abbrev listing : File → Mounted
listing file = record {
  kernel = kernel node_open;
  fs = fs;
  files = λ a. if a == 900 then some file else none;
  blocks = λ a. 600;
}

abbrev entry_of :
    (r : Result (File × Option Dirent))
    → Returns (λ (file, d). d ≢ none) r
    → (file : File) × (d : Dirent) × (r ≡ ok (file, some d))
entry_of (ok (file, some d)) h = (file, d, refl)
entry_of (ok (file, none)) h = absurd (h refl)
entry_of (stop e) h = absurd h

dir_file_entry : Returns (λ (file, d). d ≢ none) (ext2_next_dirent fs dir_file)
unfolding ext2_next_dirent load32 ext2_read dirent_of
dir_file_entry e = absurd cc

abbrev short : (file : File) × (d : Dirent) × (ext2_next_dirent fs dir_file ≡ ok (file, some d))
short = entry_of (ext2_next_dirent fs dir_file) dir_file_entry

ext2_vfs_read_dir-text_of_example :
    Returns
      (λ (s', e).
        (e ≡ 32768)
        × (s'.files 900 ≡ some (short.0))
        × (load32 (memory s') (entry_inode e) ≡ short.1.inode_num)
        × ((j : ℕ)
            → j < length (text_of (short.1.name))
            → memory s' (e + j) ≡ u8 (byte_at (text_of (short.1.name)) j))
        × (memory s' (e + length (text_of (short.1.name))) ≡ 0))
      (ext2_vfs_read_dir no_heap 2000 0 (listing dir_file))
unfolding load32 kmalloc ext2_next_dirent ext2_read dirent_of
ext2_vfs_read_dir-text_of_example =
    ext2_vfs_read_dir-text_of no_heap 2000 0 (listing dir_file) dir_file (short.0) (short.1)
      (record (kernel node_open) { placement_addr = 32900 }) 32768 refl (short.2) refl (omega arith)
      (omega arith)

-- An entry with a name of 140 bytes.
abbrev long_file : File
long_file = record {
  inode = file_inode;
  pos = 0;
  block_index = 0;
  buf = λ x.
      if x == 0
      then 3
      else if x == 4
      then 148
      else if x == 6
      then 140
      else if leb 8 x
      then 97
      else 0;
  curr_block_pos = 0;
}

long_file_entry : Returns (λ (file, d). d ≢ none) (ext2_next_dirent fs long_file)
unfolding ext2_next_dirent load32 ext2_read dirent_of
long_file_entry e = absurd cc

abbrev long : (file : File) × (d : Dirent) × (ext2_next_dirent fs long_file ≡ ok (file, some d))
long = entry_of (ext2_next_dirent fs long_file) long_file_entry

ext2_vfs_read_dir_long_example :
    Returns
      (λ (s', e). load32 (memory s') (entry_inode e) ≡ 1633771873)
      (ext2_vfs_read_dir no_heap 2000 0 (listing long_file))
unfolding load32 kmalloc ext2_next_dirent ext2_read dirent_of
ext2_vfs_read_dir_long_example =
    ext2_vfs_read_dir_long no_heap 2000 0 (listing long_file) long_file (long.0) (long.1)
      (record (kernel node_open) { placement_addr = 32900 }) 32768 refl (long.2) refl (omega arith)

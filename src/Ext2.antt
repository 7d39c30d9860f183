-- ===== src/Ext2.antt =====
-- src/fs/ext2.c and src/include/ext2.h: reading an ext2 file system. The structures of the disk stay
-- the bytes that they are, read at their offsets; the buffers that the code allocates and frees are
-- values here, so that kmalloc and kfree do not show. The messages that ext2_init_fs and
-- load_superblock print are left out.
pub mod Read
pub mod Inodes
pub mod Paths
pub mod Names
pub mod Directory
pub mod Tree
pub mod Init
pub mod Listing
mod Tests
mod TreeTests
use studix.Base.{
  ℕ, zero, suc, ◌+◌, ◌-◌, ◌*◌, ◌/◌, ◌%◌, ◌^◌, Bool, true, false, not, ◌||◌, Option, none, some,
  List, [], ◌∷◌, ◌++◌, map, Result, ok, stop, panicked, undefined, fuel, ◌>>=◌, ◌>>◌, assert, ltb,
  leb, ◌==◌, if◌then◌else◌, add32, sub32, mul32, u8, u16, u32, length, ℤ, pos, negsuc,
}
use studix.Memory.{Memory, load8, load32}
use studix.Strings.Text.{first_difference}

-- What the drive holds, byte by byte.
abbrev pub Disk : Type 0
Disk = ℕ → ℕ

-- A buffer: its bytes from 0 on.
abbrev pub Buffer : Type 0
Buffer = Memory

abbrev pub sector_size : ℕ
sector_size = 512

abbrev pub root_inode : ℕ
root_inode = 2

-- read_abs_sectors of src/devices/pata.c as its caller sees it: the drive returns the bytes of the
-- sectors that it is asked for. The count is a uint8_t; of the bytes behind it nothing is known.
unfoldable pub read_abs_sectors : Disk → (lba sector_count : ℕ) → Result Buffer
read_abs_sectors disk lba sector_count = do
  assert (lba / 2 ^ 28 == 0)
  ok (λ x. if ltb x (sector_size * u8 sector_count) then disk (sector_size * lba + x) else 0)

-- The globals of ext2.c: the superblock and the group descriptors as they were read.
pub record Ext2 : Type 0 where
  pub disk : Disk
  pub superblock : Buffer
  pub bgdt : Buffer
  pub block_size : ℕ
  pub num_groups : ℕ

-- A uint16_t at an offset.
abbrev pub load16 : Buffer → ℕ → ℕ
load16 b i = load8 b i + 256 * load8 b (i + 1)

-- Fields of Ext2_superblock.
abbrev pub total_blocks : Buffer → ℕ
total_blocks s = load32 s 4

abbrev pub log2_block_size : Buffer → ℕ
log2_block_size s = load32 s 24

abbrev pub blocks_per_group : Buffer → ℕ
blocks_per_group s = load32 s 32

abbrev pub inodes_per_group : Buffer → ℕ
inodes_per_group s = load32 s 40

abbrev pub signature : Buffer → ℕ
signature s = load16 s 56

-- Fields of Ext2_inode: the size in bytes, and the direct block pointers.
abbrev pub inode_size : Buffer → ℕ
inode_size inode = load32 inode 4

abbrev pub dbp : Buffer → ℕ → ℕ
dbp inode i = load32 inode (40 + 4 * i)

-- The field inode_table_addr of entry i of the group descriptors, which have 32 bytes each.
abbrev pub inode_table_addr : Buffer → ℕ → ℕ
inode_table_addr bgdt i = load32 bgdt (32 * i + 8)

unfoldable pub read_block : Ext2 → ℕ → Result Buffer
unfolding read_abs_sectors
read_block fs block_num =
    read_abs_sectors fs.disk (mul32 block_num fs.block_size / sector_size)
      (fs.block_size / sector_size)

-- A division by 0 or a shift by 32 or more has no meaning.
unfoldable pub load_superblock : Disk → Result (Buffer × ℕ × ℕ)
unfolding read_abs_sectors
load_superblock disk = do
  superblock ← read_abs_sectors disk 2 2
  if (blocks_per_group superblock == 0) || leb 32 (log2_block_size superblock)
      then stop undefined
      else (do
        assert (signature superblock == 0xef53)
        ok (
          superblock,
          mul32 1024 (2 ^ log2_block_size superblock),
          total_blocks superblock / blocks_per_group superblock,
        ))

unfoldable pub load_bgdt : Disk → (block_size num_groups : ℕ) → Result Buffer
unfolding read_abs_sectors
load_bgdt disk block_size num_groups =
    if block_size == 0
    then stop undefined
    else read_abs_sectors disk (mul32 (2048 / block_size + 1) block_size / sector_size)
        (mul32 32 num_groups / sector_size + 1)

-- The loading steps of ext2_init_fs.
unfoldable pub load_fs : Disk → Result Ext2
unfolding load_superblock load_bgdt
load_fs disk = do
  (superblock, block_size, num_groups) ← load_superblock disk
  bgdt ← load_bgdt disk block_size num_groups
  ok (record {
    disk = disk;
    superblock = superblock;
    bgdt = bgdt;
    block_size = block_size;
    num_groups = num_groups;
  })

-- The bytes of a buffer from i on.
abbrev pub behind : Buffer → ℕ → Buffer
behind b i = λ x. b (i + x)

-- One sector is read, and 128 bytes are copied from the inode's place in its block, with no test that
-- they lie in that sector: where they do not, the copy reads past its buffer, which C gives no meaning.
unfoldable pub read_inode : Ext2 → ℕ → Result Buffer
unfolding read_abs_sectors
read_inode fs inode_num =
    let n = sub32 inode_num 1 in
    let per_group = inodes_per_group fs.superblock in
    let block_group = n / per_group in
    let place = mul32 (n % per_group) 128 in
    let offset_in_block = place % fs.block_size in
    let block = add32 (inode_table_addr fs.bgdt block_group) (place / fs.block_size) in
    if (per_group == 0) || (leb fs.num_groups block_group) || (fs.block_size == 0)
    then stop undefined
    else do
      buf ← read_abs_sectors fs.disk (mul32 block fs.block_size / sector_size) 1
      if ltb sector_size (offset_in_block + 128)
          then stop undefined
          else ok (behind buf offset_in_block)

pub record File : Type 0 where
  pub inode : Buffer
  pub pos : ℕ
  pub block_index : ℕ
  pub buf : Buffer
  pub curr_block_pos : ℕ

unfoldable pub ext2_open_inode : Ext2 → ℕ → Result File
unfolding read_inode read_block
ext2_open_inode fs inode_num = do
  inode ← read_inode fs inode_num
  buf ← read_block fs (dbp inode 0)
  ok (record { inode = inode; pos = 0; block_index = 0; buf = buf; curr_block_pos = 0 })

-- The n bytes of a buffer from i on, in order.
abbrev pub bytes : Buffer → (i n : ℕ) → List ℕ
bytes b i zero = []
bytes b i (suc n) = load8 b i ∷ bytes b (i + 1) n

-- Where the copy ended at the end of the buffer, the next block is read.
unfoldable pub advance : Ext2 → File → (to_copy : ℕ) → Bool → Result File
unfolding read_block
advance fs file to_copy new_block =
    let next = u8 (file.block_index + 1) in
    let moved = add32 file.pos to_copy in
    if new_block
    then (if leb 12 next then stop panicked else do
      buf ← read_block fs (dbp file.inode next)
      ok (record file { pos = moved; block_index = next; buf = buf; curr_block_pos = 0 }))
    else ok (record file { pos = moved; curr_block_pos = add32 file.curr_block_pos to_copy })

-- The loop of ext2_read. The result is the file and the bytes that were copied, in order.
read_loop : Ext2 → (f bytes_left : ℕ) → File → List ℕ → Result (File × List ℕ)
unfolding advance
read_loop fs zero bytes_left file out = stop fuel
read_loop fs (suc f) bytes_left file out =
    let new_block = leb fs.block_size (add32 file.curr_block_pos bytes_left) in
    let to_copy = if new_block then sub32 fs.block_size file.curr_block_pos else bytes_left in
    let rest = λ (file' : File).
      read_loop fs f (sub32 bytes_left to_copy) file'
        (out ++ bytes file.buf file.curr_block_pos to_copy) in
    if bytes_left == 0 then ok (file, out) else advance fs file to_copy new_block >>= rest

-- How much is read: what is asked for, or what the file still has.
unfoldable pub read_count : File → ℕ → ℕ
read_count file count =
    if ltb (inode_size file.inode) (add32 file.pos count)
    then sub32 (inode_size file.inode) file.pos
    else count

-- Each round copies a byte at least, so the fuel suffices.
unfoldable pub ext2_read : Ext2 → File → ℕ → Result (File × List ℕ)
unfolding read_loop read_count
ext2_read fs file count = read_loop fs (read_count file count + 1) (read_count file count) file []

pub record Dirent : Type 0 where
  pub inode_num : ℕ
  pub total_len : ℕ
  pub name_len : ℕ
  pub name : List ℕ

-- Byte i of what was read.
abbrev pub byte_at : List ℕ → ℕ → ℕ
byte_at [] i = 0
byte_at (x ∷ xs) zero = x
byte_at (x ∷ xs) (suc i) = byte_at xs i

-- The fields of an entry's first eight bytes, with the name that was read behind them.
unfoldable pub dirent_of : (head name : List ℕ) → Dirent
dirent_of head name = record {
  inode_num =
      byte_at head 0 + 256 * byte_at head 1 + 65536 * byte_at head 2 + 16777216 * byte_at head 3;
  total_len = byte_at head 4 + 256 * byte_at head 5;
  name_len = byte_at head 6;
  name = name;
}

-- `none` is the false: too few bytes were left for an entry or for its name.
unfoldable pub ext2_next_dirent : Ext2 → File → Result (File × Option Dirent)
ext2_next_dirent fs file = do
  (file1, head) ← ext2_read fs file 8
  let name_len = byte_at head 6
  let total_len = byte_at head 4 + 256 * byte_at head 5
  if not (length head == 8) then ok (file1, none) else do
    (file2, name) ← ext2_read fs file1 name_len
    if not (length name == name_len) then ok (file2, none) else do
      (file3, dummy) ← ext2_read fs file2 (sub32 total_len (8 + name_len))
      ok (file3, some (dirent_of head name))

-- The text that stands before the first terminator.
abbrev pub text_of : List ℕ → List ℕ
text_of [] = []
text_of (x ∷ xs) = if x == 0 then [] else x ∷ text_of xs

-- strcmp(a, b) == 0
abbrev pub same_text : List ℕ → List ℕ → Bool
same_text a b = elim (first_difference (text_of a) (text_of b)) [
  | pos n ↦ n == 0
  | negsuc n ↦ false
]

-- The loop over the entries of a directory.
unfoldable pub find_loop : Ext2 → (f : ℕ) → File → List ℕ → Result ℕ
find_loop fs zero dir name = stop fuel
find_loop fs (suc f) dir name =
    let rest = λ (d : File). find_loop fs f d name in
    do
      (dir', entry) ← ext2_next_dirent fs dir
      elim entry [
        | none ↦ ok 0
        | some e ↦ if same_text e.name name then ok e.inode_num else rest dir'
      ]

unfoldable pub ext2_find_in_dir : ℕ → Ext2 → ℕ → List ℕ → Result ℕ
ext2_find_in_dir f fs dir_inode name = do
  dir ← ext2_open_inode fs dir_inode
  find_loop fs f dir name

-- The path up to the first slash and, if there is one, what stands behind it.
unfoldable pub split_slash : List ℕ → List ℕ × Option (List ℕ)
split_slash [] = ([], none)
split_slash (c ∷ cs) =
    let (first, rest) = split_slash cs in if c == b'/' then ([], some cs) else (c ∷ first, rest)

-- The endless loop of ext2_look_up_path and the last search behind it. The terminator that is put in
-- place of a slash for the search is taken out again, so that the path is as before.
unfoldable pub look_up_loop : (find : ℕ → List ℕ → Result ℕ) → (f dir : ℕ) → List ℕ → Result ℕ
unfolding split_slash
look_up_loop find zero dir path = stop fuel
look_up_loop find (suc f) dir path =
    let next = λ (rest : List ℕ) (d : ℕ). look_up_loop find f d rest in
    let (name, more) = split_slash path in
    elim more [
      | none ↦ find dir name
      | some rest ↦ find dir name >>= λ d. if d == 0 then ok 0 else next rest d
    ]

unfoldable pub ext2_look_up_path : ℕ → Ext2 → List ℕ → Result ℕ
unfolding look_up_loop ext2_find_in_dir
ext2_look_up_path f fs [] = ok 0
ext2_look_up_path f fs (c ∷ path) =
    if not (c == b'/')
    then ok 0
    else look_up_loop (ext2_find_in_dir f fs) (length path + 1) root_inode path

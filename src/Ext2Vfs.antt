-- ===== src/Ext2Vfs.antt =====
-- src/fs/ext2_vfs.c: ext2 behind the nodes of the virtual file system. An Ext2_file is a value that
-- lies at an address, with the address of its buffer for a block; a read into a buffer that overlaps
-- either would change the file that is read, and stops with `aliased`. What else ext2.c allocates for
-- itself does not show.
pub mod Text
pub mod Buffers
pub mod Mount
pub mod Entry
pub mod Stream
pub mod Open
mod Tests
use studix.Base.{
  ℕ, zero, suc, ◌+◌, ◌*◌, Bool, true, false, not, ◌&&◌, Option, none, some, List, [], ◌∷◌, length,
  Result, ok, stop, undefined, aliased, leb, panicked, fuel, ◌>>=◌, ◌>>◌, assert, ◌==◌,
  if◌then◌else◌, bit_and, bit_or,
}
use studix.Memory.{Memory, load8, load32, store8, store32}
use studix.Kernel.{Kernel}
use studix.Kmalloc.{HeapAlloc, kmalloc}
use studix.Alloc.{free}
use studix.Vfs.{ReadFn, sizeof_fs_node, sizeof_dir_entry, entry_inode, dir_node, mountpoint_node}
use studix.Vfs.FsNode
use studix.Ext2.{
  Ext2, File, ext2_open_inode, ext2_read, ext2_next_dirent, ext2_find_in_dir, ext2_look_up_path,
  root_inode, text_of,
}

-- The kernel, the file system that ext2_init_fs has loaded, the Ext2_file at each address, and the
-- address that its field buf has.
pub record Mounted : Type 0 where
  pub kernel : Kernel
  pub fs : Ext2
  pub files : ℕ → Option File
  pub blocks : ℕ → ℕ

abbrev pub memory : Mounted → Memory
memory s = s.kernel.mem

abbrev pub with_memory : Mounted → Memory → Mounted
with_memory s m = record s { kernel = record (s.kernel) { mem = m } }

-- *file = ...
abbrev pub put_file : Mounted → ℕ → Option File → Mounted
put_file s a file = record s { files = λ x. if x == a then file else s.files x }

-- file->buf = ...
abbrev pub put_block : Mounted → (file block : ℕ) → Mounted
put_block s file block = record s { blocks = λ x. if x == file then block else s.blocks x }

abbrev pub sizeof_ext2_file : ℕ
sizeof_ext2_file = 144

-- The bytes of the text at an address, up to its terminator.
unfoldable pub text_at : (f : ℕ) → Memory → ℕ → Result (List ℕ)
text_at zero m a = stop fuel
text_at (suc f) m a =
    let rest = text_at f m (a + 1) in
    if load8 m a == 0 then ok [] else rest >>= λ xs. ok (load8 m a ∷ xs)

-- Bytes that are stored one behind the other.
unfoldable pub store_text : Memory → ℕ → List ℕ → Memory
store_text m a [] = m
store_text m a (x ∷ xs) = store_text (store8 m a x) (a + 1) xs

-- ext2_open_inode allocates the buffer for a block.
unfoldable pub ext2_vfs_open : (f : ℕ) → HeapAlloc → (node : ℕ) → Mounted → Result Mounted
unfolding text_at
ext2_vfs_open f alloc node s = do
  path ← text_at f (memory s) node
  inode ← ext2_look_up_path f s.fs path
  let s1 = with_memory s (store32 (memory s) (FsNode.inode node) inode)
  if inode == 0 then ok s1 else do
    (k, file) ← kmalloc alloc s1.kernel sizeof_ext2_file
    opened ← ext2_open_inode s.fs (load32 k.mem (FsNode.inode node))
    (k', block) ← kmalloc alloc k s.fs.block_size
    let s2 = put_block (put_file (record s1 { kernel = k' }) file (some opened)) file block
    ok (with_memory s2 (store32 (memory s2) (FsNode.impl node) file))

-- What is freed is not a file any more.
unfoldable pub ext2_vfs_close : (node : ℕ) → Mounted → Result Mounted
ext2_vfs_close node s = do
  k ← free s.kernel (load32 (memory s) (FsNode.impl node))
  ok (put_file (record s { kernel = k }) (load32 (memory s) (FsNode.impl node)) none)

-- The n bytes from a on, if there are any, and the m bytes from b on have a byte in common.
unfoldable pub overlap : (a n b m : ℕ) → Bool
overlap a n b m = not (n == 0) && not (leb (a + n) b) && not (leb (b + m) a)

-- A file that is not open is one that node->impl does not lead to. The copy goes to the buffer block by
-- block in the source; here at once, which is the same unless the buffer overlaps what is read from.
unfoldable pub ext2_vfs_read : (node offset size buf : ℕ) → Mounted → Result (Mounted × ℕ)
unfolding store_text
ext2_vfs_read node offset size buf s = elim (s.files (load32 (memory s) (FsNode.impl node))) [
  | none ↦ stop undefined
  | some file ↦ if not (offset == file.pos) then stop panicked else do
    (file', out) ← ext2_read s.fs file size
    let impl = load32 (memory s) (FsNode.impl node)
    let s1 = put_file s impl (some file')
    if overlap buf (length out) impl sizeof_ext2_file
        then stop aliased
        else if overlap buf (length out) (s.blocks impl) s.fs.block_size
        then stop aliased
        else ok (with_memory s1 (store_text (memory s1) buf out), length out)
]

unfoldable pub ext2_vfs_write : (node offset size buf : ℕ) → Mounted → Result (Mounted × ℕ)
ext2_vfs_write node offset size buf s = stop panicked

-- The name of an entry is copied by strcpy, which leaves the byte behind the text alone and puts the
-- terminator behind that.
unfoldable pub put_name : (entry : ℕ) → List ℕ → Memory → Memory
unfolding store_text
put_name entry text m = store8 (store_text m entry text) (entry + length text + 1) 0

unfoldable pub ext2_vfs_read_dir : HeapAlloc → (node index : ℕ) → Mounted → Result (Mounted × ℕ)
unfolding put_name
ext2_vfs_read_dir alloc node index s = elim (s.files (load32 (memory s) (FsNode.impl node))) [
  | none ↦ stop undefined
  | some file ↦ (do
    (file', ext2_dir) ← ext2_next_dirent s.fs file
    let s1 = put_file s (load32 (memory s) (FsNode.impl node)) (some file')
    elim ext2_dir [
      | none ↦ ok (s1, 0)
      | some d ↦ (do
        (k, dir) ← kmalloc alloc s1.kernel sizeof_dir_entry
        let m = store32 k.mem (entry_inode dir) d.inode_num
        ok (with_memory (record s1 { kernel = k }) (put_name dir (text_of d.name) m), dir))
    ])
]

-- Of the new node only the inode is set.
unfoldable pub ext2_vfs_find_dir :
    (f : ℕ) → HeapAlloc → (node name : ℕ) → Mounted → Result (Mounted × ℕ)
unfolding text_at
ext2_vfs_find_dir f alloc node name s = do
  text ← text_at f (memory s) name
  inode ← ext2_find_in_dir f s.fs (load32 (memory s) (FsNode.inode node)) text
  if inode == 0 then ok (s, 0) else do
    (k, found) ← kmalloc alloc s.kernel sizeof_fs_node
    ok (with_memory (record s { kernel = k }) (store32 k.mem (FsNode.inode found) inode), found)

-- Where the functions lie.
pub record Linked : Type 0 where
  pub ext2_vfs_read_fn : ℕ
  pub ext2_vfs_write_fn : ℕ
  pub ext2_vfs_open_fn : ℕ
  pub ext2_vfs_close_fn : ℕ
  pub ext2_vfs_read_dir_fn : ℕ
  pub ext2_vfs_find_dir_fn : ℕ

-- The fields of the root, in the order of the assignments.
unfoldable pub set_root_node : Linked → (node : ℕ) → Memory → Memory
set_root_node linked node m =
    let m0 = store8 m node 0 in
    let m1 = store32 m0 (FsNode.permissions node) 0 in
    let m2 = store32 m1 (FsNode.uid node) 0 in
    let m3 = store32 m2 (FsNode.gid node) 0 in
    let m4 = store32 m3 (FsNode.inode node) root_inode in
    let m5 = store32 m4 (FsNode.length node) 0 in
    let m6 = store32 m5 (FsNode.type node) dir_node in
    let m7 = store32 m6 (FsNode.read node) linked.ext2_vfs_read_fn in
    let m8 = store32 m7 (FsNode.write node) linked.ext2_vfs_write_fn in
    let m9 = store32 m8 (FsNode.open_fn node) linked.ext2_vfs_open_fn in
    let m10 = store32 m9 (FsNode.close node) linked.ext2_vfs_close_fn in
    let m11 = store32 m10 (FsNode.read_dir node) linked.ext2_vfs_read_dir_fn in
    let m12 = store32 m11 (FsNode.find_dir node) linked.ext2_vfs_find_dir_fn in
    let m13 = store32 m12 (FsNode.node_ptr node) 0 in store32 m13 (FsNode.impl node) 0

unfoldable pub ext2_mount : HeapAlloc → Linked → (mountpoint : ℕ) → Kernel → Result Kernel
unfolding set_root_node
ext2_mount alloc linked mountpoint k =
    let type = load32 k.mem (FsNode.type mountpoint) in
    do
      assert
          ((load32 k.mem (FsNode.node_ptr mountpoint) == 0) && (bit_and type mountpoint_node == 0))
      assert (not (bit_and type dir_node == 0))
      (k1, ext2_root) ← kmalloc alloc k sizeof_fs_node
      let m1 = set_root_node linked ext2_root k1.mem
      let m2 =
          store32 m1 (FsNode.type mountpoint)
            (bit_or (load32 m1 (FsNode.type mountpoint)) mountpoint_node)
      ok (record k1 { mem = store32 m2 (FsNode.node_ptr mountpoint) ext2_root })

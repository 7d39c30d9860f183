-- ===== src/Initrd.antt =====
-- src/fs/initrd.c and src/include/initrd.h: the initial ramdisk, a file system that is read only. The
-- nodes are structs in memory; strcpy and strcmp take fuel.
pub mod Bytes
pub mod Lookup
pub mod Entries
mod Tests
use studix.Base.{
  ℕ, zero, suc, ◌+◌, ◌-◌, ◌*◌, Bool, true, false, not, ◌&&◌, ℤ, pos, negsuc, Result, ok, stop,
  ◌>>=◌, ltb, leb, ◌==◌, if◌then◌else◌, add32, sub32, mul32,
}
use studix.Memory.{Memory, load8, load32, store32}
use studix.Strings.{memcpy, strcpy, strcmp}
use studix.Kernel.{Kernel}
use studix.Kmalloc.{HeapAlloc, kmalloc}
use studix.Vfs.{sizeof_fs_node, dir_node, file_node, entry_inode}
use studix.Vfs.FsNode

abbrev pub max_files : ℕ
max_files = 64

-- The fields of a File_header, whose name stands at its start.
abbrev pub header_start : ℕ → ℕ
header_start header = header + 128

abbrev pub header_length : ℕ → ℕ
header_length header = header + 132

abbrev pub sizeof_file_header : ℕ
sizeof_file_header = 136

-- The globals of initrd.c; `dir_entry` is the address of the struct.
pub record Initrd : Type 0 where
  pub kernel : Kernel
  pub initrd_start : ℕ
  pub file_headers : ℕ
  pub initrd_root : ℕ
  pub initrd_dev : ℕ
  pub root_nodes : ℕ
  pub num_root_nodes : ℕ
  pub dir_entry : ℕ

-- What the linker decides: where the literals and the functions lie.
pub record Linked : Type 0 where
  pub dev_text : ℕ
  pub initrd_text : ℕ
  pub initrd_read_fn : ℕ
  pub initrd_read_dir_fn : ℕ
  pub initrd_find_dir_fn : ℕ

abbrev pub memory : Initrd → Memory
memory s = s.kernel.mem

abbrev pub with_memory : Initrd → Memory → Initrd
with_memory s m = record s { kernel = record (s.kernel) { mem = m } }

-- &file_headers[i] and &root_nodes[i]
abbrev pub file_header : Initrd → ℕ → ℕ
file_header s i = add32 s.file_headers (mul32 sizeof_file_header i)

abbrev pub root_node : Initrd → ℕ → ℕ
root_node s i = add32 s.root_nodes (mul32 sizeof_fs_node i)

-- What initrd_read does with the start and the length that it has found.
unfoldable pub copy_out : Initrd → (start length offset size buf : ℕ) → Initrd × ℕ
copy_out s start length offset size buf =
    let size' = if ltb length (add32 offset size) then sub32 length offset else size in
    if ltb length offset
    then (s, 0)
    else (with_memory s (memcpy (memory s) buf (add32 start offset) size'), size')

unfoldable pub initrd_read : (node offset size buf : ℕ) → Initrd → Initrd × ℕ
unfolding copy_out
initrd_read node offset size buf s =
    let header = file_header s (load32 (memory s) (FsNode.inode node)) in
    copy_out s (load32 (memory s) (header_start header)) (load32 (memory s) (header_length header))
      offset size buf

unfoldable pub initrd_read_dir : (f : ℕ) → Linked → (node index : ℕ) → Initrd → Result (Initrd × ℕ)
initrd_read_dir f linked node index s =
    let i = sub32 index 1 in
    let entry : Memory → ℕ → Result (Initrd × ℕ) =
      λ m inode. ok (with_memory s (store32 m (entry_inode s.dir_entry) inode), s.dir_entry) in
    if (node == s.initrd_root) && (index == 0)
    then (strcpy f (memory s) s.dir_entry linked.dev_text >>= λ m. entry m 0)
    else if leb s.num_root_nodes i
    then ok (s, 0)
    else strcpy f (memory s) s.dir_entry (root_node s i) >>= λ m.
        entry m (load32 m (FsNode.inode (root_node s i)))

-- !d
abbrev pub is_zero : ℤ → Bool
is_zero (pos n) = n == 0
is_zero (negsuc n) = false

-- !strcmp(a, b)
unfoldable pub same_name : (f : ℕ) → Memory → (a b : ℕ) → Result Bool
same_name f m a b = do d ← strcmp f m a b; ok (is_zero d)

-- The loop of initrd_find_dir, from node i on.
unfoldable pub find_node_loop : (f : ℕ) → Initrd → (left i name : ℕ) → Result ℕ
unfolding same_name
find_node_loop f s zero i name = ok 0
find_node_loop f s (suc left) i name =
    let rest = find_node_loop f s left (i + 1) name in
    same_name f (memory s) name (root_node s i) >>= λ same.
    if same then ok (root_node s i) else rest

unfoldable pub initrd_find_dir : (f : ℕ) → Linked → (node name : ℕ) → Initrd → Result ℕ
initrd_find_dir f linked node name s = do
  is_dev ← (if node == s.initrd_root then same_name f (memory s) name linked.dev_text else ok false)
  if is_dev then ok s.initrd_dev else find_node_loop f s s.num_root_nodes 0 name

-- The fields of a node that is a directory of the ramdisk, in the order of the assignments.
unfoldable pub set_dir_node : Linked → (node : ℕ) → Memory → Memory
set_dir_node linked node m0 =
    let m1 = store32 m0 (FsNode.permissions node) 0 in
    let m2 = store32 m1 (FsNode.uid node) 0 in
    let m3 = store32 m2 (FsNode.gid node) 0 in
    let m4 = store32 m3 (FsNode.inode node) 0 in
    let m5 = store32 m4 (FsNode.length node) 0 in
    let m6 = store32 m5 (FsNode.type node) dir_node in
    let m7 = store32 m6 (FsNode.read node) 0 in
    let m8 = store32 m7 (FsNode.write node) 0 in
    let m9 = store32 m8 (FsNode.open_fn node) 0 in
    let m10 = store32 m9 (FsNode.close node) 0 in
    let m11 = store32 m10 (FsNode.read_dir node) linked.initrd_read_dir_fn in
    let m12 = store32 m11 (FsNode.find_dir node) linked.initrd_find_dir_fn in
    let m13 = store32 m12 (FsNode.node_ptr node) 0 in store32 m13 (FsNode.impl node) 0

-- The fields of a node that is a file; its node_ptr is not set.
unfoldable pub set_file_node : Linked → (node i length : ℕ) → Memory → Memory
set_file_node linked node i length m0 =
    let m1 = store32 m0 (FsNode.permissions node) 0 in
    let m2 = store32 m1 (FsNode.uid node) 0 in
    let m3 = store32 m2 (FsNode.gid node) 0 in
    let m4 = store32 m3 (FsNode.length node) length in
    let m5 = store32 m4 (FsNode.inode node) i in
    let m6 = store32 m5 (FsNode.type node) file_node in
    let m7 = store32 m6 (FsNode.read node) linked.initrd_read_fn in
    let m8 = store32 m7 (FsNode.write node) 0 in
    let m9 = store32 m8 (FsNode.open_fn node) 0 in
    let m10 = store32 m9 (FsNode.close node) 0 in
    let m11 = store32 m10 (FsNode.read_dir node) 0 in
    let m12 = store32 m11 (FsNode.find_dir node) 0 in store32 m12 (FsNode.impl node) 0

-- One file: its start becomes an address, and its node is filled in.
unfoldable pub init_file : (f : ℕ) → Linked → Initrd → (i : ℕ) → Result Initrd
unfolding set_file_node
init_file f linked s i = do
  let header = file_header s i
  let node = root_node s i
  let start = load32 (memory s) (header_start header)
  let m = store32 (memory s) (header_start header) (add32 start s.initrd_start)
  m' ← strcpy f m node header
  ok (with_memory s (set_file_node linked node i (load32 m' (header_length header)) m'))

unfoldable pub init_files : (f : ℕ) → Linked → (left i : ℕ) → Initrd → Result Initrd
unfolding init_file
init_files f linked zero i s = ok s
init_files f linked (suc left) i s =
    init_file f linked s i >>= λ s'. init_files f linked left (i + 1) s'

-- The second call of strcpy goes to the root, where the first has put its name.
unfoldable pub init_initrd :
    (f : ℕ) → HeapAlloc → Linked → (location : ℕ) → Initrd → Result (Initrd × ℕ)
unfolding set_dir_node init_files
init_initrd f alloc linked location s = do
  (k1, root) ← kmalloc alloc s.kernel sizeof_fs_node
  m1 ← strcpy f k1.mem root linked.initrd_text
  let k2 = record k1 { mem = set_dir_node linked root m1 }
  (k3, dev) ← kmalloc alloc k2 sizeof_fs_node
  m2 ← strcpy f k3.mem root linked.dev_text
  let k4 = record k3 { mem = set_dir_node linked dev m2 }
  let num_files = load8 k4.mem location
  (k5, nodes) ← kmalloc alloc k4 (mul32 sizeof_fs_node num_files)
  s' ← init_files f linked num_files 0 (record {
    kernel = k5;
    initrd_start = location;
    file_headers = add32 location 1;
    initrd_root = root;
    initrd_dev = dev;
    root_nodes = nodes;
    num_root_nodes = num_files;
    dir_entry = s.dir_entry;
  })
  ok (s', root)

-- ===== src/Vfs.antt =====
-- src/fs/vfs.c and src/include/vfs.h: the nodes of the virtual file system, which are structs in
-- memory, and the calls of the functions that a node leads to. What a function at an address does
-- is an argument.
pub mod FsNode
use studix.Base.{ℕ, ◌+◌, Bool, Result, ok, not, ◌&&◌, ◌==◌, if◌then◌else◌, bit_and}
use studix.Memory.{Memory, load32}
use studix.Vfs.FsNode

abbrev pub max_name_length : ℕ
max_name_length = 128

-- Node_type
abbrev pub file_node : ℕ
file_node = 1

abbrev pub dir_node : ℕ
dir_node = 2

abbrev pub char_dev_node : ℕ
char_dev_node = 3

abbrev pub block_dev_node : ℕ
block_dev_node = 4

abbrev pub pipe_node : ℕ
pipe_node = 5

abbrev pub symlink_node : ℕ
symlink_node = 6

abbrev pub mountpoint_node : ℕ
mountpoint_node = 8

abbrev pub sizeof_fs_node : ℕ
sizeof_fs_node = 184

-- A Dir_entry: its name at its start, and the inode behind it.
abbrev pub entry_inode : ℕ → ℕ
entry_inode entry = entry + 128

abbrev pub sizeof_dir_entry : ℕ
sizeof_dir_entry = 132

-- `S` is the state of the kernel, with the memory that holds the nodes; `call` runs the function at
-- an address.
module _ (S : Type 0) (mem : S → Memory) where
  -- Read and Write: the node, the offset, the size and the buffer.
  abbrev pub ReadFn : Type 0
  ReadFn = (node offset size buf : ℕ) → S → Result (S × ℕ)

  abbrev pub OpenFn : Type 0
  OpenFn = (node : ℕ) → S → Result S

  abbrev pub ReadDirFn : Type 0
  ReadDirFn = (node index : ℕ) → S → Result (S × ℕ)

  abbrev pub FindDirFn : Type 0
  FindDirFn = (node name : ℕ) → S → Result (S × ℕ)

  unfoldable pub read_fs_node : (call : ℕ → ReadFn) → ReadFn
  read_fs_node call node offset size buf s =
      let read = load32 (mem s) (FsNode.read node) in
      if not (read == 0) then call read node offset size buf s else ok (s, 0)

  unfoldable pub write_fs_node : (call : ℕ → ReadFn) → ReadFn
  write_fs_node call node offset size buf s =
      let write = load32 (mem s) (FsNode.write node) in
      if not (write == 0) then call write node offset size buf s else ok (s, 0)

  unfoldable pub open_fs_node :
      (call : ℕ → OpenFn) → (node : ℕ) → (read write : Bool) → S → Result S
  open_fs_node call node read write s =
      let fn = load32 (mem s) (FsNode.open_fn node) in
      if not (fn == 0) then call fn node s else ok s

  unfoldable pub close_fs_node : (call : ℕ → OpenFn) → (node : ℕ) → S → Result S
  close_fs_node call node s =
      let close = load32 (mem s) (FsNode.close node) in
      if not (close == 0) then call close node s else ok s

  -- The test that lets a node be read as a directory.
  abbrev pub is_dir : S → ℕ → Bool
  is_dir s node = not (bit_and (load32 (mem s) (FsNode.type node)) dir_node == 0)

  unfoldable pub read_dir_node : (call : ℕ → ReadDirFn) → ReadDirFn
  read_dir_node call node index s =
      let read_dir = load32 (mem s) (FsNode.read_dir node) in
      if is_dir s node && not (read_dir == 0) then call read_dir node index s else ok (s, 0)

  unfoldable pub find_dir_node : (call : ℕ → FindDirFn) → FindDirFn
  find_dir_node call node name s =
      let find_dir = load32 (mem s) (FsNode.find_dir node) in
      if is_dir s node && not (find_dir == 0) then call find_dir node name s else ok (s, 0)

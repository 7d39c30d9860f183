-- ===== src/Vfs/FsNode.antt =====
-- src/include/vfs.h: the addresses of the fields of an FS_node, whose name stands at its start.
use studix.Base.{ℕ, ◌+◌}

abbrev pub length : ℕ → ℕ
length node = node + 128

abbrev pub inode : ℕ → ℕ
inode node = node + 132

abbrev pub permissions : ℕ → ℕ
permissions node = node + 136

abbrev pub uid : ℕ → ℕ
uid node = node + 140

abbrev pub gid : ℕ → ℕ
gid node = node + 144

abbrev pub type : ℕ → ℕ
type node = node + 148

abbrev pub node_ptr : ℕ → ℕ
node_ptr node = node + 152

abbrev pub impl : ℕ → ℕ
impl node = node + 156

abbrev pub read : ℕ → ℕ
read node = node + 160

abbrev pub write : ℕ → ℕ
write node = node + 164

abbrev pub open_fn : ℕ → ℕ
open_fn node = node + 168

abbrev pub close : ℕ → ℕ
close node = node + 172

abbrev pub read_dir : ℕ → ℕ
read_dir node = node + 176

abbrev pub find_dir : ℕ → ℕ
find_dir node = node + 180

-- ===== src/Ext2Vfs/Mount.antt =====
-- What ext2_mount leaves in memory.
use studix.Base.{
  ℕ, ◌+◌, ◌≤◌, ◌<◌, ◌≡◌, ◌≢◌, ◌⊎◌, inl, refl, ap, ◌∙◌, true, false, arith, List, [], ◌∷◌, ok, stop,
  assertion, Returns, ◌==◌, u8, u32, bit_and, bit_or, bit_or-lt,
}
use studix.Memory.{Memory, load8, load32, store8, store32}
use studix.Memory.Fields.{store_fields, load32-store_fields, store_fields_outside}
use studix.Memory.Laws.{
  load32-same, load32-lt, store32_outside, load32-store32, load32-store32-Apart,
}
use studix.Kernel.{Kernel}
use studix.Kmalloc.{HeapAlloc, kmalloc}
use studix.Vfs.{sizeof_fs_node, dir_node, mountpoint_node}
use studix.Vfs.FsNode
use studix.Ext2.{root_inode}
use studix.Ext2Vfs.{Linked, set_root_node, ext2_mount}

store8_here : (m : Memory) (a v : ℕ) → store8 m a v a ≡ u8 v
unfolding store8
store8_here m a v = ground arith

module _ (linked : Linked) (node : ℕ) where
  -- The words of the root, counted from its start.
  abbrev root_fields : List (ℕ × ℕ)
  root_fields =
      (34, 0)
      ∷ (35, 0)
      ∷ (36, 0)
      ∷ (33, root_inode)
      ∷ (32, 0)
      ∷ (37, dir_node)
      ∷ (40, linked.ext2_vfs_read_fn)
      ∷ (41, linked.ext2_vfs_write_fn)
      ∷ (42, linked.ext2_vfs_open_fn)
      ∷ (43, linked.ext2_vfs_close_fn)
      ∷ (44, linked.ext2_vfs_read_dir_fn)
      ∷ (45, linked.ext2_vfs_find_dir_fn)
      ∷ (38, 0)
      ∷ (39, 0)
      ∷ []

  set_root_node-store_fields :
      (m : Memory) → set_root_node linked node m ≡ store_fields node root_fields (store8 m node 0)
  unfolding set_root_node
  set_root_node-store_fields m = refl

  -- They lie behind the name.
  set_root_node_outside :
      (m : Memory) (x : ℕ) → x < node ⊎ (node + 184 ≤ x) → set_root_node linked node m x ≡ m x
  unfolding store8
  set_root_node_outside m x away =
      let other : (x == node) ≡ false = ground arith in
      ap (λ m'. m' x) (set_root_node-store_fields m)
      ∙ store_fields_outside node root_fields (store8 m node 0) 32 46 x refl (omega arith)
      ∙ rw other

  -- The root of the mounted file system: an empty name, the inode of the root, a directory, which leads
  -- to the functions of ext2 and to nothing else.
  abbrev pub IsRoot : Memory → Type 0
  IsRoot m =
      (load8 m node ≡ 0)
      × (load32 m (FsNode.inode node) ≡ root_inode)
      × (load32 m (FsNode.length node) ≡ 0)
      × (load32 m (FsNode.type node) ≡ dir_node)
      × (load32 m (FsNode.read node) ≡ u32 (linked.ext2_vfs_read_fn))
      × (load32 m (FsNode.write node) ≡ u32 (linked.ext2_vfs_write_fn))
      × (load32 m (FsNode.open_fn node) ≡ u32 (linked.ext2_vfs_open_fn))
      × (load32 m (FsNode.close node) ≡ u32 (linked.ext2_vfs_close_fn))
      × (load32 m (FsNode.read_dir node) ≡ u32 (linked.ext2_vfs_read_dir_fn))
      × (load32 m (FsNode.find_dir node) ≡ u32 (linked.ext2_vfs_find_dir_fn))
      × (load32 m (FsNode.node_ptr node) ≡ 0)
      × (load32 m (FsNode.impl node) ≡ 0)

  set_root_node-IsRoot : (m : Memory) → IsRoot (set_root_node linked node m)
  set_root_node-IsRoot m =
      let m' = store8 m node 0 in
      let at = λ (q : ℕ). load32-store_fields node root_fields m' q in
      let name : load8 (store_fields node root_fields m') node ≡ 0 = ap u8 (
        store_fields_outside node root_fields m' 32 46 node refl (inl (omega arith))
        ∙ store8_here m node 0) in
      rw (set_root_node-store_fields m)
        (name, at 33, at 32, at 37, at 40, at 41, at 42, at 43, at 44, at 45, at 38, at 39)

  IsRoot-same :
      (m m' : Memory) → ((x : ℕ) → node ≤ x → x < node + 184 → m' x ≡ m x) → IsRoot m → IsRoot m'
  IsRoot-same m m' same
        (name, inode, length, type, read, write, open_, close, read_dir, find_dir, ptr, impl) =
      let keep = λ (o : ℕ) (fits : o + 4 ≤ 184).
        load32-same m m' (node + o) (λ x lo hi. same x (omega arith) (omega arith)) in
      (
        ap u8 (same node (omega arith) (omega arith)) ∙ name,
        keep 132 (omega arith) ∙ inode,
        keep 128 (omega arith) ∙ length,
        keep 148 (omega arith) ∙ type,
        keep 160 (omega arith) ∙ read,
        keep 164 (omega arith) ∙ write,
        keep 168 (omega arith) ∙ open_,
        keep 172 (omega arith) ∙ close,
        keep 176 (omega arith) ∙ read_dir,
        keep 180 (omega arith) ∙ find_dir,
        keep 152 (omega arith) ∙ ptr,
        keep 156 (omega arith) ∙ impl,
      )

-- Two nodes that share no byte.
abbrev pub ApartNodes : ℕ → ℕ → Type 0
ApartNodes a b = (a + 184 ≤ b) ⊎ (b + 184 ≤ a)

-- A directory at which nothing is mounted.
abbrev pub IsFree : Memory → ℕ → Type 0
IsFree m node =
    (load32 m (FsNode.node_ptr node) ≡ 0)
    × (bit_and (load32 m (FsNode.type node)) mountpoint_node ≡ 0)
    × (bit_and (load32 m (FsNode.type node)) dir_node ≢ 0)

-- Mounting at a directory at which nothing is mounted returns: the node that is allocated is the root of
-- ext2, the mountpoint leads to it and keeps its type with the mark of a mountpoint, and mounting there
-- again stops with the assertion. The allocation leaves the mountpoint as it is, and gives a node that
-- is not at 0 and shares no byte with it.
pub ext2_mount-IsRoot :
    (alloc : HeapAlloc) (linked : Linked) (mountpoint : ℕ) (k k1 : Kernel) (root : ℕ)
    → IsFree (k.mem) mountpoint
    → kmalloc alloc k sizeof_fs_node ≡ ok (k1, root)
    → root ≢ 0
    → root < 4294967296
    → ApartNodes mountpoint root
    → ((x : ℕ) → mountpoint ≤ x → x < mountpoint + 184 → k1.mem x ≡ k.mem x)
    → Returns
        (λ k'.
          IsRoot linked root (k'.mem)
          × (load32 (k'.mem) (FsNode.node_ptr mountpoint) ≡ root)
          × (load32 (k'.mem) (FsNode.type mountpoint)
              ≡ bit_or (load32 (k.mem) (FsNode.type mountpoint)) mountpoint_node)
          × (ext2_mount alloc linked mountpoint k' ≡ stop assertion))
        (ext2_mount alloc linked mountpoint k)
unfolding ext2_mount
ext2_mount-IsRoot alloc linked mountpoint k k1 root (free, unmarked, dir) allocated nonzero low
      apart kept =
    let m1 = set_root_node linked root (k1.mem) in
    let old = load32 (k.mem) (FsNode.type mountpoint) in
    let type_kept : load32 m1 (FsNode.type mountpoint) ≡ old =
      load32-same (k.mem) m1 (FsNode.type mountpoint) λ x lo hi.
        set_root_node_outside linked root (k1.mem) x (omega arith)
        ∙ kept x (omega arith) (omega arith) in
    let small =
      bit_or-lt 32 old mountpoint_node (load32-lt (k.mem) (FsNode.type mountpoint)) (omega arith) in
    let m2 = store32 m1 (FsNode.type mountpoint) (bit_or old mountpoint_node) in
    let m3 = store32 m2 (FsNode.node_ptr mountpoint) root in
    let ptr = load32-store32 m2 (FsNode.node_ptr mountpoint) root low in
    let c0 : (load32 (k.mem) (FsNode.node_ptr mountpoint) == 0) ≡ true = ground arith in
    let c1 : (bit_and old mountpoint_node == 0) ≡ true = ground arith in
    let c2 : (bit_and old dir_node == 0) ≡ false = ground (arith, dir) in
    let taken : (root == 0) ≡ false = ground (arith, nonzero) in
    rw (c0, c1, c2, allocated, type_kept)
      (
        IsRoot-same linked root m1 m3
            (λ x lo hi.
              store32_outside m2 (FsNode.node_ptr mountpoint) root x (omega arith)
              ∙ store32_outside m1 (FsNode.type mountpoint) (bit_or old mountpoint_node) x
                  (omega arith))
            (set_root_node-IsRoot linked root (k1.mem)),
        ptr,
        load32-store32-Apart m2 (FsNode.node_ptr mountpoint) root (FsNode.type mountpoint)
              (omega arith)
            ∙ load32-store32 m1 (FsNode.type mountpoint) (bit_or old mountpoint_node) small,
        rw (ptr, taken),
      )

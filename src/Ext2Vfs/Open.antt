-- ===== src/Ext2Vfs/Open.antt =====
-- Opening a node of an ext2 file, and reading the file through it.
use studix.Base.{
  ℕ, ◌+◌, ◌*◌, ◌≤◌, ◌<◌, ◌≡◌, ◌≢◌, refl, ◌∙◌, true, false, arith, some, List, ◌∷◌, length, ok,
  ◌>>=◌, Returns, Returns-mono, Returns-bind, ◌==◌,
}
use studix.Memory.{load32, store32}
use studix.Memory.Laws.{load32-same, load32-store32, load32-store32-Apart}
use studix.Strings.Text.{IsText}
use studix.Kernel.{Kernel}
use studix.Kmalloc.{HeapAlloc, kmalloc}
use studix.Vfs.{open_fs_node}
use studix.Vfs.FsNode
use studix.Ext2.{Buffer, bytes, inode_size, read_inode, ext2_open_inode, ext2_look_up_path}
use studix.Ext2.Read.{DirectOk, file_bytes}
use studix.Ext2.Inodes.{ext2_open_inode-IsOpen}
use studix.Ext2Vfs.{Mounted, Linked, memory, ext2_vfs_open, sizeof_ext2_file}
use studix.Ext2Vfs.Buffers.{files-put_file}
use studix.Ext2Vfs.Text.{text_at-IsText}
use studix.Ext2Vfs.Stream.{call_open, read_pieces, total, AwayFrom, Reading, read_pieces-file_bytes}

module _ (f : ℕ) (alloc : HeapAlloc) (linked : Linked) (linked_read : linked.ext2_vfs_read_fn ≢ 0)
    (linked_open : linked.ext2_vfs_open_fn ≢ 0) (inode : Buffer) (node : ℕ) where
  -- A node whose functions are those of ext2, with the path xs for its name.
  abbrev pub Named : List ℕ → Mounted → Type 0
  Named xs s =
      IsText (memory s) node xs
      × (load32 (memory s) (FsNode.open_fn node) ≡ linked.ext2_vfs_open_fn)
      × (load32 (memory s) (FsNode.read node) ≡ linked.ext2_vfs_read_fn)

  open_fs_node-Reading :
      (s : Mounted) (xs : List ℕ) (num : ℕ) (k k' : Kernel) (file block : ℕ)
      → Named xs s
      → length xs < f
      → ext2_look_up_path f (s.fs) xs ≡ ok num
      → num ≢ 0
      → num < 4294967296
      → read_inode (s.fs) num ≡ ok inode
      → DirectOk (s.fs) inode
      → kmalloc alloc
          (record (s.kernel) { mem = store32 (memory s) (FsNode.inode node) num })
          sizeof_ext2_file
        ≡ ok (k, file)
      → kmalloc alloc k (s.fs).block_size ≡ ok (k', block)
      → file < 4294967296
      → ((x : ℕ)
          → node ≤ x
          → x < node + 184
          → (k.mem x ≡ store32 (memory s) (FsNode.inode node) num x) × (k'.mem x ≡ k.mem x))
      → Returns
          (Reading linked linked_read inode node file block (s.fs) 0)
          (open_fs_node Mounted memory (call_open f alloc linked) node true false s)
  unfolding open_fs_node ext2_vfs_open
  open_fs_node-Reading s xs num k k' file block (text, opens, reads) fuel path nonzero small found
        direct allocated buffered low kept =
      let set : (linked.ext2_vfs_open_fn == 0) ≡ false = ground (arith, linked_open) in
      let this : (linked.ext2_vfs_open_fn == linked.ext2_vfs_open_fn) ≡ true = ground arith in
      let there : (num == 0) ≡ false = ground (arith, nonzero) in
      let named = text_at-IsText f (memory s) node xs text fuel in
      let stored : load32 k.mem (FsNode.inode node) ≡ num =
        load32-same (store32 (memory s) (FsNode.inode node) num) k.mem (FsNode.inode node)
          (λ x lo hi. (kept x (omega arith) (omega arith)).0)
        ∙ load32-store32 (memory s) (FsNode.inode node) num small in
      let read_kept : load32 k'.mem (FsNode.read node) ≡ linked.ext2_vfs_read_fn =
        load32-same (store32 (memory s) (FsNode.inode node) num) k'.mem (FsNode.read node)
          (λ x lo hi. let (first, second) = kept x (omega arith) (omega arith) in second ∙ first)
        ∙ load32-store32-Apart (memory s) (FsNode.inode node) num (FsNode.read node) (omega arith)
        ∙ reads in
      let here : (file == file) ≡ true = ground arith in
      rw (opens, set, this, named, path, there, allocated, stored)
        (Returns-bind _ (ext2_open_inode (s.fs) num) _
          (ext2_open_inode-IsOpen (s.fs) num inode found direct)
          λ opened (open_, start). rw buffered (
            opened,
            load32-store32 k'.mem (FsNode.impl node) file low,
            rw here refl,
            files-put_file s file (some opened),
            open_,
            start,
            load32-store32-Apart k'.mem (FsNode.impl node) file (FsNode.read node) (omega arith)
                ∙ read_kept,
            refl,
          ))

  -- A node whose name is a path to an inode is opened through the virtual file system, and the file is
  -- then read piece by piece: that returns, and gives the bytes of the file from its start, in order.
  -- The inode can be read, and so can its direct blocks; the allocations, of the Ext2_file and of its
  -- buffer for a block, leave the node as it is; the node, the Ext2_file and its buffer for a block share
  -- no byte with each other, nor with a buffer that is read into; and the pieces end with the file or
  -- before, and before the end of the last direct block.
  pub read_pieces-open_fs_node :
      (s : Mounted) (xs : List ℕ) (num : ℕ) (k k' : Kernel) (file block : ℕ) (pieces : List (ℕ × ℕ))
      → Named xs s
      → length xs < f
      → ext2_look_up_path f (s.fs) xs ≡ ok num
      → num ≢ 0
      → num < 4294967296
      → read_inode (s.fs) num ≡ ok inode
      → DirectOk (s.fs) inode
      → kmalloc alloc
          (record (s.kernel) { mem = store32 (memory s) (FsNode.inode node) num })
          sizeof_ext2_file
        ≡ ok (k, file)
      → kmalloc alloc k (s.fs).block_size ≡ ok (k', block)
      → file < 4294967296
      → ((x : ℕ)
          → node ≤ x
          → x < node + 184
          → (k.mem x ≡ store32 (memory s) (FsNode.inode node) num x) × (k'.mem x ≡ k.mem x))
      → total pieces ≤ inode_size inode
      → total pieces < 12 * (s.fs).block_size
      → AwayFrom node 184 ((144, file) ∷ ((s.fs).block_size, block) ∷ pieces)
      → AwayFrom file 144 (((s.fs).block_size, block) ∷ pieces)
      → AwayFrom block (s.fs).block_size pieces
      → Returns
          (λ (s', out). out ≡ file_bytes (s.fs) inode 0 (total pieces))
          (open_fs_node Mounted memory (call_open f alloc linked) node true false s
            >>= read_pieces linked node 0 pieces)
  read_pieces-open_fs_node s xs num k k' file block pieces named fuel path nonzero small found
        direct allocated buffered low kept fits ends (node_file, (node_block, away))
        (file_block, away_file) away_block =
      Returns-bind _ (open_fs_node Mounted memory (call_open f alloc linked) node true false s) _
        (open_fs_node-Reading s xs num k k' file block named fuel path nonzero small found direct
          allocated buffered low kept)
        λ s' reading.
          Returns-mono (read_pieces linked node 0 pieces s') (λ (s'', out) (bytes, after). bytes)
            (read_pieces-file_bytes linked linked_read inode node file block (s.fs) 0 pieces s'
              direct reading (omega (arith, fits)) (omega (arith, ends)) away away_file away_block)

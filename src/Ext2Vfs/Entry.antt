-- ===== src/Ext2Vfs/Entry.antt =====
-- What the listing of an ext2 directory returns.
use studix.Base.{
  ℕ, ◌+◌, ◌-◌, ◌*◌, ◌≤◌, ◌<◌, ◌≡◌, ◌⊎◌, refl, ap, ap₂, subst, ◌∙◌, true, false, arith, none, some,
  List, [], length, ok, stop, undefined, Returns, Returns-mono, ◌>>=◌, ◌==◌, if◌then◌else◌, u8,
}
use studix.Memory.{Memory, load32, store8, store32}
use studix.Memory.Laws.{load32-same, store32_outside, load32-store32, load32-store32-Apart}
use studix.Strings.Bytes.{within}
use studix.Kernel.{Kernel}
use studix.Kmalloc.{HeapAlloc, kmalloc}
use studix.Vfs.{sizeof_dir_entry, entry_inode}
use studix.Vfs.FsNode
use studix.Ext2.{File, Dirent, ext2_next_dirent, ext2_look_up_path, text_of, byte_at}
use studix.Ext2Vfs.{Mounted, Linked, memory, put_name, ext2_vfs_open, ext2_vfs_read_dir}
use studix.Ext2Vfs.Buffers.{files-put_file}
use studix.Ext2Vfs.Text.{text_at-IsText, store_text_lem}
use studix.Ext2Vfs.Mount.{IsRoot}

listed :
    (alloc : HeapAlloc) (node index : ℕ) (s : Mounted)
    → load32 (memory s) (FsNode.impl node) ≡ 0
    → s.files 0 ≡ none
    → ext2_vfs_read_dir alloc node index s ≡ stop undefined
unfolding ext2_vfs_read_dir
listed alloc node index s null nothing = rw (ext2_vfs_read_dir, null, nothing)

-- The root has no name: opening it loses its inode and opens nothing, and listing it then follows
-- the null pointer that its impl still is.
pub ext2_vfs_open_root :
    (f : ℕ) (alloc : HeapAlloc) (linked : Linked) (root index : ℕ) (s : Mounted)
    → IsRoot linked root (memory s)
    → 0 < f
    → s.files 0 ≡ none
    → Returns (λ s'. load32 (memory s') (FsNode.inode root) ≡ 0) (ext2_vfs_open f alloc root s)
      × ((ext2_vfs_open f alloc root s >>= ext2_vfs_read_dir alloc root index) ≡ stop undefined)
unfolding ext2_vfs_open ext2_look_up_path
ext2_vfs_open_root f alloc linked root index s
      (name, inode, length, type, read, write, open_, close, read_dir, find_dir, ptr, impl) fuel
      nothing =
    let path = text_at-IsText f (memory s) root [] name fuel in
    let impl_kept =
      load32-store32-Apart (memory s) (FsNode.inode root) 0 (FsNode.impl root) (omega arith)
      ∙ impl in
    rw path (
      load32-store32 (memory s) (FsNode.inode root) 0 (omega arith),
      listed alloc root index _ impl_kept nothing,
    )

-- put_name writes the bytes of the text, a 0 one byte behind their end, and no other byte.
put_name_lem :
    (m : Memory) (entry : ℕ) (text : List ℕ) (x : ℕ)
    → put_name entry text m x ≡ (
        if x == entry + length text + 1
        then 0
        else if within entry (length text) x
        then u8 (byte_at text (x - entry))
        else m x)
unfolding put_name store8
put_name_lem m entry text x = ground (arith, store_text_lem m entry text x)

put_name_byte :
    (m : Memory) (entry : ℕ) (text : List ℕ) (j : ℕ)
    → j < length text
    → put_name entry text m (entry + j) ≡ u8 (byte_at text j)
put_name_byte m entry text j lt =
    let end : (entry + j == entry + length text + 1) ≡ false = ground arith in
    let inside : within entry (length text) (entry + j) ≡ true = ground arith in
    let at : entry + j - entry ≡ j = omega arith in
    put_name_lem m entry text (entry + j) ∙ rw (end, inside, at)

put_name_outside :
    (m : Memory) (entry : ℕ) (text : List ℕ) (x : ℕ)
    → x ≡ entry + length text ⊎ (entry + length text + 2 ≤ x)
    → put_name entry text m x ≡ m x
put_name_outside m entry text x away =
    let end : (x == entry + length text + 1) ≡ false = ground arith in
    let inside : within entry (length text) x ≡ false = ground arith in
    put_name_lem m entry text x ∙ rw (end, inside)

long_name :
    (m : Memory) (entry : ℕ) (text : List ℕ)
    → 132 ≤ length text
    → load32 (put_name entry text m) (entry_inode entry)
      ≡ u8 (byte_at text 128)
        + 256 * u8 (byte_at text 129)
        + 65536 * u8 (byte_at text 130)
        + 16777216 * u8 (byte_at text 131)
unfolding load32
long_name m entry text long =
    let inode_byte = λ (o : ℕ) (lt : o < 4).
      subst (λ x. put_name entry text m x ≡ u8 (byte_at text (128 + o)))
        (let e : entry + (128 + o) ≡ entry_inode entry + o = omega arith in e)
        (put_name_byte m entry text (128 + o) (omega arith)) in
    let zeroth : entry_inode entry + 0 ≡ entry_inode entry = omega arith in
    omega (
      arith,
      ap (put_name entry text m) zeroth,
      inode_byte 0 (omega arith),
      inode_byte 1 (omega arith),
      inode_byte 2 (omega arith),
      inode_byte 3 (omega arith),
    )

module _ (alloc : HeapAlloc) (node index : ℕ) (s : Mounted) (file file' : File) (d : Dirent)
    (k : Kernel) (dir : ℕ) (leads : s.files (load32 (memory s) (FsNode.impl node)) ≡ some file)
    (next : ext2_next_dirent (s.fs) file ≡ ok (file', some d))
    (allocated : kmalloc alloc (s.kernel) sizeof_dir_entry ≡ ok (k, dir)) where
  -- What is returned, and the memory behind it.
  ext2_vfs_read_dir_lem :
      Returns
        (λ (s', entry).
          (entry ≡ dir)
          × (s'.files (load32 (memory s) (FsNode.impl node)) ≡ some file')
          × (memory s'
              ≡ put_name dir (text_of (d.name)) (store32 (k.mem) (entry_inode dir) (d.inode_num))))
        (ext2_vfs_read_dir alloc node index s)
  unfolding ext2_vfs_read_dir
  ext2_vfs_read_dir_lem =
      rw (ext2_vfs_read_dir, leads, next, allocated)
        (refl, files-put_file s (load32 (memory s) (FsNode.impl node)) (some file'), refl)

  -- An entry whose name has fewer than 127 bytes: the inode is that of the directory on the drive, the
  -- bytes of the name stand at its start with the byte behind them left as it was, and the file has
  -- moved on.
  pub ext2_vfs_read_dir-text_of :
      length (text_of (d.name)) < 127
      → d.inode_num < 4294967296
      → Returns
          (λ (s', entry).
            (entry ≡ dir)
            × (s'.files (load32 (memory s) (FsNode.impl node)) ≡ some file')
            × (load32 (memory s') (entry_inode entry) ≡ d.inode_num)
            × ((j : ℕ)
                → j < length (text_of (d.name))
                → memory s' (entry + j) ≡ u8 (byte_at (text_of (d.name)) j))
            × (memory s' (entry + length (text_of (d.name)))
                ≡ k.mem (dir + length (text_of (d.name)))))
          (ext2_vfs_read_dir alloc node index s)
  ext2_vfs_read_dir-text_of short small =
      Returns-mono (ext2_vfs_read_dir alloc node index s)
        (λ (s', entry) (at, moved, mem).
          let text = text_of (d.name) in
          let m = store32 (k.mem) (entry_inode dir) (d.inode_num) in
          (
            at,
            moved,
            ap₂ (λ m' e. load32 m' (entry_inode e)) mem at
                ∙ load32-same m (put_name dir text m) (entry_inode dir)
                    (λ x lo hi. put_name_outside m dir text x (omega arith))
                ∙ load32-store32 (k.mem) (entry_inode dir) (d.inode_num) small,
            λ j lt. ap₂ (λ m' e. m' (e + j)) mem at ∙ put_name_byte m dir text j lt,
            ap₂ (λ m' e. m' (e + length text)) mem at
                ∙ put_name_outside m dir text (dir + length text) (omega arith)
                ∙ store32_outside (k.mem) (entry_inode dir) (d.inode_num) (dir + length text)
                    (omega arith),
          ))
        ext2_vfs_read_dir_lem

  -- Where it has 132 bytes or more, they overwrite the inode.
  pub ext2_vfs_read_dir_long :
      132 ≤ length (text_of (d.name))
      → Returns
          (λ (s', entry).
            load32 (memory s') (entry_inode entry)
            ≡ u8 (byte_at (text_of (d.name)) 128)
              + 256 * u8 (byte_at (text_of (d.name)) 129)
              + 65536 * u8 (byte_at (text_of (d.name)) 130)
              + 16777216 * u8 (byte_at (text_of (d.name)) 131))
          (ext2_vfs_read_dir alloc node index s)
  ext2_vfs_read_dir_long long =
      Returns-mono (ext2_vfs_read_dir alloc node index s)
        (λ (s', entry) (at, moved, mem).
          let text = text_of (d.name) in
          let m = store32 (k.mem) (entry_inode dir) (d.inode_num) in
          ap₂ (λ m' e. load32 m' (entry_inode e)) mem at ∙ long_name m dir text long)
        ext2_vfs_read_dir_lem

-- ===== src/Ext2Vfs/Stream.antt =====
-- A file that is opened through the virtual file system and read piece by piece.
use studix.Base.{
  ℕ, ◌+◌, ◌-◌, ◌*◌, ◌≤◌, ◌<◌, ◌≡◌, ◌≢◌, ◌⊎◌, refl, sym, ap, ap₂, ◌∙◌, subst, true, false, arith,
  some, List, [], ◌∷◌, ◌++◌, length, Result, ok, stop, undefined, ◌>>=◌, Returns, Returns-bind, ltb,
  ◌==◌, if◌then◌else◌,
}
use studix.Memory.{load32}
use studix.Kmalloc.{HeapAlloc}
use studix.Vfs.{ReadFn, OpenFn, read_fs_node}
use studix.Vfs.FsNode
use studix.Ext2.{Buffer, Ext2, File, bytes, inode_size, ext2_read}
use studix.Ext2.Read.{
  IsOpen, DirectOk, file_bytes, length-file_bytes, file_bytes-append, ext2_read-file_bytes,
}
use studix.Ext2Vfs.{overlap, Mounted, Linked, memory, store_text, ext2_vfs_read, ext2_vfs_open}
use studix.Ext2Vfs.Buffers.{bytes-store_text, load32-store_text, files-put_file}

-- Running the function at an address.
abbrev pub call_read : Linked → ℕ → ReadFn Mounted memory
call_read linked fn =
    if fn == linked.ext2_vfs_read_fn then ext2_vfs_read else λ node offset size buf s.
    stop undefined

abbrev pub call_open : (f : ℕ) → HeapAlloc → Linked → ℕ → OpenFn Mounted memory
call_open f alloc linked fn =
    if fn == linked.ext2_vfs_open_fn then ext2_vfs_open f alloc else λ node s. stop undefined

-- Reading on from an offset into one buffer after the other, each with its size; the result is what
-- then stands in the buffers.
unfoldable pub read_pieces :
    Linked → (node offset : ℕ) → List (ℕ × ℕ) → Mounted → Result (Mounted × List ℕ)
read_pieces linked node offset [] s = ok (s, [])
read_pieces linked node offset ((size, buf) ∷ pieces) s =
    let rest = λ (offset' : ℕ) (s' : Mounted). read_pieces linked node offset' pieces s' in
    do
      (s', n) ← read_fs_node Mounted memory (call_read linked) node offset size buf s
      (s'', out) ← rest (offset + n) s'
      ok (s'', bytes (memory s') buf n ++ out)

abbrev pub total : List (ℕ × ℕ) → ℕ
total [] = 0
total ((size, buf) ∷ pieces) = size + total pieces

-- No buffer shares a byte with the n bytes from a on.
abbrev pub AwayFrom : (a n : ℕ) → List (ℕ × ℕ) → Type 0
AwayFrom a n [] = Unit
AwayFrom a n ((size, buf) ∷ pieces) = ((buf + size ≤ a) ⊎ (a + n ≤ buf)) × AwayFrom a n pieces

overlap_away : (a n b m : ℕ) → (a + n ≤ b) ⊎ (b + m ≤ a) → overlap a n b m ≡ false
unfolding overlap
overlap_away a n b m away = ground arith

module _ (linked : Linked) (linked_read : linked.ext2_vfs_read_fn ≢ 0) (inode : Buffer)
    (node impl block : ℕ) where
  dispatched :
      (offset size buf : ℕ) (s : Mounted)
      → load32 (memory s) (FsNode.read node) ≡ linked.ext2_vfs_read_fn
      → read_fs_node Mounted memory (call_read linked) node offset size buf s
        ≡ ext2_vfs_read node offset size buf s
  unfolding read_fs_node
  dispatched offset size buf s reads =
      let set : (linked.ext2_vfs_read_fn == 0) ≡ false = ground (arith, linked_read) in
      let this : (linked.ext2_vfs_read_fn == linked.ext2_vfs_read_fn) ≡ true = ground arith in
      rw (reads, set, this)

  -- The node leads to a file that is open at the offset, and is read by ext2_vfs_read.
  abbrev pub Reading : Ext2 → ℕ → Mounted → Type 0
  Reading fs offset s =
      (file : File) × (load32 (memory s) (FsNode.impl node) ≡ impl)
      × (s.blocks impl ≡ block)
      × (s.files impl ≡ some file)
      × IsOpen fs inode file
      × (file.pos ≡ offset)
      × (load32 (memory s) (FsNode.read node) ≡ linked.ext2_vfs_read_fn)
      × (s.fs ≡ fs)

  ext2_vfs_read-Reading :
      (offset size buf : ℕ) (s : Mounted)
      → DirectOk (s.fs) inode
      → Reading (s.fs) offset s
      → offset + size ≤ inode_size inode
      → offset + size < 12 * (s.fs).block_size
      → (buf + size ≤ node) ⊎ (node + 184 ≤ buf)
      → (buf + size ≤ impl) ⊎ (impl + 144 ≤ buf)
      → (buf + size ≤ block) ⊎ (block + (s.fs).block_size ≤ buf)
      → Returns
          (λ (s', n).
            (n ≡ size)
            × (bytes (memory s') buf size ≡ file_bytes (s.fs) inode offset size)
            × Reading (s.fs) (offset + size) s')
          (ext2_vfs_read node offset size buf s)
  unfolding ext2_vfs_read
  ext2_vfs_read-Reading offset size buf s direct (file, points, held, leads, open_, at, reads, same)
        fits ends away away_file away_block =
      let here : (offset == file.pos) ≡ true = ground arith in
      let whole : (if ltb (inode_size inode) (file.pos + size)
            then inode_size inode - file.pos
            else size)
          ≡ size =
        ground arith in
      let read =
        ext2_read-file_bytes (s.fs) inode direct file size open_ (omega arith) (omega arith) in
      rw (ext2_vfs_read, points, leads, here)
        (Returns-bind _ (ext2_read (s.fs) file size) _ read λ (file', out) (e, o, p).
          let read_out : out ≡ file_bytes (s.fs) inode offset size =
            e ∙ ap₂ (file_bytes (s.fs) inode) at whole in
          let long : length out ≡ size =
            ap length read_out ∙ length-file_bytes (s.fs) inode offset size in
          let impl_kept =
            load32-store_text (memory s) buf (FsNode.impl node) out (omega (arith, long)) in
          let read_kept =
            load32-store_text (memory s) buf (FsNode.read node) out (omega (arith, long)) in
          let off_file = overlap_away buf (length out) impl 144 (omega (arith, long)) in
          let off_block : overlap buf (length out) (s.blocks impl) (s.fs).block_size ≡ false =
            rw held (overlap_away buf (length out) block (s.fs).block_size (omega (arith, long))) in
          rw (points, off_file, off_block)
            (
              long,
              ap (λ xs. bytes (store_text (memory s) buf xs) buf size) read_out
                  ∙ bytes-store_text (memory s) (s.fs) inode buf offset size,
              (
                file',
                impl_kept ∙ points,
                held,
                files-put_file s impl (some file'),
                o,
                omega (arith, p, at, whole),
                read_kept ∙ reads,
                refl,
              ),
            ))

  piece :
      (fs : Ext2) (offset size buf : ℕ) (s : Mounted)
      → DirectOk fs inode
      → Reading fs offset s
      → offset + size ≤ inode_size inode
      → offset + size < 12 * fs.block_size
      → (buf + size ≤ node) ⊎ (node + 184 ≤ buf)
      → (buf + size ≤ impl) ⊎ (impl + 144 ≤ buf)
      → (buf + size ≤ block) ⊎ (block + fs.block_size ≤ buf)
      → Returns
          (λ (s', n).
            (n ≡ size)
            × (bytes (memory s') buf size ≡ file_bytes fs inode offset size)
            × Reading fs (offset + size) s')
          (read_fs_node Mounted memory (call_read linked) node offset size buf s)
  piece fs offset size buf s direct is fits ends away away_file away_block =
      let (file, points, held, leads, open_, at, reads, same) = is in
      subst
        (λ g.
          DirectOk g inode
          → Reading g offset s
          → offset + size < 12 * g.block_size
          → (buf + size ≤ block) ⊎ (block + g.block_size ≤ buf)
          → Returns
              (λ (s', n).
                (n ≡ size)
                × (bytes (memory s') buf size ≡ file_bytes g inode offset size)
                × Reading g (offset + size) s')
              (read_fs_node Mounted memory (call_read linked) node offset size buf s))
        same
        (λ d r e ab.
          rw (dispatched offset size buf s reads)
            (ext2_vfs_read-Reading offset size buf s d r fits e away away_file ab))
        direct is ends away_block

  -- Reading a file piece by piece, each piece from where the last one ended, gives its bytes in order.
  -- The node leads to a file that is open at the offset; the pieces end with the file or before, and
  -- before the end of the last direct block; and no buffer shares a byte with the node,
  -- with its Ext2_file or with the buffer that this has for a block.
  pub read_pieces-file_bytes :
      (fs : Ext2) (offset : ℕ) (pieces : List (ℕ × ℕ)) (s : Mounted)
      → DirectOk fs inode
      → Reading fs offset s
      → offset + total pieces ≤ inode_size inode
      → offset + total pieces < 12 * fs.block_size
      → AwayFrom node 184 pieces
      → AwayFrom impl 144 pieces
      → AwayFrom block fs.block_size pieces
      → Returns
          (λ (s', out).
            (out ≡ file_bytes fs inode offset (total pieces))
            × Reading fs (offset + total pieces) s')
          (read_pieces linked node offset pieces s)
  unfolding read_pieces
  read_pieces-file_bytes fs offset [] s direct is fits ends away away_file away_block =
      let at : offset ≡ offset + 0 = omega arith in (refl, subst (λ o. Reading fs o s) at is)
  read_pieces-file_bytes fs offset ((size, buf) ∷ pieces) s direct is fits ends (apart, away)
        (apart_file, away_file) (apart_block, away_block) =
      Returns-bind _ (read_fs_node Mounted memory (call_read linked) node offset size buf s) _
        (piece fs offset size buf s direct is (omega arith) (omega arith) apart apart_file
          apart_block)
        λ (s', n) (count, got, next).
          rw (count, got)
            (Returns-bind _ (read_pieces linked node (offset + size) pieces s') _
              (read_pieces-file_bytes fs (offset + size) pieces s' direct next (omega arith)
                (omega arith) away away_file away_block)
              λ (s'', out) (rest, after).
                let sum : offset + size + total pieces ≡ offset + (size + total pieces) =
                  omega arith in
                (
                  ap (λ xs. file_bytes fs inode offset size ++ xs) rest
                      ∙ sym (file_bytes-append fs inode offset size (total pieces)),
                  subst (λ o. Reading fs o s'') sum after,
                ))

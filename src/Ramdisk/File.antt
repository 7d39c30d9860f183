-- ===== src/Ramdisk/File.antt =====
-- One file of the image: its header gets an address, and its node is filled in.
use studix.Base.{
  ℕ, ◌+◌, ◌≤◌, ◌<◌, ◌≡◌, ◌⊎◌, inl, inr, arith, refl, ◌∙◌, List, length, Returns, Returns-bind,
  add32,
}
use studix.Memory.{Memory, load32, store32}
use studix.Memory.Laws.{store32_outside, load32-store32}
use studix.Strings.{strcpy}
use studix.Strings.Text.{IsText}
use studix.Strings.Copy.{Copied, strcpy-Copied}
use studix.Vfs.FsNode
use studix.Initrd.{
  Initrd, Linked, memory, file_header, root_node, header_start, init_file, set_file_node,
}
use studix.Memory.Laws.{load32-same}
use studix.Ramdisk.Keep.{IsText-same, set_file_node_outside, set_file_node-inode}

-- The node names the file, the start has become an address, and nothing else has changed.
abbrev pub Prepared : Initrd → (i : ℕ) → Initrd → Type 0
Prepared s i s' =
    (s'.initrd_start ≡ s.initrd_start)
    × (s'.file_headers ≡ s.file_headers)
    × (s'.root_nodes ≡ s.root_nodes)
    × (load32 (memory s') (FsNode.inode (root_node s i)) ≡ i)
    × (load32 (memory s') (header_start (file_header s i))
        ≡ add32 (load32 (memory s) (header_start (file_header s i))) s.initrd_start)
    × ((x : ℕ)
        → x < root_node s i ⊎ (root_node s i + 184 ≤ x)
        → x < file_header s i + 128 ⊎ (file_header s i + 132 ≤ x)
        → memory s' x ≡ memory s x)

-- The copy of a name writes only in the first 128 bytes of a node.
Copied-outside :
    (m m' : Memory) (dest src k x : ℕ)
    → Copied m dest src k m'
    → k < 126
    → x < dest ⊎ (dest + 128 ≤ x)
    → m' x ≡ m x
Copied-outside m m' dest src k x copied short away = ground (arith, copied x)

pub init_file-Prepared :
    (f : ℕ) (linked : Linked) (s : Initrd) (i : ℕ) (name : List ℕ)
    → IsText (memory s) (file_header s i) name
    → length name < 126
    → 126 ≤ f
    → i < 4294967296
    → file_header s i + 136 ≤ root_node s i
    → Returns (Prepared s i) (init_file f linked s i)
unfolding init_file
init_file-Prepared f linked s i name text short fuel small apart =
    let header = file_header s i in
    let node = root_node s i in
    let m = memory s in
    let v = add32 (load32 m (header_start header)) s.initrd_start in
    let m1 = store32 m (header_start header) v in
    let text' : IsText m1 header name =
      IsText-same m m1 header name
        (λ x lo hi. store32_outside m (header_start header) v x (omega arith)) text in
    Returns-bind _ (strcpy f m1 node header) _
      (strcpy-Copied f node header m1 name text' (inr (omega arith)) (omega arith))
      λ m2 copied.
        let size = load32 m2 (header + 132) in
        let kept = λ (x : ℕ) (away : x < node ⊎ (node + 184 ≤ x)).
          set_file_node_outside linked node i size m2 x (omega arith)
          ∙ Copied-outside m1 m2 node header (length name) x copied short (omega arith) in
        let start =
          load32-same m1 (set_file_node linked node i size m2) (header_start header)
            (λ x lo hi. kept x (inl (omega arith)))
          ∙ load32-store32 m (header_start header) v (omega arith) in
        (
          refl,
          refl,
          refl,
          set_file_node-inode linked node i size m2 small,
          start,
          λ x away beside. kept x away ∙ store32_outside m (header_start header) v x (omega arith),
        )

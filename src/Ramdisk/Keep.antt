-- ===== src/Ramdisk/Keep.antt =====
-- What stays as it was when the node of a file is filled in.
use studix.Base.{ℕ, ◌+◌, ◌≤◌, ◌<◌, ◌≡◌, ◌⊎◌, arith, ◌∙◌, List, [], ◌∷◌, length}
use studix.Memory.{Memory, load32}
use studix.Memory.Laws.{Apart, store32_outside, load32-store32, load32-store32-Apart}
use studix.Strings.Text.{IsText}
use studix.Vfs.{file_node}
use studix.Vfs.FsNode
use studix.Initrd.{Linked, set_file_node}

pub IsText-same :
    (m m' : Memory) (a : ℕ) (xs : List ℕ)
    → ((x : ℕ) → a ≤ x → x ≤ a + length xs → m' x ≡ m x)
    → IsText m a xs
    → IsText m' a xs
IsText-same m m' a [] same t = omega (arith, same a (omega arith) (omega arith))
IsText-same m m' a (c ∷ xs) same (first, nonzero, t) = (
  omega (arith, same a (omega arith) (omega arith)),
  nonzero,
  IsText-same m m' (a + 1) xs (λ x lo hi. same x (omega arith) (omega arith)) t,
)

module _ (linked : Linked) (node i size : ℕ) (m : Memory) where
  -- The fields of a node lie behind its name.
  pub set_file_node_outside :
      (x : ℕ) → x < node + 128 ⊎ (node + 184 ≤ x) → set_file_node linked node i size m x ≡ m x
  unfolding set_file_node
  set_file_node_outside x h =
      let keep = λ (o v : ℕ) (lo : 128 ≤ o) (hi : o ≤ 180) (m' : Memory).
        store32_outside m' (node + o) v x (omega arith) in
      keep 156 0 (omega arith) (omega arith) _
      ∙ keep 180 0 (omega arith) (omega arith) _
      ∙ keep 176 0 (omega arith) (omega arith) _
      ∙ keep 172 0 (omega arith) (omega arith) _
      ∙ keep 168 0 (omega arith) (omega arith) _
      ∙ keep 164 0 (omega arith) (omega arith) _
      ∙ keep 160 linked.initrd_read_fn (omega arith) (omega arith) _
      ∙ keep 148 file_node (omega arith) (omega arith) _
      ∙ keep 132 i (omega arith) (omega arith) _
      ∙ keep 128 size (omega arith) (omega arith) _
      ∙ keep 144 0 (omega arith) (omega arith) _
      ∙ keep 140 0 (omega arith) (omega arith) _
      ∙ keep 136 0 (omega arith) (omega arith) _

  -- The number of the file stands in the node's inode.
  pub set_file_node-inode :
      i < 4294967296 → load32 (set_file_node linked node i size m) (FsNode.inode node) ≡ i
  unfolding set_file_node
  set_file_node-inode small =
      let keep = λ (o v : ℕ) (away : Apart (node + o) (node + 132)) (m' : Memory).
        load32-store32-Apart m' (node + o) v (node + 132) away in
      keep 156 0 (omega arith) _
      ∙ keep 180 0 (omega arith) _
      ∙ keep 176 0 (omega arith) _
      ∙ keep 172 0 (omega arith) _
      ∙ keep 168 0 (omega arith) _
      ∙ keep 164 0 (omega arith) _
      ∙ keep 160 linked.initrd_read_fn (omega arith) _
      ∙ keep 148 file_node (omega arith) _
      ∙ load32-store32 _ (node + 132) i small

-- ===== src/Initrd/Entries.antt =====
-- The directory entry that initrd_read_dir hands out.
use studix.Base.{
  ℕ, suc, ◌+◌, ◌-◌, ◌≤◌, ◌<◌, ◌≡◌, inl, inr, arith, refl, ap, ◌∙◌, sym, subst, List, [], ◌∷◌, ◌++◌,
  length, true, false, Bool-cases, ◌&&◌, leb, ◌==◌, if◌then◌else◌, Returns, Returns-bind, ==_iff,
  sub32,
}
use studix.Memory.{Memory, load8}
use studix.Memory.Laws.{store32_outside}
use studix.Strings.{strcpy}
use studix.Strings.Bytes.{within}
use studix.Strings.Text.{IsText}
use studix.Strings.Copy.{Copied, CopyFits, strcpy-Copied}
use studix.Vfs.{entry_inode}
use studix.Initrd.{Initrd, Linked, memory, root_node, initrd_read_dir}

-- A text is its bytes with a text behind them.
IsText-append :
    (m m' : Memory) (dest src : ℕ) (xs rest : List ℕ)
    → IsText m src xs
    → ((j : ℕ) → j < length xs → load8 m' (dest + j) ≡ load8 m (src + j))
    → IsText m' (dest + length xs) rest
    → IsText m' dest (xs ++ rest)
IsText-append m m' dest src [] rest t same r =
    let at : dest + 0 ≡ dest = omega arith in subst (λ a. IsText m' a rest) at r
IsText-append m m' dest src (x ∷ xs) rest (first, nonzero, t) same r =
    let at : dest + suc (length xs) ≡ dest + 1 + length xs = omega arith in
    (
      head,
      nonzero,
      IsText-append m m' (dest + 1) (src + 1) xs rest t next (subst (λ a. IsText m' a rest) at r),
    )
  where
    head : load8 m' dest ≡ x
    head =
        let d : dest + 0 ≡ dest = omega arith in
        let s : src + 0 ≡ src = omega arith in
        ap (load8 m') (sym d) ∙ same 0 (omega arith) ∙ ap (load8 m) s ∙ first

    next : (j : ℕ) → j < length xs → load8 m' (dest + 1 + j) ≡ load8 m (src + 1 + j)
    next j h =
        let d : dest + 1 + j ≡ dest + suc j = omega arith in
        let s : src + suc j ≡ src + 1 + j = omega arith in
        ap (load8 m') d ∙ same (suc j) (omega arith) ∙ ap (load8 m) s

-- The byte behind a name that is put in place of another, if it is not 0.
abbrev pub left_over : ℕ → List ℕ
left_over b = if b == 0 then [] else b ∷ []

left_over-IsText :
    (m : Memory) (a b : ℕ) → load8 m a ≡ b → load8 m (a + 1) ≡ 0 → IsText m a (left_over b)
left_over-IsText m a b e end = elim (Bool-cases (b == 0)) [
  | inl none ↦ rw none (e ∙ (==_iff b 0).0 none)
  | inr some ↦ rw some (e, λ z. cc (some, (==_iff b 0).1 z), end)
]

-- What a copy of the text leaves at its place, when the bytes behind the first 128 are then changed.
copied_name :
    (m m1 m' : Memory) (dest src : ℕ) (xs : List ℕ)
    → IsText m src xs
    → length xs < 127
    → Copied m dest src (length xs) m1
    → ((x : ℕ) → x < dest + 128 → m' x ≡ m1 x)
    → IsText m' dest (xs ++ left_over (load8 m (dest + length xs)))
copied_name m m1 m' dest src xs t short copied same =
    IsText-append m m' dest src xs (left_over (load8 m (dest + length xs))) t inside
      (left_over-IsText m' (dest + length xs) (load8 m (dest + length xs)) old end)
  where
    at :
        (x : ℕ)
        → x < dest + 128
        → m' x ≡ (
            if within dest (length xs) x
            then load8 m (src + (x - dest))
            else if x == dest + length xs + 1
            then 0
            else m x)
    at x h = same x h ∙ copied x

    inside : (j : ℕ) → j < length xs → load8 m' (dest + j) ≡ load8 m (src + j)
    inside j h =
        let back : dest + j - dest ≡ j = omega arith in
        let byte : within dest (length xs) (dest + j) ≡ true = ground arith in
        let e : m' (dest + j) ≡ load8 m (src + j) = at (dest + j) (omega arith) ∙ rw (byte, back) in
        omega (arith, e)

    old : load8 m' (dest + length xs) ≡ load8 m (dest + length xs)
    old = ground (arith, at (dest + length xs) (omega arith))

    end : load8 m' (dest + length xs + 1) ≡ 0
    end = ground (arith, at (dest + length xs + 1) (omega arith))

-- From place 1 on initrd_read_dir returns the entry of the ramdisk, with the inode of the file. The name in
-- it is that of the file only if the byte that stood behind its last was 0: otherwise that byte, left
-- over from an earlier entry, is taken for a part of the name. The name is shorter than 127 bytes, and
-- neither reaches into the other.
initrd_read_dir-left_over :
    (f : ℕ) (linked : Linked) (s : Initrd) (node index : ℕ) (name : List ℕ)
    → 0 < index
    → index ≤ s.num_root_nodes
    → s.num_root_nodes < 4294967296
    → IsText (memory s) (root_node s (index - 1)) name
    → length name < 127
    → CopyFits s.dir_entry (root_node s (index - 1)) (length name)
    → length name < f
    → Returns
        (λ r.
          (r.1 ≡ s.dir_entry)
          × IsText
              (memory r.0)
              s.dir_entry
              (name ++ left_over (load8 (memory s) (s.dir_entry + length name))))
        (initrd_read_dir f linked node index s)
unfolding initrd_read_dir
initrd_read_dir-left_over f linked s node index name pos few small t short fits fuel =
    let file : ((node == s.initrd_root) && (index == 0)) ≡ false = ground arith in
    let i : sub32 index 1 ≡ index - 1 = omega arith in
    let inside : leb s.num_root_nodes (index - 1) ≡ false = ground arith in
    rw (file, i, inside)
      (Returns-bind _ (strcpy f (memory s) s.dir_entry (root_node s (index - 1))) _
        (strcpy-Copied f s.dir_entry (root_node s (index - 1)) (memory s) name t fits fuel)
        λ m1 copied. (
          refl,
          copied_name (memory s) m1 _ s.dir_entry (root_node s (index - 1)) name t short copied
              (λ x h. store32_outside m1 (entry_inode s.dir_entry) _ x (inl h)),
        ))

-- ===== src/Ramdisk/Load.antt =====
-- All files of an image that lies in memory from l on, with the nodes from R on.
use studix.Base.{
  ℕ, ◌+◌, ◌*◌, ◌≤◌, ◌<◌, ◌≡◌, ◌⊎◌, inl, inr, arith, refl, ap, ◌∙◌, subst, List, [], ◌∷◌, length,
  Returns, Returns-bind, Returns-mono,
}
use studix.Memory.{Memory, load32}
use studix.Strings.Text.{IsText}
use studix.Vfs.FsNode
use studix.Initrd.{
  Initrd, Linked, memory, file_header, root_node, header_start, init_file, init_files,
}
use studix.MakeInitrd.Writes.{Stands, Stands-mono}
use studix.MakeInitrd.Image.{IsImage}
use studix.MakeInitrd.Layout.{header-load32}
use studix.Memory.Laws.{load32-same}
use studix.Ramdisk.Facts.{header-IsText, ends, ends-le, AllNames, IsImage-Kept}
use studix.Ramdisk.File.{init_file-Prepared}

IsText-shift :
    (m : Memory) (l p : ℕ) (xs : List ℕ) → IsText (λ x. m (l + x)) p xs → IsText m (l + p) xs
IsText-shift m l p [] t = t
IsText-shift m l p (x ∷ xs) (first, nonzero, t) =
    let e : l + (p + 1) ≡ l + p + 1 = omega arith in
    (first, nonzero, subst (λ a. IsText m a xs) e (IsText-shift m l (p + 1) xs t))

Stands-shift :
    (m : Memory) (l p : ℕ) (xs : List ℕ) → Stands (λ x. m (l + x)) p xs → Stands m (l + p) xs
Stands-shift m l p [] h = tt
Stands-shift m l p (x ∷ xs) (first, h) =
    let e : l + (p + 1) ≡ l + p + 1 = omega arith in
    (first, subst (λ a. Stands m a xs) e (Stands-shift m l (p + 1) xs h))

load32-shift : (m : Memory) (l a : ℕ) → load32 (λ x. m (l + x)) a ≡ load32 m (l + a)
unfolding load32
load32-shift m l a =
    let e1 : l + (a + 1) ≡ l + a + 1 = omega arith in
    let e2 : l + (a + 2) ≡ l + a + 2 = omega arith in
    let e3 : l + (a + 3) ≡ l + a + 3 = omega arith in omega (arith, ap m e1, ap m e2, ap m e3)

module _ (stack : ℕ → ℕ → ℕ) (l R : ℕ) where
  abbrev pub node_at : ℕ → ℕ
  node_at i = R + 184 * i

  abbrev pub header_at : ℕ → ℕ
  header_at i = l + 1 + 136 * i

  -- The nodes from i on lead to headers that say where the contents lie in memory, and there they are.
  abbrev pub Loaded : Memory → (i e : ℕ) → List (List ℕ × List ℕ) → Type 0
  Loaded m i e [] = Unit
  Loaded m i e ((name, contents) ∷ files) =
      (load32 m (FsNode.inode (node_at i)) ≡ i)
      × (load32 m (header_at i + 128) ≡ l + e)
      × (load32 m (header_at i + 132) ≡ length contents)
      × Stands m (l + e) contents
      × Loaded m (i + 1) (e + length contents) files

  -- There is room for the headers before the contents, and for all of the image before the nodes.
  abbrev pub Roomy : (i e : ℕ) → List (List ℕ × List ℕ) → Type 0
  Roomy i e files =
      (1 + 136 * (i + length files) ≤ e)
      × (l + ends e files ≤ R)
      × (R + 184 * (i + length files) < 4294967296)

  -- The globals, as init_initrd has set them.
  abbrev pub Located : Initrd → Type 0
  Located s = (s.initrd_start ≡ l) × (s.file_headers ≡ l + 1) × (s.root_nodes ≡ R)

  abbrev Kept : (i n : ℕ) → Memory → Memory → Type 0
  Kept i n m m' = (x : ℕ) → x < header_at i ⊎ (header_at (i + n) ≤ x) × (x < node_at i) → m' x ≡ m x

  addresses :
      (s : Initrd) (i : ℕ)
      → Located s
      → (l + 1 + 136 * i < 4294967296) × (R + 184 * i < 4294967296)
      → (root_node s i ≡ node_at i) × (file_header s i ≡ header_at i)
  addresses s i (a, b, c) small = (omega arith, omega arith)

  -- The first file of the image, with what the loop needs for the others.
  first_file :
      (f : ℕ) (linked : Linked) (s : Initrd) (i e : ℕ) (name contents : List ℕ)
      (files : List (List ℕ × List ℕ))
      → 126 ≤ f
      → Located s
      → AllNames ((name, contents) ∷ files)
      → Roomy i e ((name, contents) ∷ files)
      → IsImage 4 stack (λ x. memory s (l + x)) (1 + 136 * i) e ((name, contents) ∷ files)
      → Returns
          (λ s1.
            Located s1
            × IsImage 4 stack
                (λ x. memory s1 (l + x))
                (1 + 136 * (i + 1))
                (e + length contents)
                files
            × Loaded (memory s1) i e ((name, contents) ∷ [])
            × ((x : ℕ)
                → x < header_at i ⊎ (header_at (i + 1) ≤ x) × (x < node_at i)
                → memory s1 x ≡ memory s x))
          (init_file f linked s i)
  first_file f linked s i e name contents files fuel (la, lb, lc) (short, n, names)
        (early, fits, small) (header, body, rest) =
      let (node, head) = addresses s i (la, lb, lc) (omega arith, omega arith) in
      let far = ends-le (e + length contents) files in
      let size = length contents in
      let b : ℕ → ℕ = λ x. memory s (l + x) in
      let p = 1 + 136 * i in
      let place : l + p ≡ file_header s i = omega arith in
      let text : IsText (memory s) (file_header s i) name =
        subst (λ a. IsText (memory s) a name) place
          (IsText-shift (memory s) l p name (header-IsText (stack p) b p name e size n header)) in
      let (start_says, length_says) =
        header-load32 (stack p) b p name e size (omega arith) (omega arith) (omega arith) header in
      let start_at : l + (p + 128) ≡ file_header s i + 128 = omega arith in
      let length_at : l + (p + 132) ≡ header_at i + 132 = omega arith in
      Returns-mono (init_file f linked s i)
        (λ s1 (a, b1, c, inode, start, frame).
          let kept =
            λ (x : ℕ) (low : x < node_at i)
                (beside : x < header_at i + 128 ⊎ (header_at i + 132 ≤ x)).
              frame x (inl (omega arith)) (omega arith) in
          let next : p + 136 ≡ 1 + 136 * (i + 1) = omega arith in
          (
            (a ∙ la, b1 ∙ lb, c ∙ lc),
            subst (λ q. IsImage 4 stack (λ x. memory s1 (l + x)) q (e + size) files) next
                (IsImage-Kept stack b (λ x. memory s1 (l + x)) files (p + 136) (e + size) names
                  (omega arith) (λ x lo hi. kept (l + x) (omega arith) (inr (omega arith))) rest),
            (
              subst (λ q. load32 (memory s1) (FsNode.inode q) ≡ i) node inode,
              subst (λ q. load32 (memory s1) (header_start q) ≡ l + e) head
                  (start
                    ∙ omega (
                      arith,
                      start_says,
                      load32-shift (memory s) l (p + 128),
                      ap (load32 (memory s)) start_at,
                    )),
              load32-same (memory s) (memory s1) (header_at i + 132)
                    (λ x lo hi. kept x (omega arith) (inr (omega arith)))
                  ∙ omega (
                    arith,
                    length_says,
                    load32-shift (memory s) l (p + 132),
                    ap (load32 (memory s)) length_at,
                  ),
              Stands-mono (memory s) (memory s1) (l + e) contents
                  (λ x lo hi. kept x (omega arith) (inr (omega arith)))
                  (Stands-shift (memory s) l e contents body),
              tt,
            ),
            λ x h. kept x (omega arith) (omega arith),
          ))
        (init_file-Prepared f linked s i name text short fuel (omega arith) (omega arith))

  -- One file stays loaded when the others are.
  Loaded-Kept :
      (m m' : Memory) (i e : ℕ) (name contents : List ℕ) (files : List (List ℕ × List ℕ))
      → Roomy i e ((name, contents) ∷ files)
      → Kept (i + 1) (length files) m m'
      → Loaded m i e ((name, contents) ∷ [])
      → Loaded m' (i + 1) (e + length contents) files
      → Loaded m' i e ((name, contents) ∷ files)
  Loaded-Kept m m' i e name contents files (early, fits, small) kept (inode, start, size, body, end)
        rest =
      let far = ends-le (e + length contents) files in
      (
        load32-same m m' (FsNode.inode (node_at i)) (λ x lo hi. kept x (omega arith)) ∙ inode,
        load32-same m m' (header_at i + 128) (λ x lo hi. kept x (omega arith)) ∙ start,
        load32-same m m' (header_at i + 132) (λ x lo hi. kept x (omega arith)) ∙ size,
        Stands-mono m m' (l + e) contents (λ x lo hi. kept x (omega arith)) body,
        rest,
      )

  -- The loop over the files of init_initrd, on an image in memory: it returns, the nodes then lead to the
  -- contents, and no byte before the headers, nor between them and the nodes, has changed.
  pub init_files-Loaded :
      (files : List (List ℕ × List ℕ)) (f : ℕ) (linked : Linked) (s : Initrd) (i e : ℕ)
      → 126 ≤ f
      → Located s
      → AllNames files
      → Roomy i e files
      → IsImage 4 stack (λ x. memory s (l + x)) (1 + 136 * i) e files
      → Returns
          (λ s'.
            Located s'
            × Loaded (memory s') i e files
            × ((x : ℕ)
                → x < header_at i ⊎ (header_at (i + length files) ≤ x) × (x < node_at i)
                → memory s' x ≡ memory s x))
          (init_files f linked (length files) i s)
  unfolding init_files
  init_files-Loaded [] f linked s i e fuel located names room image = (located, tt, λ x h. refl)
  init_files-Loaded ((name, contents) ∷ files) f linked s i e fuel located names room image =
      let (early, fits, small) = room in
      let far = ends-le (e + length contents) files in
      Returns-bind _ (init_file f linked s i) _
        (first_file f linked s i e name contents files fuel located names room image)
        λ s1 (located1, image1, one, kept1).
          Returns-mono (init_files f linked (length files) (i + 1) s1)
            (λ s' (located', loaded, kept). (
              located',
              Loaded-Kept (memory s1) (memory s') i e name contents files room kept one loaded,
              λ x h. kept x (omega arith) ∙ kept1 x (omega arith),
            ))
            (init_files-Loaded files f linked s1 (i + 1) (e + length contents) fuel located1 names.2
              (omega arith, omega arith, omega arith) image1)

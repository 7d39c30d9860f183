-- ===== src/Ramdisk/RoundTrip.antt =====
-- What the tool wrote is what the kernel reads.
use studix.Base.{
  ℕ, zero, suc, ◌+◌, ◌-◌, ◌*◌, ◌≤◌, ◌<◌, ◌≡◌, ◌⊎◌, arith, refl, ap, ◌∙◌, sym, subst, List, [], ◌∷◌,
  length, ok, some, true, get_elem?, Returns, Returns-mono,
}
use studix.Memory.{Memory, load8, load32}
use studix.Strings.Bytes.{within}
use studix.Initrd.{Initrd, Linked, memory, initrd_read, init_files}
use studix.Initrd.Bytes.{node_header, file_start, file_length, available, initrd_read-available}
use studix.MakeInitrd.{Output, DirEntry, write_initrd}
use studix.MakeInitrd.Writes.{Stands}
use studix.MakeInitrd.Image.{files_of, AllFit, IsRamdisk, write_initrd-IsRamdisk}
use studix.Ramdisk.Facts.{ends, ends-le, AllNames, IsImage-Kept}
use studix.Ramdisk.Load.{Loaded, Located, init_files-Loaded}

-- Bytes that are copied stand at the copy.
Stands-copied :
    (m m' : Memory) (a c : ℕ) (xs : List ℕ)
    → ((j : ℕ) → j < length xs → m' (c + j) ≡ load8 m (a + j))
    → Stands m a xs
    → Stands m' c xs
Stands-copied m m' a c [] same h = tt
Stands-copied m m' a c (x ∷ xs) same (first, h) =
    let c0 : c + 0 ≡ c = omega arith in
    let a0 : a + 0 ≡ a = omega arith in
    (
      omega (arith, same 0 (omega arith), ap m' c0, ap m a0),
      Stands-copied m m' (a + 1) (c + 1) xs
          (λ j lt.
            let cj : c + 1 + j ≡ c + suc j = omega arith in
            let aj : a + suc j ≡ a + 1 + j = omega arith in
            ap m' cj ∙ same (suc j) (omega arith) ∙ ap (load8 m) aj)
          h,
    )

get_elem?-lt {ℓ} :
    {A : Type ℓ} {v : A} (xs : List A) (k : ℕ) → get_elem? xs k ≡ some v → k < length xs
get_elem?-lt [] k at = absurd cc
get_elem?-lt (x ∷ xs) zero at = omega arith
get_elem?-lt (x ∷ xs) (suc k) at = omega (arith, get_elem?-lt xs k at)

module _ (stack : ℕ → ℕ → ℕ) (l R : ℕ) where
  -- The file at place k, and where its contents begin.
  node_found :
      (m : Memory) (files : List (List ℕ × List ℕ)) (i e k : ℕ) (name contents : List ℕ)
      → get_elem? files k ≡ some (name, contents)
      → Loaded stack l R m i e files
      → (e' : ℕ) × (e' + length contents ≤ ends e files)
        × Loaded stack l R m (i + k) e' ((name, contents) ∷ [])
  node_found m [] i e k name contents at h = absurd cc
  node_found m ((n, c) ∷ files) i e zero name contents at (inode, start, size, body, rest) =
      let same : c ≡ contents = cc in
      let first : i + 0 ≡ i = omega arith in
      (
        e,
        omega (arith, ends-le (e + length c) files, ap length same),
        subst (λ j. Loaded stack l R m j e ((name, contents) ∷ [])) (sym first)
            (inode, start, size ∙ ap length same, subst (λ xs. Stands m (l + e) xs) same body, tt),
      )
  node_found m ((n, c) ∷ files) i e (suc k) name contents at (inode, start, size, body, rest) =
      let next : i + 1 + k ≡ i + suc k = omega arith in
      let (e', room, found) = node_found m files (i + 1) (e + length c) k name contents at rest in
      (e', room, subst (λ j. Loaded stack l R m j e' ((name, contents) ∷ [])) next found)

  read_back :
      (s : Initrd) (k e : ℕ) (name contents : List ℕ) (buf : ℕ)
      → Located stack l R s
      → Loaded stack l R (memory s) k e ((name, contents) ∷ [])
      → (l + e + length contents ≤ R) × (l + 1 + 136 * k < 4294967296) × (R < 4294967296)
      → buf ≤ l ⊎ (R ≤ buf)
      → let (s', n) = initrd_read (R + 184 * k) 0 (length contents) buf s in
        (n ≡ length contents) × Stands (memory s') buf contents
  read_back s k e name contents buf (a, b, c) (inode, start, size, body, end) (fits, small, top)
        apart =
      let node = R + 184 * k in
      let m = memory s in
      let header : node_header s node ≡ l + 1 + 136 * k = omega (arith, inode) in
      let begins : file_start s node ≡ l + e = ap (λ h. load32 m (h + 128)) header ∙ start in
      let long : file_length s node ≡ length contents =
        ap (λ h. load32 m (h + 132)) header ∙ size in
      let all : available (file_length s node) 0 (length contents) ≡ length contents =
        ground (arith, long) in
      let (count, bytes) =
        initrd_read-available s node 0 (length contents) buf (omega arith)
          (omega (arith, begins, long)) (omega (arith, begins)) in
      (
        count ∙ all,
        Stands-copied m _ (l + e) buf contents
            (λ j lt.
              let inside : within buf (available (file_length s node) 0 (length contents)) (buf + j)
                  ≡ true =
                ground (arith, all) in
              let from : file_start s node + 0 + (buf + j - buf) ≡ l + e + j =
                omega (arith, begins) in
              bytes (buf + j) ∙ rw (inside, from) refl)
            body,
      )

  -- The tool, built where a size_t has four bytes as in the kernel, writes an image of a directory; where that image then lies in memory from l on, the loop of
  -- init_initrd makes a node of each file, from R on, and reading file k from its start gives its
  -- contents. There are at most 64 files with names shorter than 126 bytes, the image ends at R or
  -- before, the nodes end below 2^32, and the buffer does not reach into the image from below.
  pub initrd_read-write_initrd :
      (entries : List DirEntry) (out : Output) (f : ℕ) (linked : Linked) (s : Initrd) (k : ℕ)
      (name contents : List ℕ) (buf : ℕ)
      → write_initrd 4 stack (some entries) true ≡ ok (some out)
      → AllFit entries
      → AllNames (files_of entries)
      → length (files_of entries) ≤ 64
      → 126 ≤ f
      → Located stack l R s
      → ((x : ℕ) → x < ends 8705 (files_of entries) → memory s (l + x) ≡ out.bytes x)
      → l + ends 8705 (files_of entries) ≤ R
      → R + 11776 < 4294967296
      → get_elem? (files_of entries) k ≡ some (name, contents)
      → buf ≤ l ⊎ (R ≤ buf)
      → Returns
          (λ s'.
            let (s'', n) = initrd_read (R + 184 * k) 0 (length contents) buf s' in
            (n ≡ length contents) × Stands (memory s'') buf contents)
          (init_files f linked (length (files_of entries)) 0 s)
  initrd_read-write_initrd entries out f linked s k name contents buf written fit names few fuel
        located held fits top at apart =
      let files = files_of entries in
      let (count, image) =
        subst (Returns (IsRamdisk 4 stack files)) written
          (write_initrd-IsRamdisk 4 stack entries fit few) in
      let loaded =
        init_files-Loaded stack l R files f linked s 0 8705 fuel located names
          (omega arith, fits, omega arith)
          (IsImage-Kept stack out.bytes (λ x. memory s (l + x)) files 1 8705 names (omega arith)
            (λ x lo hi. held x hi) image) in
      Returns-mono (init_files f linked (length files) 0 s)
        (λ s' (located', nodes, kept).
          let (e, room, found) = node_found (memory s') files 0 8705 k name contents at nodes in
          read_back s' k e name contents buf located'
            (subst (λ j. Loaded stack l R (memory s') j e ((name, contents) ∷ [])) (omega arith)
              found)
            (omega arith, omega (arith, get_elem?-lt files k at, ends-le 8705 files), omega arith)
            apart)
        loaded

-- ===== src/MakeInitrd/Image.antt =====
-- The image that the tool writes.
use studix.Base.{
  ℕ, suc, ◌+◌, ◌-◌, ◌*◌, ◌≤◌, ◌<◌, ◌≡◌, ◌⊎◌, inl, inr, arith, refl, ◌∙◌, subst, List, [], ◌∷◌, ◌++◌,
  length, length-append, true, false, leb, u8, Option, none, some, Returns, Returns-mono,
  Returns-bind,
}
use studix.MakeInitrd.{
  Output, put_byte, seek, write, header_bytes, header_size, write_file, DirEntry, unopened, unknown,
  special, regular, files_loop, finish, write_initrd, size_bytes, stack_bytes,
}
use studix.MakeInitrd.Writes.{
  write-position, Stands, write_outside, write-Stands, Stands-mono, length-size_bytes,
  length-stack_bytes,
}

-- A file of the image: its name and its contents.
abbrev pub Named : Type 0
Named = List ℕ × List ℕ

-- The regular files of a directory, in order.
abbrev pub files_of : List DirEntry → List Named
files_of [] = []
files_of (unopened ∷ entries) = files_of entries
files_of (unknown ∷ entries) = files_of entries
files_of (special ∷ entries) = files_of entries
files_of (regular name contents ∷ entries) = (name, contents) ∷ files_of entries

-- Every entry can be opened, and the names fit into the headers.
abbrev pub AllFit : List DirEntry → Type 0
AllFit [] = Unit
AllFit (unopened ∷ entries) = ⊥
AllFit (unknown ∷ entries) = ⊥
AllFit (special ∷ entries) = AllFit entries
AllFit (regular name contents ∷ entries) = (length name < 128) × AllFit entries

mul_suc : (a n : ℕ) → a * suc n ≡ a * n + a
mul_suc a n = grind arith

module _ (w : ℕ) (stack : ℕ → ℕ → ℕ) where
  -- The headers of the files stand from p on, one behind the other, and their contents from e on.
  abbrev pub IsImage : (ℕ → ℕ) → (p e : ℕ) → List Named → Type 0
  IsImage b p e [] = Unit
  IsImage b p e ((name, contents) ∷ files) =
      Stands b p (header_bytes w (stack p) name e (length contents))
      × Stands b e contents
      × IsImage b (p + header_size w) (e + length contents) files

  pub length-header_bytes :
      (p : ℕ) (name : List ℕ) (start size : ℕ)
      → length name < 128
      → length (header_bytes w (stack p) name start size) ≡ header_size w
  unfolding header_bytes
  length-header_bytes p name start size h =
      let padding = stack_bytes (stack p) (128 - length name - 1) 0 in
      let named = name ++ 0 ∷ padding in
      length-append (named ++ size_bytes w start) (size_bytes w size)
      ∙ omega (
        arith,
        length-append named (size_bytes w start),
        length-append name (0 ∷ padding),
        length-stack_bytes (stack p) (128 - length name - 1) 0,
        length-size_bytes w start,
        length-size_bytes w size,
      )

  -- What the file leaves: its header at the old position, which moves behind it, and its contents at e.
  abbrev Filed : Output → (name contents : List ℕ) → (e : ℕ) → Output → Type 0
  Filed out name contents e out' =
      Stands out'.bytes out.position (header_bytes w (stack out.position) name e (length contents))
      × Stands out'.bytes e contents
      × (out'.position ≡ out.position + header_size w)
      × ((i : ℕ)
          → i < out.position ⊎ (out.position + header_size w ≤ i) × (i < e)
          → out'.bytes i ≡ out.bytes i)

  write_file-Filed :
      (out : Output) (name contents : List ℕ) (e : ℕ)
      → length name < 128
      → out.position + header_size w ≤ e
      → Returns (Filed out name contents e) (write_file w stack out name contents e)
  unfolding write_file
  write_file-Filed out name contents e short apart =
      let header = header_bytes w (stack out.position) name e (length contents) in
      let size = length-header_bytes out.position name e (length contents) short in
      let headed = write out header in
      let fits : leb 128 (length name) ≡ false = ground arith in
      rw fits (
        Stands-mono headed.bytes _ out.position header
            (λ i lo hi. write_outside (seek headed e) contents i (omega arith))
            (write-Stands out header),
        write-Stands (seek headed e) contents,
        write-position out header ∙ omega arith,
        λ i h.
            write_outside (seek headed e) contents i (omega arith)
            ∙ write_outside out header i (omega arith),
      )

  -- What the loop leaves of the files: an image, and all else below the first of them as it was.
  abbrev Written : Output → (e num_files : ℕ) → List Named → Option (Output × ℕ) → Type 0
  Written out e num_files files none = ⊥
  Written out e num_files files (some (out', n)) =
      (n ≡ num_files + length files)
      × IsImage out'.bytes out.position e files
      × ((i : ℕ)
          → i < out.position ⊎ (out.position + header_size w * length files ≤ i) × (i < e)
          → out'.bytes i ≡ out.bytes i)

  Written-more :
      (out out1 : Output) (e num_files : ℕ) (name contents : List ℕ) (files : List Named)
      → length name < 128
      → out.position + header_size w * suc (length files) ≤ e
      → Filed out name contents e out1
      → (r : Option (Output × ℕ)) → Written out1 (e + length contents) (num_files + 1) files r
      → Written out e num_files ((name, contents) ∷ files) r
  Written-more out out1 e num_files name contents files short room filed none h = h
  Written-more out out1 e num_files name contents files short room (header, body, moved, same)
        (some (out', n)) (count, image, kept) =
      let size = length-header_bytes out.position name e (length contents) short in
      let more = mul_suc (header_size w) (length files) in
      (
        omega arith,
        (
          Stands-mono out1.bytes out'.bytes out.position _ (λ i lo hi. kept i (inl (omega arith)))
              header,
          Stands-mono out1.bytes out'.bytes e contents
              (λ i lo hi. kept i (inr (omega arith, omega arith))) body,
          subst (λ p. IsImage out'.bytes p (e + length contents) files) moved image,
        ),
        λ i h. kept i (omega arith) ∙ same i (omega arith),
      )

  files_loop-Written :
      (entries : List DirEntry) (out : Output) (e num_files : ℕ)
      → AllFit entries
      → out.position + header_size w * length (files_of entries) ≤ e
      → Returns
          (Written out e num_files (files_of entries))
          (files_loop w stack entries out e num_files)
  unfolding files_loop
  files_loop-Written [] out e num_files fit room = (omega arith, tt, λ i h. refl)
  files_loop-Written (unopened ∷ entries) out e num_files fit room = absurd fit
  files_loop-Written (unknown ∷ entries) out e num_files fit room = absurd fit
  files_loop-Written (special ∷ entries) out e num_files fit room =
      files_loop-Written entries out e num_files fit room
  files_loop-Written (regular name contents ∷ entries) out e num_files (short, fit) room =
      let more = mul_suc (header_size w) (length (files_of entries)) in
      Returns-bind _ (write_file w stack out name contents e) _
        (write_file-Filed out name contents e short (omega arith))
        λ out1 filed.
          Returns-mono (files_loop w stack entries out1 (e + length contents) (num_files + 1))
            (Written-more out out1 e num_files name contents (files_of entries) short room filed)
            (files_loop-Written entries out1 (e + length contents) (num_files + 1) fit
              (omega arith))

  -- The whole output: the number of files, and the image behind it.
  abbrev pub IsRamdisk : List Named → Option Output → Type 0
  IsRamdisk files none = ⊥
  IsRamdisk files (some out) =
      (out.bytes 0 ≡ length files) × IsImage out.bytes 1 (1 + header_size w * 64) files

  IsImage-mono :
      (b b' : ℕ → ℕ) (p e : ℕ) (files : List Named)
      → 0 < p
      → 0 < e
      → ((i : ℕ) → 0 < i → b' i ≡ b i)
      → IsImage b p e files
      → IsImage b' p e files
  IsImage-mono b b' p e [] hp he same h = tt
  IsImage-mono b b' p e ((name, contents) ∷ files) hp he same (header, body, rest) = (
    Stands-mono b b' p _ (λ i lo hi. same i (omega arith)) header,
    Stands-mono b b' e contents (λ i lo hi. same i (omega arith)) body,
    IsImage-mono b b' (p + header_size w) (e + length contents) files (omega arith) (omega arith)
        same rest,
  )

  finished :
      (files : List Named) (e : ℕ)
      → length files ≤ 64
      → 0 < e
      → e ≡ 1 + header_size w * 64
      → (r : Option (Output × ℕ)) → Written (record { bytes = λ i. 0; position = 1 }) e 0 files r
      → IsRamdisk files (finish r)
  unfolding finish
  finished files e few pos at none h = h
  finished files e few pos at (some (out, n)) (count, image, kept) = (
    ground arith,
    subst (λ t. IsImage (put_byte (seek out 0) (u8 n)).bytes 1 t files) at
        (IsImage-mono out.bytes (put_byte (seek out 0) (u8 n)).bytes 1 e files (omega arith) pos
          (λ i h. ground arith) image),
  )

  pub write_initrd-IsRamdisk :
      (entries : List DirEntry)
      → AllFit entries
      → length (files_of entries) ≤ 64
      → Returns (IsRamdisk (files_of entries)) (write_initrd w stack (some entries) true)
  unfolding write_initrd
  write_initrd-IsRamdisk entries fit few =
      Returns-bind _ (files_loop w stack entries _ _ 0) _
        (files_loop-Written entries (record { bytes = λ i. 0; position = 1 })
          (1 + header_size w * 64) 0 fit (grind arith))
        (finished (files_of entries) (1 + header_size w * 64) few (omega arith) refl)

-- ===== src/Ext2/Directory.antt =====
-- A directory as the list of its entries.
use studix.Base.{
  ℕ, zero, suc, ◌+◌, ◌-◌, ◌*◌, ◌/◌, ◌%◌, ◌≤◌, ◌<◌, ◌≡◌, refl, sym, ap, ap₂, ◌∙◌, true, arith, List,
  [], ◌∷◌, ◌++◌, none, some, length, Result, ok, stop, ◌>>=◌, Returns, Returns-mono, Returns-bind,
  Bool-cases, inl, inr, ltb, ◌==◌, if◌then◌else◌, sub32,
}
use studix.Ext2.{
  Buffer, Ext2, File, inode_size, byte_at, dirent_of, read_inode, ext2_read, ext2_next_dirent,
  find_loop, ext2_find_in_dir, ext2_open_inode,
}
use studix.Ext2.Read.{
  IsOpen, DirectOk, file_bytes, length-file_bytes, file_bytes-append, ext2_read-file_bytes,
}
use studix.Strings.Text.{AllBytes, AllNonzero}
use studix.Ext2.Names.{text_equal, same_text-text_equal}
use studix.Ext2.Inodes.{ext2_open_inode-IsOpen}

-- An entry as it is stored: the inode, the type, the name, and the bytes up to the next entry.
pub record Entry : Type 0 where
  pub inode : ℕ
  pub type : ℕ
  pub name : List ℕ
  pub padding : List ℕ

abbrev pub entry_length : Entry → ℕ
entry_length e = 8 + length e.name + length e.padding

-- The fields have the widths that they have on the disk.
abbrev pub Fits : Entry → Type 0
Fits e = (e.inode < 4294967296) × (length e.name < 256) × (entry_length e < 65536)

abbrev pub AllFit : List Entry → Type 0
AllFit [] = Unit
AllFit (e ∷ es) = Fits e × AllFit es

-- The eight bytes in front of a name.
abbrev pub head_bytes : Entry → List ℕ
head_bytes e =
    e.inode % 256
    ∷ e.inode / 256 % 256
    ∷ e.inode / 65536 % 256
    ∷ e.inode / 16777216
    ∷ entry_length e % 256
    ∷ entry_length e / 256
    ∷ length e.name
    ∷ e.type
    ∷ []

-- The bytes of a directory.
unfoldable pub directory_bytes : List Entry → List ℕ
directory_bytes [] = []
directory_bytes (e ∷ es) = head_bytes e ++ (e.name ++ (e.padding ++ directory_bytes es))

-- Two lists with prefixes of one length.
split_at :
    (xs xs' ys ys' : List ℕ)
    → length xs ≡ length xs'
    → xs ++ ys ≡ xs' ++ ys'
    → (xs ≡ xs') × (ys ≡ ys')
split_at [] [] ys ys' same e = (refl, e)
split_at [] (x ∷ xs') ys ys' same e = absurd (omega (arith, same))
split_at (x ∷ xs) [] ys ys' same e = absurd (omega (arith, same))
split_at (x ∷ xs) (x' ∷ xs') ys ys' same e =
    let rest = split_at xs xs' ys ys' (omega (arith, same)) (cc) in (ap₂ ◌∷◌ (cc) rest.0, rest.1)

length-append : (xs ys : List ℕ) → length (xs ++ ys) ≡ length xs + length ys
length-append [] ys = omega arith
length-append (x ∷ xs) ys = omega (arith, length-append xs ys)

-- The inode of the first entry with the name, or 0.
abbrev pub first_inode : List ℕ → List Entry → ℕ
first_inode name [] = 0
first_inode name (e ∷ es) = if text_equal (e.name) name then e.inode else first_inode name es

-- Names as they may stand in entries.
abbrev pub AllNames : List Entry → Type 0
AllNames [] = Unit
AllNames (e ∷ es) = AllBytes (e.name) × AllNonzero (e.name) × AllNames es

-- What a bind leads to from every value that its first part can return.
pub from_returns :
    {A B : Type 0} {P : A → Type 0} (r : Result A) (next : A → Result B) (b : B)
    → Returns P r
    → ((a : A) → P a → next a ≡ ok b)
    → (r >>= next) ≡ ok b
from_returns (ok a) next b h each = each a h
from_returns (stop e) next b h each = absurd h

-- The fields come out of the eight bytes.
pub head-dirent_of :
    (e : Entry)
    → Fits e
    → ((dirent_of (head_bytes e) (e.name)).inode_num ≡ e.inode)
      × (byte_at (head_bytes e) 4 + 256 * byte_at (head_bytes e) 5 ≡ entry_length e)
      × (byte_at (head_bytes e) 6 ≡ length (e.name))
unfolding dirent_of
head-dirent_of e (i, n, t) = (omega arith, omega arith, refl)

module _ (fs : Ext2) (inode : Buffer) (direct : DirectOk fs inode) where
  -- The first k of n bytes of the file, and those behind them.
  file_prefix :
      (p k n : ℕ) (xs rest : List ℕ)
      → length xs ≡ k
      → k ≤ n
      → file_bytes fs inode p n ≡ xs ++ rest
      → (file_bytes fs inode p k ≡ xs) × (file_bytes fs inode (p + k) (n - k) ≡ rest)
  file_prefix p k n xs rest long le e =
      let parts : k + (n - k) ≡ n = omega arith in
      split_at (file_bytes fs inode p k) xs (file_bytes fs inode (p + k) (n - k)) rest
        (length-file_bytes fs inode p k ∙ sym long)
        (sym (file_bytes-append fs inode p k (n - k)) ∙ ap (file_bytes fs inode p) parts ∙ e)

  -- Reading the next bytes, as long as there are so many.
  read_next :
      (file : File) (k : ℕ) (xs rest : List ℕ)
      → IsOpen fs inode file
      → length xs ≡ k
      → file.pos + k ≤ inode_size inode
      → inode_size inode + 8 < 12 * fs.block_size
      → file_bytes fs inode (file.pos) (inode_size inode - file.pos) ≡ xs ++ rest
      → Returns
          (λ (file', out).
            (out ≡ xs)
            × IsOpen fs inode file'
            × (file'.pos ≡ file.pos + k)
            × (file_bytes fs inode (file'.pos) (inode_size inode - file'.pos) ≡ rest))
          (ext2_read fs file k)
  read_next file k xs rest open_ long fits small e =
      let whole : (if ltb (inode_size inode) (file.pos + k) then inode_size inode - file.pos else k)
          ≡ k =
        ground arith in
      Returns-mono (ext2_read fs file k)
        (λ (file', out) (got, o, at).
          let parts =
            file_prefix (file.pos) k (inode_size inode - file.pos) xs rest long (omega arith) e in
          let at' : file'.pos ≡ file.pos + k = at ∙ ap (λ n. file.pos + n) whole in
          let left : inode_size inode - file'.pos ≡ inode_size inode - file.pos - k =
            omega (arith, at') in
          (
            got ∙ ap (file_bytes fs inode (file.pos)) whole ∙ parts.0,
            o,
            at',
            ap₂ (file_bytes fs inode) at' left ∙ parts.1,
          ))
        (ext2_read-file_bytes fs inode direct file k open_ (omega arith) (omega arith))

  -- What is left of the directory behind an open file's position.
  abbrev pub At : List Entry → File → Type 0
  At es file =
      IsOpen fs inode file
      × (file.pos ≤ inode_size inode)
      × (file_bytes fs inode (file.pos) (inode_size inode - file.pos) ≡ directory_bytes es)

  pub next_entry :
      (file : File) (e : Entry) (es : List Entry)
      → Fits e
      → inode_size inode + 8 < 12 * fs.block_size
      → At (e ∷ es) file
      → Returns
          (λ (file', d). (d ≡ some (dirent_of (head_bytes e) (e.name))) × At es file')
          (ext2_next_dirent fs file)
  unfolding ext2_next_dirent directory_bytes
  next_entry file e es fits small (open_, le, left) =
      let long = length-append (e.name) (e.padding ++ directory_bytes es) in
      let longer = length-append (e.padding) (directory_bytes es) in
      let whole : inode_size inode - file.pos
          ≡ 8 + length (e.name ++ (e.padding ++ directory_bytes es)) =
        sym (length-file_bytes fs inode (file.pos) (inode_size inode - file.pos))
        ∙ ap length left
        ∙ omega arith in
      Returns-bind _ (ext2_read fs file 8) _
        (read_next file 8 (head_bytes e) (e.name ++ (e.padding ++ directory_bytes es)) open_ refl
          (omega (arith, whole)) small left)
        λ (file1, head) (got, o1, at1, left1). rw got (
          Returns-bind _ (ext2_read fs file1 (length (e.name))) _
            (read_next file1 (length (e.name)) (e.name) (e.padding ++ directory_bytes es) o1 refl
              (omega (arith, whole, at1, long)) small left1)
            λ (file2, name) (got2, o2, at2, left2).
              let same : (length (e.name) == length (e.name)) ≡ true = ground arith in
              let rest : sub32 (byte_at (head_bytes e) 4 + 256 * byte_at (head_bytes e) 5)
                    (8 + length (e.name))
                  ≡ length (e.padding) =
                omega (arith, fits) in
              rw (got2, same, rest)
                (Returns-bind _ (ext2_read fs file2 (length (e.padding))) _
                  (read_next file2 (length (e.padding)) (e.padding) (directory_bytes es) o2 refl
                    (omega (arith, whole, at1, at2, long, longer)) small left2)
                  λ (file3, dummy) (got3, o3, at3, left3).
                    (refl, (o3, omega (arith, whole, at1, at2, at3, long, longer), left3))))

  -- Behind the last entry there is too little for another.
  pub no_entry :
      (file : File)
      → inode_size inode + 8 < 12 * fs.block_size
      → At [] file
      → Returns (λ (file', d). d ≡ none) (ext2_next_dirent fs file)
  unfolding ext2_next_dirent directory_bytes
  no_entry file small (open_, le, left) =
      let end : inode_size inode - file.pos ≡ 0 =
        sym (length-file_bytes fs inode (file.pos) (inode_size inode - file.pos))
        ∙ ap length left in
      let nothing : (if ltb (inode_size inode) (file.pos + 8)
            then inode_size inode - file.pos
            else 8)
          ≡ 0 =
        ground arith in
      Returns-bind _ (ext2_read fs file 8) _
        (ext2_read-file_bytes fs inode direct file 8 open_ le (omega arith))
        λ (file', out) (got, o, at).
          let empty : out ≡ [] = got ∙ ap (file_bytes fs inode (file.pos)) nothing in rw empty refl

  find_loop-first_inode :
      (f : ℕ) (file : File) (es : List Entry) (name : List ℕ)
      → AllFit es
      → AllNames es
      → AllBytes name
      → AllNonzero name
      → inode_size inode + 8 < 12 * fs.block_size
      → At es file
      → length es < f
      → find_loop fs f file name ≡ ok (first_inode name es)
  unfolding find_loop dirent_of
  find_loop-first_inode zero file es name fit names bytes nonzero small at fuel =
      absurd (omega arith)
  find_loop-first_inode (suc f) file [] name fit names bytes nonzero small at fuel =
      from_returns (ext2_next_dirent fs file) _ _ (no_entry file small at)
        λ (file', d) nothing. rw nothing refl
  find_loop-first_inode (suc f) file (e ∷ es) name (fit, fits) (b, n, names) bytes nonzero small at
        fuel =
      from_returns (ext2_next_dirent fs file) _ _ (next_entry file e es fit small at)
        λ (file', d) (is, left).
          let same = same_text-text_equal (e.name) name b bytes n nonzero in
          let found = (head-dirent_of e fit).0 in
          let rest =
            find_loop-first_inode f file' es name fits names bytes nonzero small left
              (omega arith) in
          elim (Bool-cases (text_equal (e.name) name)) [
            | inl this ↦ rw (is, same, this) (ap ok found)
            | inr other ↦ rw (is, same, other) rest
          ]

-- Looking a name up in a directory gives the inode of the first entry with that name, or 0 where no entry
-- has it. The inode of the directory can be read, and so can its direct blocks; its contents are the
-- bytes of the entries, and end at least nine bytes before the end of the last direct block; names are
-- of bytes that are not 0.
pub ext2_find_in_dir-first_inode :
    (f : ℕ) (fs : Ext2) (num : ℕ) (inode : Buffer) (es : List Entry) (name : List ℕ)
    → read_inode fs num ≡ ok inode
    → DirectOk fs inode
    → inode_size inode + 8 < 12 * fs.block_size
    → file_bytes fs inode 0 (inode_size inode) ≡ directory_bytes es
    → AllFit es
    → AllNames es
    → AllBytes name
    → AllNonzero name
    → length es < f
    → ext2_find_in_dir f fs num name ≡ ok (first_inode name es)
unfolding ext2_find_in_dir
ext2_find_in_dir-first_inode f fs num inode es name read direct small holds fit names bytes nonzero
      fuel =
    from_returns (ext2_open_inode fs num) _ _ (ext2_open_inode-IsOpen fs num inode read direct)
      λ file (open_, start).
        let begins : file_bytes fs inode (file.pos) (inode_size inode - file.pos)
            ≡ directory_bytes es =
          let whole : inode_size inode - file.pos ≡ inode_size inode = omega (arith, start) in
          ap₂ (file_bytes fs inode) start whole ∙ holds in
        find_loop-first_inode fs inode direct f file es name fit names bytes nonzero small
          (open_, omega (arith, start), begins) fuel

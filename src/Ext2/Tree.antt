-- ===== src/Ext2/Tree.antt =====
-- Paths through a tree of directories.
use studix.Base.{
  ℕ, ◌+◌, ◌*◌, ◌<◌, ◌≡◌, ◌≢◌, ◌∙◌, arith, List, [], ◌∷◌, length, ok, Bool-cases, inl, inr, ◌==◌,
  if◌then◌else◌,
}
use studix.Strings.Text.{AllBytes, AllNonzero}
use studix.Ext2.{
  Buffer, Ext2, inode_size, read_inode, ext2_find_in_dir, ext2_look_up_path, root_inode,
}
use studix.Ext2.Read.{DirectOk, file_bytes}
use studix.Ext2.Paths.{components, walk, ext2_look_up_path-walk}
use studix.Ext2.Directory.{
  Entry, AllFit, AllNames, directory_bytes, first_inode, ext2_find_in_dir-first_inode,
}

-- The inode is a directory with these entries, which a search of f rounds reads to its end.
pub record IsDirectory (f : ℕ) (fs : Ext2) (num : ℕ) (es : List Entry) : Type 0 where
  pub inode : Buffer
  pub readable : read_inode fs num ≡ ok inode
  pub direct : DirectOk fs inode
  pub ends : inode_size inode + 8 < 12 * fs.block_size
  pub holds : file_bytes fs inode 0 (inode_size inode) ≡ directory_bytes es
  pub fit : AllFit es
  pub names : AllNames es
  pub short : length es < f

abbrev pub IsName : List ℕ → Type 0
IsName name = AllBytes name × AllNonzero name

find-first_inode :
    (f : ℕ) (fs : Ext2) (num : ℕ) (es : List Entry) (name : List ℕ)
    → IsDirectory f fs num es
    → IsName name
    → ext2_find_in_dir f fs num name ≡ ok (first_inode name es)
find-first_inode f fs num es name d (bytes, nonzero) =
    ext2_find_in_dir-first_inode f fs num (d.inode) es name (d.readable) (d.direct) (d.ends)
      (d.holds) (d.fit) (d.names) bytes nonzero (d.short)

module _ (f : ℕ) (fs : Ext2) (dirs : ℕ → List Entry) where
  -- Following the names through the entries: 0 as soon as one is missing.
  abbrev pub resolve : (dir : ℕ) → List ℕ → List (List ℕ) → ℕ
  resolve dir name [] = first_inode name (dirs dir)
  resolve dir name (next ∷ names) =
      let d = first_inode name (dirs dir) in
      let rest = resolve d next names in if d == 0 then 0 else rest

  -- Every inode that a name is looked up in on the way is a directory with its entries.
  abbrev pub Leads : (dir : ℕ) → List ℕ → List (List ℕ) → Type 0
  Leads dir name [] = IsDirectory f fs dir (dirs dir) × IsName name
  Leads dir name (next ∷ names) =
      IsDirectory f fs dir (dirs dir)
      × IsName name
      × (first_inode name (dirs dir) ≢ 0 → Leads (first_inode name (dirs dir)) next names)

  walk-resolve :
      (dir : ℕ) (name : List ℕ) (names : List (List ℕ))
      → Leads dir name names
      → walk (ext2_find_in_dir f fs) dir name names ≡ ok (resolve dir name names)
  unfolding walk
  walk-resolve dir name [] (d, n) = find-first_inode f fs dir (dirs dir) name d n
  walk-resolve dir name (next ∷ names) (d, n, leads) =
      elim (Bool-cases (first_inode name (dirs dir) == 0)) [
        | inl missing ↦ rw (find-first_inode f fs dir (dirs dir) name d n, missing)
        | inr there ↦
            let nonzero : first_inode name (dirs dir) ≢ 0 = ground arith in
            rw (find-first_inode f fs dir (dirs dir) name d n, there)
              (walk-resolve (first_inode name (dirs dir)) next names (leads nonzero))
      ]

  -- Looking up an absolute path follows its names from the root through the entries of the directories:
  -- it gives the inode of the last, or 0 where one of them is missing. Each inode that a name is looked
  -- up in is a directory, and the names are of bytes that are not 0.
  pub ext2_look_up_path-resolve :
      (path : List ℕ)
      → (let (name, names) = components path in Leads root_inode name names)
      → let (name, names) = components path in
        ext2_look_up_path f fs (b'/' ∷ path) ≡ ok (resolve root_inode name names)
  ext2_look_up_path-resolve path leads =
      let (name, names) = components path in
      ext2_look_up_path-walk f fs path ∙ walk-resolve root_inode name names leads

-- ===== src/Ext2/Paths.antt =====
-- Looking a path up, component by component.
use studix.Base.{
  ℕ, zero, suc, ◌+◌, ◌<◌, ◌≡◌, refl, fun_ext, ap, false, arith, List, [], ◌∷◌, Option, none, some,
  Result, ok, ◌>>=◌, Bool-cases, inl, inr, ◌==◌, if◌then◌else◌, length,
}
use studix.Ext2.{split_slash, look_up_loop, ext2_look_up_path, ext2_find_in_dir, Ext2, root_inode}

-- The names between the slashes of a path: the first, and those behind it.
unfoldable pub components : List ℕ → List ℕ × List (List ℕ)
components [] = ([], [])
components (c ∷ cs) =
    let (name, names) = components cs in if c == b'/' then ([], name ∷ names) else (c ∷ name, names)

-- Searching each name in the directory that the one before it led to, until one is not found.
unfoldable pub walk : (find : ℕ → List ℕ → Result ℕ) → (dir : ℕ) → List ℕ → List (List ℕ) → Result ℕ
walk find dir name [] = find dir name
walk find dir name (next ∷ names) =
    let rest = λ (d : ℕ). walk find d next names in
    find dir name >>= λ d. if d == 0 then ok 0 else rest d

-- What a split at the first slash has to do with the names.
abbrev SplitOf : List ℕ → List ℕ × Option (List ℕ) → Type 0
SplitOf path (name, none) = components path ≡ (name, [])
SplitOf path (name, some rest) =
    (components path ≡ (name, (components rest).0 ∷ (components rest).1))
    × (length rest < length path)

SplitOf-cons :
    (c : ℕ) (cs : List ℕ) (s : List ℕ × Option (List ℕ))
    → (c == b'/') ≡ false
    → SplitOf cs s
    → SplitOf (c ∷ cs) (c ∷ s.0, s.1)
unfolding components
SplitOf-cons c cs (name, none) e h = rw (e, h)
SplitOf-cons c cs (name, some rest) e h = (rw (e, h.0), omega (arith, h.1))

split_slash-SplitOf : (path : List ℕ) → SplitOf path (split_slash path)
unfolding split_slash
split_slash-SplitOf [] = unfold components in refl
split_slash-SplitOf (c ∷ cs) = elim (Bool-cases (c == b'/')) [
  | inl e ↦ rw e ((unfold components in rw e), omega arith)
  | inr e ↦ rw e (SplitOf-cons c cs (split_slash cs) e (split_slash-SplitOf cs))
]

module _ (find : ℕ → List ℕ → Result ℕ) where
  look_up_step :
      (f dir : ℕ) (path : List ℕ) (s : List ℕ × Option (List ℕ))
      → SplitOf path s
      → ((rest : List ℕ) (d : ℕ)
          → length rest < length path
          → look_up_loop find f d rest ≡ walk find d (components rest).0 (components rest).1)
      → (let (name, more) = s in
          let r : Result ℕ = elim more [
            | none ↦ find dir name
            | some rest ↦ find dir name >>= λ d. if d == 0 then ok 0 else look_up_loop find f d rest
          ] in
          r)
        ≡ walk find dir (components path).0 (components path).1
  unfolding walk
  look_up_step f dir path (name, none) h ih = rw h refl
  look_up_step f dir path (name, some rest) h ih = rw h.0 (
      ap (λ (g : ℕ → Result ℕ). find dir name >>= λ d. if d == 0 then ok 0 else g d)
        (fun_ext λ d. ih rest d h.1))

  look_up_loop-walk :
      (f dir : ℕ) (path : List ℕ)
      → length path < f
      → look_up_loop find f dir path ≡ walk find dir (components path).0 (components path).1
  unfolding look_up_loop
  look_up_loop-walk zero dir path h = absurd (omega arith)
  look_up_loop-walk (suc f) dir path h =
      look_up_step f dir path (split_slash path) (split_slash-SplitOf path)
        λ rest d lt. look_up_loop-walk f d rest (omega arith)

-- An absolute path leads where its names lead, one directory after the other from the root inode on,
-- and to 0 as soon as a name is not found; the search does not run out of rounds.
pub ext2_look_up_path-walk :
    (f : ℕ) (fs : Ext2) (path : List ℕ)
    → ext2_look_up_path f fs (b'/' ∷ path)
      ≡ walk (ext2_find_in_dir f fs) root_inode (components path).0 (components path).1
unfolding ext2_look_up_path
ext2_look_up_path-walk f fs path =
    look_up_loop-walk (ext2_find_in_dir f fs) (length path + 1) root_inode path (omega arith)

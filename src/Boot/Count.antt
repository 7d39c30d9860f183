-- ===== src/Boot/Count.antt =====
-- What the count of files counts.
use studix.Base.{
  ℕ, zero, suc, ◌+◌, ◌<◌, ◌≡◌, ◌≢◌, ◌∙◌, Bool, false, List, [], ◌∷◌, length, arith, Returns,
  Returns-bind, Returns-mono, ◌==◌, if◌then◌else◌, add32,
}
use studix.Memory.{Memory, load32}
use studix.Vfs.{ReadDirFn, FindDirFn, read_dir_node, find_dir_node, file_node}
use studix.Vfs.FsNode
use studix.Boot.{file_count_loop, file_count}

-- How many of them are files.
abbrev pub count_true : List Bool → ℕ
count_true [] = 0
count_true (b ∷ bs) = (if b then 1 else 0) + count_true bs

module _ (S : Type 0) (mem : S → Memory) (call_read_dir : ℕ → ReadDirFn S mem)
    (call_find_dir : ℕ → FindDirFn S mem) (root : ℕ) where
  -- From entry i on the directory lists entries whose names lead to nodes; of each it is said whether its
  -- node is a file. Behind the last of them there is no entry.
  abbrev pub Lists : (i : ℕ) → List Bool → S → Type 0
  Lists i [] s = Returns (λ (s', entry). entry ≡ 0) (read_dir_node S mem call_read_dir root i s)
  Lists i (b ∷ bs) s =
      Returns
        (λ (s1, entry).
          (entry ≢ 0)
          × Returns
              (λ (s2, node).
                (node ≢ 0)
                × ((load32 (mem s2) (FsNode.type node) == file_node) ≡ b)
                × Lists (i + 1) bs s2)
              (find_dir_node S mem call_find_dir root entry s1))
        (read_dir_node S mem call_read_dir root i s)

  file_count_loop_lem :
      (f i count : ℕ) (bs : List Bool) (s : S)
      → Lists i bs s
      → length bs < f
      → i + length bs < 4294967296
      → count + length bs < 4294967296
      → Returns
          (λ (s', n). n ≡ count + count_true bs)
          (file_count_loop S mem call_read_dir call_find_dir f root i count s)
  unfolding file_count_loop
  file_count_loop_lem zero i count bs s lists fuel small fits = absurd (omega arith)
  file_count_loop_lem (suc f) i count [] s lists fuel small fits =
      Returns-bind _ (read_dir_node S mem call_read_dir root i s) _ lists
        λ (s1, entry) end. rw end (omega arith)
  file_count_loop_lem (suc f) i count (b ∷ bs) s lists fuel small fits =
      Returns-bind _ (read_dir_node S mem call_read_dir root i s) _ lists
        λ (s1, entry) (there, found).
          let more : (entry == 0) ≡ false = ground (arith, there) in
          rw more (
            Returns-bind _ (find_dir_node S mem call_find_dir root entry s1) _ found
              λ (s2, node) (leads, type, rest).
                let set : (node == 0) ≡ false = ground (arith, leads) in
                let next : add32 i 1 ≡ i + 1 = omega arith in
                let counted = if b then add32 count 1 else count in
                let total : counted + count_true bs
                    ≡ count + ((if b then 1 else 0) + count_true bs) =
                  ground arith in
                let fits' : counted + length bs < 4294967296 = ground arith in
                rw (set, type, next)
                  (Returns-mono
                    (file_count_loop S mem call_read_dir call_find_dir f root (i + 1) counted s2)
                    (λ (s', n) e. e ∙ total)
                    (file_count_loop_lem f (i + 1) counted bs s2 rest (omega arith) (omega arith)
                      fits')))

  -- Where the directory lists entries that lead to nodes, the count returns the number of those nodes that
  -- are files; there are fewer entries than the fuel has rounds.
  file_count-count_true :
      (f : ℕ) (bs : List Bool) (s : S)
      → Lists 0 bs s
      → length bs < f
      → length bs < 4294967296
      → Returns
          (λ (s', n). n ≡ count_true bs)
          (file_count S mem call_read_dir call_find_dir f root s)
  unfolding file_count
  file_count-count_true f bs s lists fuel small =
      Returns-mono (file_count_loop S mem call_read_dir call_find_dir f root 0 0 s)
        (λ (s', n) e. e ∙ omega arith)
        (file_count_loop_lem f 0 0 bs s lists fuel (omega arith) (omega arith))

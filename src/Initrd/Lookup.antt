-- ===== src/Initrd/Lookup.antt =====
-- Finding a file of the ramdisk by its name.
use studix.Base.{
  ℕ, ◌+◌, ◌<◌, ◌≡◌, ◌≢◌, ◌↔◌, ◌⊎◌, inl, inr, arith, refl, ap, ◌∙◌, subst, List, [], ◌∷◌, length,
  true, Bool-cases, ◌==◌, ℤ, pos, negsuc, ok, Returns, Returns-bind, Returns-mono, ==_iff,
}
use studix.Memory.{Memory}
use studix.Strings.Text.{IsText, strcmp-first_difference, strcmp-eq_iff, first_difference}
use studix.Initrd.{
  Initrd, Linked, memory, root_node, is_zero, same_name, find_node_loop, initrd_find_dir,
}

is_zero_iff : (d : ℤ) → (is_zero d ≡ true) ↔ (d ≡ pos 0)
is_zero_iff (pos n) = (λ e. ap pos ((==_iff n 0).0 e), λ e. ground arith)
is_zero_iff (negsuc n) = (λ e. cc, λ e. cc)

-- On texts, the test says whether they are the same text.
same_name_lem :
    (f : ℕ) (m : Memory) (a b : ℕ) (xs ys : List ℕ)
    → IsText m a xs
    → IsText m b ys
    → length xs < f
    → Returns (λ same. (same ≡ true) ↔ (xs ≡ ys)) (same_name f m a b)
unfolding same_name
same_name_lem f m a b xs ys t u h =
    let d = strcmp-first_difference f m a b xs ys t u h in
    let iff = strcmp-eq_iff f m a b xs ys t u h in
    let zero = is_zero_iff (first_difference xs ys) in
    rw d (λ e. iff.0 (d ∙ ap ok (zero.0 e)), λ e. zero.1 (cc (d, iff.1 e)))

-- The names of the nodes from i on, all of them.
abbrev pub Named : Initrd → (i : ℕ) → List (List ℕ) → Type 0
Named s i [] = Unit
Named s i (xs ∷ rest) = IsText (memory s) (root_node s i) xs × Named s (i + 1) rest

-- r is the first node from i on that has the name, or NULL if none has it.
abbrev pub FirstNamed : Initrd → (i : ℕ) → List (List ℕ) → List ℕ → ℕ → Type 0
FirstNamed s i [] name r = r ≡ 0
FirstNamed s i (xs ∷ rest) name r =
    (name ≡ xs) × (r ≡ root_node s i) ⊎ (name ≢ xs) × FirstNamed s (i + 1) rest name r

find_node_loop-FirstNamed :
    (f : ℕ) (s : Initrd) (names : List (List ℕ)) (i addr : ℕ) (name : List ℕ)
    → Named s i names
    → IsText (memory s) addr name
    → length name < f
    → Returns (FirstNamed s i names name) (find_node_loop f s (length names) i addr)
unfolding find_node_loop
find_node_loop-FirstNamed f s [] i addr name all t h = refl
find_node_loop-FirstNamed f s (xs ∷ rest) i addr name (first, all) t h =
    let next = find_node_loop-FirstNamed f s rest (i + 1) addr name all t h in
    Returns-bind (FirstNamed s i (xs ∷ rest) name) (same_name f (memory s) addr (root_node s i)) _
      (same_name_lem f (memory s) addr (root_node s i) name xs t first h)
      λ same iff. elim (Bool-cases same) [
        | inl e ↦ rw e (inl (iff.0 e, refl))
        | inr e ↦ rw e (
            Returns-mono (find_node_loop f s (length rest) (i + 1) addr)
              (λ r found. inr (λ eq. cc (e, iff.1 eq), found)) next)
      ]

-- In the root, and so in the whole ramdisk, initrd_find_dir returns: `dev` leads to the node of the
-- devices, and any other name to the first node that has it, or to NULL.
pub initrd_find_dir-FirstNamed :
    (f : ℕ) (linked : Linked) (s : Initrd) (names : List (List ℕ)) (addr : ℕ) (name dev : List ℕ)
    → length names ≡ s.num_root_nodes
    → Named s 0 names
    → IsText (memory s) addr name
    → IsText (memory s) linked.dev_text dev
    → length name < f
    → Returns
        (λ r. (name ≡ dev) × (r ≡ s.initrd_dev) ⊎ (name ≢ dev) × FirstNamed s 0 names name r)
        (initrd_find_dir f linked s.initrd_root addr s)
unfolding initrd_find_dir
initrd_find_dir-FirstNamed f linked s names addr name dev count all t d h =
    let root : (s.initrd_root == s.initrd_root) ≡ true = ground arith in
    let others : Returns (FirstNamed s 0 names name) (find_node_loop f s s.num_root_nodes 0 addr) =
      subst (λ n. Returns (FirstNamed s 0 names name) (find_node_loop f s n 0 addr)) count
        (find_node_loop-FirstNamed f s names 0 addr name all t h) in
    rw root (
      Returns-bind _ (same_name f (memory s) addr linked.dev_text) _
        (same_name_lem f (memory s) addr linked.dev_text name dev t d h)
        λ same iff. elim (Bool-cases same) [
          | inl e ↦ rw e (inl (iff.0 e, refl))
          | inr e ↦ rw e (
              Returns-mono (find_node_loop f s s.num_root_nodes 0 addr)
                (λ r found. inr (λ eq. cc (e, iff.1 eq), found)) others)
        ])

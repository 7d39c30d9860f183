-- ===== src/Ext2/Listing.antt =====
-- What ext2_init_fs prints of a directory.
use studix.Base.{
  ℕ, zero, suc, ◌+◌, ◌*◌, ◌<◌, ◌≡◌, refl, false, arith, List, [], ◌∷◌, ◌++◌, length, Result, ok,
  stop, Returns, Returns-bind, leb, codes,
}
use studix.Strings.Text.{AllNonzero}
use studix.Printf.{print_arg, term_printf, term_print_dec}
use studix.Printf.Digits.{PrintsDecimal, term_print_decu-PrintsDecimal}
use studix.Ext2.{Buffer, Ext2, File, dirent_of, inode_size, ext2_next_dirent}
use studix.Ext2.Read.{DirectOk}
use studix.Ext2.Names.{text_of_lem}
use studix.Ext2.Directory.{
  Entry, head_bytes, Fits, AllFit, AllNames, At, head-dirent_of, next_entry, no_entry,
}
use studix.Ext2.Init.{dirent_line, list_loop}

-- The line of an entry: its inode in decimal, and its name.
abbrev pub LineOf : Entry → List ℕ → Type 0
LineOf e out =
    (digits : List ℕ) × PrintsDecimal (e.inode) digits
    × (out ≡ codes "  inode " ++ (digits ++ (codes ", name `" ++ (e.name ++ codes "'\n"))))

-- A line for each entry, in order.
abbrev pub Lines : List Entry → List ℕ → Type 0
Lines [] out = out ≡ []
Lines (e ∷ es) out =
    (line : List ℕ) × (more : List ℕ) × LineOf e line × Lines es more × (out ≡ line ++ more)

-- The value that is returned.
returned : {A : Type 0} {P : A → Type 0} (r : Result A) → Returns P r → (a : A) × (r ≡ ok a) × P a
returned (ok a) h = (a, refl, h)
returned (stop e) h = absurd h

-- Printed as an int, a number below 10^9 has its decimal digits.
term_print_dec-PrintsDecimal :
    (x : ℕ) → x < 1000000000 → Returns (PrintsDecimal x) (term_print_dec 10 x)
unfolding term_print_dec
term_print_dec-PrintsDecimal x lt =
    let positive : leb 2147483648 x ≡ false = ground arith in
    rw positive (term_print_decu-PrintsDecimal x lt)

dirent_line-LineOf :
    (e : Entry)
    → Fits e
    → e.inode < 1000000000
    → AllNonzero (e.name)
    → Returns (LineOf e) (dirent_line 10 (dirent_of (head_bytes e) (e.name)))
unfolding dirent_line term_printf dirent_of print_arg
dirent_line-LineOf e fits lt nonzero =
    let (digits, printed, decimal) =
      returned (term_print_dec 10 (e.inode)) (term_print_dec-PrintsDecimal (e.inode) lt) in
    rw ((head-dirent_of e fits).0, printed, text_of_lem (e.name) nonzero) (digits, decimal, refl)

-- Entries that can be printed.
abbrev pub AllSmall : List Entry → Type 0
AllSmall [] = Unit
AllSmall (e ∷ es) = (e.inode < 1000000000) × AllSmall es

-- From a directory that is open at its entries, the listing prints a line for each of them, in order,
-- with its inode in decimal and its name, and ends. The directory ends at least nine bytes before the
-- end of its last direct block; inodes are below 10^9, and names have no byte 0.
pub list_loop-Lines :
    (fs : Ext2) (inode : Buffer) (rounds : ℕ) (file : File) (es : List Entry)
    → (direct : DirectOk fs inode) → AllFit es
    → AllNames es
    → AllSmall es
    → inode_size inode + 8 < 12 * fs.block_size
    → At fs inode direct es file
    → length es < rounds
    → Returns (Lines es) (list_loop 10 rounds fs file)
unfolding list_loop
list_loop-Lines fs inode zero file es direct fit names small ends at fuel = absurd (omega arith)
list_loop-Lines fs inode (suc rounds) file [] direct fit names small ends at fuel =
    Returns-bind _ (ext2_next_dirent fs file) _ (no_entry fs inode direct file ends at)
      λ (file', d) nothing. rw nothing refl
list_loop-Lines fs inode (suc rounds) file (e ∷ es) direct (fit, fits) (b, n, names) (lt, small)
      ends at fuel =
    Returns-bind _ (ext2_next_dirent fs file) _ (next_entry fs inode direct file e es fit ends at)
      λ (file', d) (is, left).
        let line = dirent_line-LineOf e fit lt n in
        let rest =
          list_loop-Lines fs inode rounds file' es direct fits names small ends left
            (omega arith) in
        rw is (
          Returns-bind _ (dirent_line 10 (dirent_of (head_bytes e) (e.name))) _ line λ out this.
            Returns-bind _ (list_loop 10 rounds fs file') _ rest
              λ more lines. (out, more, this, lines, refl))

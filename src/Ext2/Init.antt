-- ===== src/Ext2/Init.antt =====
-- ext2_init_fs of src/fs/ext2.c, with what it prints: the characters that it passes to term_putchar.
use studix.Base.{
  ℕ, zero, suc, List, [], ◌∷◌, ◌++◌, none, some, Result, ok, stop, fuel, ◌>>=◌, ◌==◌, if◌then◌else◌,
  codes,
}
use studix.Memory.{load32}
use studix.Printf.{word, text, term_printf}
use studix.Ext2.{
  Disk, Buffer, Ext2, File, Dirent, total_blocks, blocks_per_group, inodes_per_group, inode_size,
  load16, load_fs, read_inode, ext2_open_inode, ext2_next_dirent, ext2_look_up_path, text_of,
  root_inode,
}

abbrev pub total_inodes : Buffer → ℕ
total_inodes s = load32 s 0

-- Fields of Ext2_inode.
abbrev pub type_and_permissions : Buffer → ℕ
type_and_permissions inode = load16 inode 0

abbrev pub uid : Buffer → ℕ
uid inode = load16 inode 2

abbrev pub creation_time : Buffer → ℕ
creation_time inode = load32 inode 12

-- The lines that load_superblock prints.
unfoldable pub superblock_lines : (f : ℕ) → Ext2 → Result (List ℕ)
superblock_lines f fs = do
  l1 ← term_printf f (codes " total inodes    = 0x%X\n") (word (total_inodes fs.superblock) ∷ [])
  l2 ← term_printf f (codes " total blocks    = 0x%X\n") (word (total_blocks fs.superblock) ∷ [])
  l3 ← term_printf f (codes " block size      = %b\n") (word fs.block_size ∷ [])
  l4 ← term_printf f (codes " num blocks      = %d\n") (word (total_blocks fs.superblock) ∷ [])
  l5 ← term_printf f (codes " blocks/group    = %d\n") (word (blocks_per_group fs.superblock) ∷ [])
  l6 ← term_printf f (codes " inodes/group    = %d\n") (word (inodes_per_group fs.superblock) ∷ [])
  l7 ← term_printf f (codes " num groups      = %d\n") (word fs.num_groups ∷ [])
  ok (l1 ++ l2 ++ l3 ++ l4 ++ l5 ++ l6 ++ l7)

-- The lines about the root inode.
unfoldable pub root_lines : (f : ℕ) → Buffer → Result (List ℕ)
root_lines f inode = do
  l1 ← term_printf f (codes " / creation time = %d\n") (word (creation_time inode) ∷ [])
  l2 ← term_printf f (codes " / uid           = %d\n") (word (uid inode) ∷ [])
  l3 ← term_printf f (codes " / type & perms  = 0x%X\n") (word (type_and_permissions inode) ∷ [])
  l4 ← term_printf f (codes " / size          = %d\n") (word (inode_size inode) ∷ [])
  ok (l1 ++ l2 ++ l3 ++ l4)

-- The line of a directory entry; %s prints the name up to its terminator.
unfoldable pub dirent_line : (f : ℕ) → Dirent → Result (List ℕ)
dirent_line f d =
    term_printf f (codes "  inode %d, name `%s'\n") (word d.inode_num ∷ text (text_of d.name) ∷ [])

-- The loop over the entries of the root directory, with `rounds` to go.
unfoldable pub list_loop : (f rounds : ℕ) → Ext2 → File → Result (List ℕ)
list_loop f zero fs file = stop fuel
list_loop f (suc rounds) fs file =
    let rest = λ (file' : File). list_loop f rounds fs file' in
    do
      (file', dirent) ← ext2_next_dirent fs file
      elim dirent [
        | none ↦ ok []
        | some d ↦ dirent_line f d >>= λ line. rest file' >>= λ more. ok (line ++ more)
      ]

-- The search for a file at the end.
unfoldable pub search_line : (f rounds : ℕ) → Ext2 → Result (List ℕ)
search_line f rounds fs = do
  inode ← ext2_look_up_path rounds fs (codes "/bar/baz/quux")
  line ←
      (if inode == 0
        then ok (codes " not found\n")
        else term_printf f (codes " found: inode = %d\n") (word inode ∷ []))
  ok (codes " looking for file `/bar/baz/quux'..." ++ line)

-- The file system that is loaded, and what is printed. `f` is the fuel of a number, `rounds` that of a
-- search of a directory.
unfoldable pub ext2_init_fs : (f rounds : ℕ) → Disk → Result (Ext2 × List ℕ)
ext2_init_fs f rounds disk = do
  fs ← load_fs disk
  lines ← superblock_lines f fs
  inode ← read_inode fs root_inode
  root ← root_lines f inode
  file ← ext2_open_inode fs root_inode
  entries ← list_loop f rounds fs file
  search ← search_line f rounds fs
  ok (fs, lines ++ root ++ codes " / files:\n" ++ entries ++ search)

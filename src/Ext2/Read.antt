-- ===== src/Ext2/Read.antt =====
-- ext2_read against the bytes of the file.
use studix.Base.{
  ℕ, zero, suc, ◌+◌, ◌-◌, ◌*◌, ◌/◌, ◌%◌, ◌^◌, ◌≤◌, ◌<◌, ◌≡◌, refl, sym, ap, ap₂, ◌∙◌, Bool, true,
  false, arith, List, [], ◌∷◌, ◌++◌, ◌>>=◌, Returns, Returns-mono, Returns-bind, Bool-cases, ==_iff,
  inl, inr, ltb, lt→ltb, leb, ◌==◌, if◌then◌else◌, u8, add32, sub32, mul32, length,
}
use mathlib.Core.List.{append-nil, append_assoc}
use studix.Memory.Laws.{load32-lt}
use studix.Ext2.{
  Buffer, Ext2, inode_size, dbp, read_block, File, bytes, advance, read_loop, read_count, ext2_read,
}

-- Block b lies on the first 4 GiB of the drive, and the block size is a number of sectors that the
-- drive can be asked for at once.
pub record IsBlockOk (fs : Ext2) (b : ℕ) : Type 0 where
  pub sectors : ℕ
  pub whole : fs.block_size ≡ 512 * sectors
  pub some_sectors : 0 < sectors
  pub few : sectors ≤ 128
  pub placed : b * fs.block_size + fs.block_size ≤ 4294967296

-- The buffer holds block b.
abbrev pub Holds : Ext2 → ℕ → Buffer → Type 0
Holds fs b buf = (x : ℕ) → x < fs.block_size → buf x ≡ fs.disk (b * fs.block_size + x)

-- read_block returns, and with the bytes of that block.
pub read_block-Holds : (fs : Ext2) (b : ℕ) → IsBlockOk fs b → Returns (Holds fs b) (read_block fs b)
unfolding read_block
read_block-Holds fs b is =
    let e : b * fs.block_size ≡ 512 * (b * is.sectors) =
      ap (λ (t : ℕ). b * t) is.whole ∙ omega arith in
    let small : b * fs.block_size < 4294967296 =
      omega (arith, is.placed, is.whole, is.some_sectors) in
    let lba : mul32 b fs.block_size / 512 ≡ b * is.sectors = omega arith in
    let count : fs.block_size / 512 ≡ is.sectors = omega (arith, is.whole) in
    let fits : (b * is.sectors / 2 ^ 28 == 0) ≡ true = ground arith in
    rw (lba, count, fits)
      λ x lt.
        let at : 512 * (b * is.sectors) + x ≡ b * fs.block_size + x = omega arith in
        let inside : ltb x (512 * u8 is.sectors) ≡ true =
          lt→ltb x _ (omega (arith, is.whole, is.few)) in
        rw (inside, at)

module _ (fs : Ext2) (inode : Buffer) where
  -- Byte p of the file, through the direct block pointers.
  abbrev pub file_byte : ℕ → ℕ
  file_byte p = u8 (fs.disk (dbp inode (p / fs.block_size) * fs.block_size + p % fs.block_size))

  -- The n bytes of the file from p on.
  abbrev pub file_bytes : (p n : ℕ) → List ℕ
  file_bytes p zero = []
  file_bytes p (suc n) = file_byte p ∷ file_bytes (p + 1) n

  pub length-file_bytes : (p n : ℕ) → length (file_bytes p n) ≡ n
  length-file_bytes p zero = refl
  length-file_bytes p (suc n) = ap suc (length-file_bytes (p + 1) n)

  pub file_bytes-append :
      (p a b : ℕ) → file_bytes p (a + b) ≡ file_bytes p a ++ file_bytes (p + a) b
  file_bytes-append p zero b =
      let n : 0 + b ≡ b = omega arith in let q : p + 0 ≡ p = omega arith in rw (n, q)
  file_bytes-append p (suc a) b =
      let n : suc a + b ≡ suc (a + b) = omega arith in
      let q : p + suc a ≡ p + 1 + a = omega arith in
      rw (n, q) (ap (λ (l : List ℕ). file_byte p ∷ l) (file_bytes-append (p + 1) a b))

  -- The buffer of an open file holds the block of its position.
  abbrev pub IsOpen : File → Type 0
  IsOpen file =
      (file.inode ≡ inode)
      × (file.curr_block_pos < fs.block_size)
      × (file.block_index < 12)
      × (file.pos ≡ file.block_index * fs.block_size + file.curr_block_pos)
      × Holds fs (dbp inode file.block_index) file.buf

  -- A position inside block i.
  file_byte_at :
      (i x : ℕ)
      → x < fs.block_size
      → file_byte (i * fs.block_size + x) ≡ u8 (fs.disk (dbp inode i * fs.block_size + x))
  file_byte_at i x lt =
      let q : (i * fs.block_size + x) / fs.block_size ≡ i = grind arith in
      let r : (i * fs.block_size + x) % fs.block_size ≡ x = grind arith in rw (q, r)

  bytes-file_bytes :
      (buf : Buffer) (i x n : ℕ)
      → Holds fs (dbp inode i) buf
      → x + n ≤ fs.block_size
      → bytes buf x n ≡ file_bytes (i * fs.block_size + x) n
  bytes-file_bytes buf i x zero holds le = refl
  bytes-file_bytes buf i x (suc n) holds le =
      let next : i * fs.block_size + x + 1 ≡ i * fs.block_size + (x + 1) = omega arith in
      ap₂ ◌∷◌ (ap (λ v. u8 v) (holds x (omega arith)) ∙ sym (file_byte_at i x (omega arith)))
        (bytes-file_bytes buf i (x + 1) n holds (omega arith) ∙ ap (λ p. file_bytes p n) (sym next))

-- Every direct block of the file can be read.
abbrev pub DirectOk : Ext2 → Buffer → Type 0
DirectOk fs inode = (i : ℕ) → i < 12 → IsBlockOk fs (dbp inode i)

module _ (fs : Ext2) (inode : Buffer) (direct : DirectOk fs inode) where
  block_size_bounds : (0 < fs.block_size) × (fs.block_size ≤ 65536)
  block_size_bounds =
      let is = direct 0 (omega arith) in
      (omega (arith, is.whole, is.some_sectors), omega (arith, is.whole, is.few))

  -- A read that ends inside the buffer.
  advance_stays :
      (file : File) (n : ℕ)
      → IsOpen fs inode file
      → file.curr_block_pos + n < fs.block_size
      → Returns
          (λ file'. IsOpen fs inode file' × (file'.pos ≡ file.pos + n))
          (advance fs file n false)
  unfolding advance
  advance_stays file n (same, inside, index, pos, holds) lt =
      let b = block_size_bounds in
      let small : file.block_index * fs.block_size ≤ 12 * 65536 = grind arith in
      ((same, omega arith, index, omega arith, holds), omega arith)

  -- A read up to the end of the buffer, with a direct block behind it.
  advance_next :
      (file : File) (n : ℕ)
      → IsOpen fs inode file
      → file.curr_block_pos + n ≡ fs.block_size
      → file.block_index + 1 < 12
      → Returns
          (λ file'. IsOpen fs inode file' × (file'.pos ≡ file.pos + n))
          (advance fs file n true)
  unfolding advance
  advance_next file n (same, inside, index, pos, holds) ends lt =
      let b = block_size_bounds in
      let small : file.block_index * fs.block_size ≤ 12 * 65536 = grind arith in
      let next : u8 (file.block_index + 1) ≡ file.block_index + 1 = omega arith in
      let direct_next : leb 12 (file.block_index + 1) ≡ false = ground arith in
      let block : IsBlockOk fs (dbp file.inode (file.block_index + 1)) =
        rw same (direct (file.block_index + 1) lt) in
      rw (next, direct_next)
        (Returns-bind _ (read_block fs (dbp file.inode (file.block_index + 1))) _
          (read_block-Holds fs (dbp file.inode (file.block_index + 1)) block)
          λ buf h. ((same, b.0, lt, omega arith, rw (← same) h), omega arith))

  -- What the loop leaves of a file from which `left` bytes were still to be read.
  abbrev Continues : File → (left : ℕ) → List ℕ → File × List ℕ → Type 0
  Continues file left out (file', out') =
      (out' ≡ out ++ file_bytes fs inode file.pos left)
      × IsOpen fs inode file'
      × (file'.pos ≡ file.pos + left)

  -- One round that copies n bytes, and the rest of the loop.
  round-Continues :
      (f left n : ℕ) (new_block : Bool) (file : File) (out : List ℕ)
      → IsOpen fs inode file
      → n ≤ left
      → left < 4294967296
      → file.curr_block_pos + n ≤ fs.block_size
      → Returns
          (λ file'. IsOpen fs inode file' × (file'.pos ≡ file.pos + n))
          (advance fs file n new_block)
      → ((file' : File) (out' : List ℕ)
          → IsOpen fs inode file'
          → file'.pos ≡ file.pos + n
          → Returns (Continues file' (left - n) out') (read_loop fs f (left - n) file' out'))
      → Returns (Continues file left out) (
          advance fs file n new_block >>= λ file'.
          read_loop fs f (sub32 left n) file' (out ++ bytes file.buf file.curr_block_pos n))
  round-Continues f left n new_block file out open_ le small inside moved ih =
      let (same, below, index, pos, holds) = open_ in
      let copied : bytes file.buf file.curr_block_pos n ≡ file_bytes fs inode file.pos n =
        bytes-file_bytes fs inode file.buf file.block_index file.curr_block_pos n holds inside
        ∙ ap (λ p. file_bytes fs inode p n) (sym pos) in
      let rest : sub32 left n ≡ left - n = omega arith in
      rw (rest, copied)
        (Returns-bind (Continues file left out) (advance fs file n new_block) _ moved
          λ file' (o, at).
            Returns-mono (read_loop fs f (left - n) file' (out ++ file_bytes fs inode file.pos n))
              (λ r (e, o', at'). (
                e
                    ∙ append_assoc out (file_bytes fs inode file.pos n)
                        (file_bytes fs inode file'.pos (left - n))
                    ∙ ap (λ l. out ++ l)
                        (ap
                            (λ p.
                              file_bytes fs inode file.pos n ++ file_bytes fs inode p (left - n))
                            at
                          ∙ sym (file_bytes-append fs inode file.pos n (left - n))
                          ∙ ap (file_bytes fs inode file.pos)
                              (let t : n + (left - n) ≡ left = omega arith in t)),
                o',
                omega arith,
              ))
              (ih file' (out ++ file_bytes fs inode file.pos n) o at))

  read_loop-Continues :
      (f left : ℕ) (file : File) (out : List ℕ)
      → IsOpen fs inode file
      → file.pos + left < 12 * fs.block_size
      → left < f
      → Returns (Continues file left out) (read_loop fs f left file out)
  unfolding read_loop
  read_loop-Continues zero left file out open_ ends fuel = absurd (omega arith)
  read_loop-Continues (suc f) left file out open_ ends fuel =
      let b = block_size_bounds in
      let n = fs.block_size - file.curr_block_pos in
      let (same, below, index, pos, holds) = open_ in
      let sum : add32 file.curr_block_pos left ≡ file.curr_block_pos + left = omega arith in
      let whole : sub32 fs.block_size file.curr_block_pos ≡ n = omega arith in
      elim (Bool-cases (left == 0)) [
        | inl done ↦
            let none : left ≡ 0 = (==_iff left 0).0 done in
            rw (done, none) (sym (append-nil out), open_, omega arith)
        | inr more ↦ elim (Bool-cases (leb fs.block_size (file.curr_block_pos + left))) [
          | inl over ↦
              let reaches : fs.block_size ≤ file.curr_block_pos + left = ground arith in
              let further : file.block_index + 1 < 12 = grind arith in
              rw (more, sum, over, whole)
                (round-Continues f left n true file out open_ (omega arith) (omega arith)
                  (omega arith) (advance_next file n open_ (omega arith) further)
                  λ file' out' o at.
                    read_loop-Continues f (left - n) file' out' o (omega arith) (omega arith))
          | inr stays ↦
              let lt : file.curr_block_pos + left < fs.block_size = ground arith in
              let some_left : 0 < left = ground arith in
              rw (more, sum, stays)
                (round-Continues f left left false file out open_ (omega arith) (omega arith)
                  (omega arith) (advance_stays file left open_ lt)
                  λ file' out' o at.
                    read_loop-Continues f (left - left) file' out' o (omega arith) (omega arith))
        ]
      ]

  read_count_lem :
      (file : File) (count : ℕ)
      → IsOpen fs inode file
      → file.pos ≤ inode_size inode
      → file.pos + count < 12 * fs.block_size
      → read_count file count
        ≡ (if ltb (inode_size inode) (file.pos + count) then inode_size inode - file.pos else count)
  unfolding read_count
  read_count_lem file count open_ le ends =
      let b = block_size_bounds in
      let sum : add32 file.pos count ≡ file.pos + count = omega arith in
      let size : inode_size file.inode ≡ inode_size inode = ap inode_size open_.0 in
      let rest : inode_size inode < 4294967296 = load32-lt inode 4 in
      let less : sub32 (inode_size inode) file.pos ≡ inode_size inode - file.pos = omega arith in
      rw (sum, size, less)

  -- As long as the read ends before the end of the last direct block, ext2_read returns: it gives
  -- the bytes of the file from the position on, as many as are asked for or, if the file ends before,
  -- as it has left, and leaves the file open at the position behind them.
  pub ext2_read-file_bytes :
      (file : File) (count : ℕ)
      → IsOpen fs inode file
      → file.pos ≤ inode_size inode
      → file.pos + count < 12 * fs.block_size
      → let n =
          if ltb (inode_size inode) (file.pos + count)
          then inode_size inode - file.pos
          else count in
        Returns
          (λ (file', out).
            (out ≡ file_bytes fs inode file.pos n)
            × IsOpen fs inode file'
            × (file'.pos ≡ file.pos + n))
          (ext2_read fs file count)
  unfolding ext2_read
  ext2_read-file_bytes file count open_ le ends =
      let n =
        if ltb (inode_size inode) (file.pos + count) then inode_size inode - file.pos else count in
      let short : n ≤ count = ground arith in
      rw (read_count_lem file count open_ le ends)
        (read_loop-Continues (n + 1) n file [] open_ (omega arith) (omega arith))

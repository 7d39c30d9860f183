-- ===== src/Ext2Vfs/Buffers.antt =====
-- The bytes of a file in a buffer, and what the buffer leaves alone.
use studix.Base.{
  ℕ, zero, suc, ◌+◌, ◌-◌, ◌≤◌, ◌<◌, ◌≡◌, ◌⊎◌, refl, sym, ap, ap₂, ◌∙◌, true, false, arith, Option,
  List, ◌∷◌, length, u8,
}
use studix.Memory.{Memory, load8, load32}
use studix.Memory.Laws.{load32-same}
use studix.Strings.Bytes.{within}
use studix.Ext2.{Buffer, Ext2, File, bytes, byte_at}
use studix.Ext2.Read.{file_bytes, length-file_bytes}
use studix.Ext2Vfs.{Mounted, put_file, store_text}
use studix.Ext2Vfs.Text.{store_text_lem}

bytes-file_bytes :
    (m : Memory) (fs : Ext2) (inode : Buffer) (buf p n : ℕ)
    → ((j : ℕ) → j < n → load8 m (buf + j) ≡ byte_at (file_bytes fs inode p n) j)
    → bytes m buf n ≡ file_bytes fs inode p n
bytes-file_bytes m fs inode buf p zero same = refl
bytes-file_bytes m fs inode buf p (suc n) same =
    let start : buf + 0 ≡ buf = omega arith in
    ap₂ ◌∷◌ (ap (load8 m) (sym start) ∙ same 0 (omega arith)) (
      bytes-file_bytes m fs inode (buf + 1) (p + 1) n λ j lt.
        let at : buf + 1 + j ≡ buf + suc j = omega arith in
        ap (load8 m) at ∙ same (suc j) (omega arith))

byte_at-lt :
    (fs : Ext2) (inode : Buffer) (p n j : ℕ) → j < n → byte_at (file_bytes fs inode p n) j < 256
byte_at-lt fs inode p zero j lt = absurd (omega arith)
byte_at-lt fs inode p (suc n) zero lt = omega arith
byte_at-lt fs inode p (suc n) (suc j) lt = byte_at-lt fs inode (p + 1) n j (omega arith)

-- Storing the bytes of a file puts them where a read of the buffer finds them.
pub bytes-store_text :
    (m : Memory) (fs : Ext2) (inode : Buffer) (buf p n : ℕ)
    → bytes (store_text m buf (file_bytes fs inode p n)) buf n ≡ file_bytes fs inode p n
bytes-store_text m fs inode buf p n = bytes-file_bytes _ fs inode buf p n λ j lt.
    let long = length-file_bytes fs inode p n in
    let inside : within buf (length (file_bytes fs inode p n)) (buf + j) ≡ true =
      ground (arith, long) in
    let at : buf + j - buf ≡ j = omega arith in
    let small = byte_at-lt fs inode p n j lt in
    ap u8 (store_text_lem m buf (file_bytes fs inode p n) (buf + j)) ∙ rw (inside, at) omega arith

-- The node's words lie outside the buffer.
pub load32-store_text :
    (m : Memory) (buf a : ℕ) (xs : List ℕ)
    → (buf + length xs ≤ a) ⊎ (a + 4 ≤ buf)
    → load32 (store_text m buf xs) a ≡ load32 m a
load32-store_text m buf a xs away = load32-same m (store_text m buf xs) a λ x lo hi.
    let outside : within buf (length xs) x ≡ false = ground arith in
    store_text_lem m buf xs x ∙ rw outside

pub files-put_file : (s : Mounted) (a : ℕ) (file : Option File) → (put_file s a file).files a ≡ file
files-put_file s a file = ground arith

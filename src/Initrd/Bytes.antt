-- ===== src/Initrd/Bytes.antt =====
-- Reading a file of the ramdisk.
use studix.Base.{
  ℕ, ◌+◌, ◌-◌, ◌≤◌, ◌<◌, ◌≡◌, arith, refl, Bool-cases, inl, inr, true, false, ltb, if◌then◌else◌,
  add32, sub32,
}
use studix.Memory.{load8, load32}
use studix.Strings.{memcpy}
use studix.Strings.Bytes.{within, CopiesForward, memcpy-within}
use studix.Vfs.FsNode
use studix.Initrd.{
  Initrd, memory, file_header, header_start, header_length, copy_out, with_memory, initrd_read,
}

-- The header that belongs to a node, and what it says: where the file lies, and how long it is.
abbrev pub node_header : Initrd → ℕ → ℕ
node_header s node = file_header s (load32 (memory s) (FsNode.inode node))

abbrev pub file_start : Initrd → ℕ → ℕ
file_start s node = load32 (memory s) (header_start (node_header s node))

abbrev pub file_length : Initrd → ℕ → ℕ
file_length s node = load32 (memory s) (header_length (node_header s node))

-- How many bytes there are to read.
abbrev pub available : (length offset size : ℕ) → ℕ
available length offset size =
    if ltb length offset then 0 else if ltb length (offset + size) then length - offset else size

module _ (s : Initrd) (start length offset size buf : ℕ) where
  -- What a copy of n bytes from the offset on leaves.
  abbrev CopiedOut : ℕ → Initrd × ℕ → Type 0
  CopiedOut n (s', count) =
      (count ≡ n)
      × ((x : ℕ)
          → memory s' x ≡ (
              if within buf n x then load8 (memory s) (start + offset + (x - buf)) else memory s x))

  copy_out_past : ltb length offset ≡ true → CopiedOut 0 (copy_out s start length offset size buf)
  unfolding copy_out
  copy_out_past past = rw past (refl, λ x. ground arith)

  copied :
      (n : ℕ)
      → n ≤ size
      → start + offset < 4294967296
      → CopiesForward buf (start + offset) size
      → CopiedOut n (with_memory s (memcpy (memory s) buf (add32 start offset) n), n)
  copied n few low apart =
      let at : add32 start offset ≡ start + offset = omega arith in
      rw at (refl, λ x. memcpy-within (memory s) buf (start + offset) n x (omega arith))

  copy_out_inside :
      ltb length offset ≡ false
      → offset + size < 4294967296
      → start + length < 4294967296
      → CopiesForward buf (start + offset) size
      → CopiedOut
          (if ltb length (offset + size) then length - offset else size)
          (copy_out s start length offset size buf)
  unfolding copy_out
  copy_out_inside inside small ends apart =
      let sum : add32 offset size ≡ offset + size = omega arith in
      elim (Bool-cases (ltb length (offset + size))) [
        | inl cut ↦
            let rest : sub32 length offset ≡ length - offset = ground arith in
            rw (inside, sum, cut, rest)
              (copied (length - offset) (ground arith) (ground arith) apart)
        | inr whole ↦ rw (inside, sum, whole) (copied size (omega arith) (ground arith) apart)
      ]

  copy_out-available :
      offset + size < 4294967296
      → start + length < 4294967296
      → CopiesForward buf (start + offset) size
      → CopiedOut (available length offset size) (copy_out s start length offset size buf)
  copy_out-available small ends apart = elim (Bool-cases (ltb length offset)) [
    | inl past ↦ rw past (copy_out_past past)
    | inr inside ↦ rw inside (copy_out_inside inside small ends apart)
  ]

-- Where the offset and the size together are below 2^32, the file ends below 2^32, and the buffer does
-- not lie within what is read, a read gives as many bytes as are asked for or as the file has from the
-- offset on, none behind its end. They are copied to the buffer, and no other byte changes.
pub initrd_read-available :
    (s : Initrd) (node offset size buf : ℕ)
    → offset + size < 4294967296
    → file_start s node + file_length s node < 4294967296
    → CopiesForward buf (file_start s node + offset) size
    → let n = available (file_length s node) offset size in
      ((initrd_read node offset size buf s).1 ≡ n)
      × ((x : ℕ)
          → memory (initrd_read node offset size buf s).0 x ≡ (
              if within buf n x
              then load8 (memory s) (file_start s node + offset + (x - buf))
              else memory s x))
unfolding initrd_read
initrd_read-available s node offset size buf small ends apart =
    copy_out-available s (file_start s node) (file_length s node) offset size buf small ends apart

copy_out_wraps :
    (s : Initrd) (start length offset size buf : ℕ)
    → offset ≤ length
    → size < 4294967296
    → 4294967296 ≤ offset + size
    → (copy_out s start length offset size buf).1 ≡ size
unfolding copy_out
copy_out_wraps s start length offset size buf inside word wraps = ground arith

-- Where the offset and the size together pass 2^32, the test for the end of the file does not see it: as
-- many bytes are read as were asked for.
initrd_read_wraps :
    (s : Initrd) (node offset size buf : ℕ)
    → offset ≤ file_length s node
    → size < 4294967296
    → 4294967296 ≤ offset + size
    → (initrd_read node offset size buf s).1 ≡ size
unfolding initrd_read
initrd_read_wraps s node offset size buf inside word wraps =
    copy_out_wraps s (file_start s node) (file_length s node) offset size buf inside word wraps

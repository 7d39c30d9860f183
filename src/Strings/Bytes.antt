-- ===== src/Strings/Bytes.antt =====
-- memset and memcpy, byte by byte.
use studix.Base.{
  ℕ, zero, suc, ◌+◌, ◌-◌, ◌≤◌, ◌≡◌, ◌⊎◌, Bool, ◌&&◌, arith, u8, ltb, leb, if◌then◌else◌,
}
use studix.Memory.{Memory, load8, store8}
use studix.Strings.{memset_loop, memset, memcpy_loop, memcpy}

-- x lies in the n bytes from s on.
abbrev pub within : ℕ → ℕ → ℕ → Bool
within s n x = leb s x && ltb x (s + n)

memset_loop_lem :
    (left i s c : ℕ) (m : Memory) (x : ℕ)
    → memset_loop left i s c m x ≡ (if within (s + i) left x then u8 c else m x)
unfolding memset_loop store8
memset_loop_lem zero i s c m x = ground arith
memset_loop_lem (suc left) i s c m x =
    ground (arith, memset_loop_lem left (i + 1) s c (store8 m (s + i) c) x)

-- memset writes the byte c to each of the n addresses from s on, and to no other.
pub memset-within :
    (m : Memory) (s c n x : ℕ) → memset m s c n x ≡ (if within s n x then u8 c else m x)
unfolding memset
memset-within m s c n x = ground (arith, memset_loop_lem n 0 s c m x)

-- The two ranges of n bytes share none, or the source lies above the destination.
abbrev pub CopiesForward : ℕ → ℕ → ℕ → Type 0
CopiesForward dest src n = (dest ≤ src) ⊎ (src + n ≤ dest)

memcpy_loop_lem :
    (left i dest src : ℕ) (m : Memory) (x : ℕ)
    → CopiesForward dest src (i + left)
    → memcpy_loop left i dest src m x
      ≡ (if within (dest + i) left x then load8 m (src + (x - dest)) else m x)
unfolding memcpy_loop store8
memcpy_loop_lem zero i dest src m x h = ground arith
memcpy_loop_lem (suc left) i dest src m x h =
    ground
      (arith, memcpy_loop_lem left (i + 1) dest src (store8 m (dest + i) (load8 m (src + i))) x)

-- Where no byte of the source is written before it is read, memcpy gives the n addresses from
-- dest on the bytes that stood from src on, and changes no other address.
pub memcpy-within :
    (m : Memory) (dest src n x : ℕ)
    → CopiesForward dest src n
    → memcpy m dest src n x ≡ (if within dest n x then load8 m (src + (x - dest)) else m x)
unfolding memcpy
memcpy-within m dest src n x h = ground (arith, memcpy_loop_lem n 0 dest src m x)

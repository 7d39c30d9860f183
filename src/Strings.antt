-- ===== src/Strings.antt =====
-- src/lib/string.c: the functions over memory. The loops that stop at a terminator take fuel.
pub mod Bytes
pub mod Text
pub mod Copy
mod Tests
use studix.Base.{
  ℕ, zero, suc, ◌+◌, ◌%◌, Result, ok, stop, fuel, ℤ, pos, negsuc, ltb, ◌==◌, Bool, if◌then◌else◌,
}
use studix.Memory.{Memory, load8, store8}

memset_loop : ℕ → (i s c : ℕ) → Memory → Memory
memset_loop zero i s c m = m
memset_loop (suc left) i s c m = memset_loop left (i + 1) s c (store8 m (s + i) c)

-- The returned pointer, here and below, is the first argument.
unfoldable pub memset : Memory → (s c n : ℕ) → Memory
unfolding memset_loop
memset m s c n = memset_loop n 0 s c m

memcpy_loop : ℕ → (i dest src : ℕ) → Memory → Memory
memcpy_loop zero i dest src m = m
memcpy_loop (suc left) i dest src m =
    memcpy_loop left (i + 1) dest src (store8 m (dest + i) (load8 m (src + i)))

unfoldable pub memcpy : Memory → (dest src n : ℕ) → Memory
unfolding memcpy_loop
memcpy m dest src n = memcpy_loop n 0 dest src m

-- The loop leaves i at the terminator, and `dest[++i]` is the byte behind it.
strcpy_loop : ℕ → (i dest src : ℕ) → Memory → Result Memory
strcpy_loop zero i dest src m = stop fuel
strcpy_loop (suc f) i dest src m =
    let rest = strcpy_loop f (i + 1) dest src (store8 m (dest + i) (load8 m (src + i))) in
    if load8 m (src + i) == 0 then ok (store8 m (dest + (i + 1)) 0) else rest

unfoldable pub strcpy : ℕ → Memory → (dest src : ℕ) → Result Memory
unfolding strcpy_loop
strcpy f m dest src = strcpy_loop f 0 dest src m

-- `char` is signed: its order is that of the bytes with the top bit turned over.
abbrev pub char_lt : ℕ → ℕ → Bool
char_lt a b = ltb ((a + 128) % 256) ((b + 128) % 256)

strcmp_loop : ℕ → (i s1 s2 : ℕ) → Memory → Result ℤ
strcmp_loop zero i s1 s2 m = stop fuel
strcmp_loop (suc f) i s1 s2 m =
    let rest = strcmp_loop f (i + 1) s1 s2 m in
    let a = load8 m (s1 + i) in
    let b = load8 m (s2 + i) in
    if char_lt a b
    then ok (negsuc 0)
    else if char_lt b a
    then ok (pos 1)
    else if a == 0
    then ok (pos 0)
    else rest

unfoldable pub strcmp : ℕ → Memory → (s1 s2 : ℕ) → Result ℤ
unfolding strcmp_loop
strcmp f m s1 s2 = strcmp_loop f 0 s1 s2 m

strlen_loop : ℕ → (len str : ℕ) → Memory → Result ℕ
strlen_loop zero len str m = stop fuel
strlen_loop (suc f) len str m =
    let rest = strlen_loop f (len + 1) str m in
    if load8 m (str + len) == 0 then ok (len + 1) else rest

unfoldable pub strlen : ℕ → Memory → ℕ → Result ℕ
unfolding strlen_loop
strlen f m str = strlen_loop f 0 str m

-- ===== src/Alloc/Give.antt =====
-- Giving blocks back: the checks of free.
use studix.Base.{ℕ, ◌≡◌, refl, ok}
use studix.Kernel.{Kernel, heap_magic}
use studix.Heap.{magic_of, header_of, assoc_footer, header_for}
use studix.Alloc.{free}

-- free of NULL changes nothing.
pub free-null : (k : Kernel) → free k 0 ≡ ok k
unfolding free
free-null k = refl

-- The three checks that free makes of the block behind ptr.
abbrev pub LooksLikeBlock : Kernel → ℕ → Type 0
LooksLikeBlock k ptr =
    let header = header_for ptr in
    let footer = assoc_footer k.mem header in
    (header_of k.mem footer ≡ header)
    × (magic_of k.mem header ≡ heap_magic)
    × (magic_of k.mem footer ≡ heap_magic)

-- ===== src/MakeInitrd/Tests.antt =====
-- The image of a directory with two files.
use studix.Base.{[], ◌∷◌, List}
use studix.MakeInitrd.{DirEntry, special, regular}

abbrev entries : List DirEntry
entries =
    special ∷ regular (b'a' ∷ b'b' ∷ []) (104 ∷ 105 ∷ []) ∷ special ∷ regular (b'c' ∷ []) [] ∷ []

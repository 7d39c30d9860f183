-- ===== src/Heap/Blocks.antt =====
-- Headers and footers in memory.
use studix.Base.{ℕ, ◌+◌, ◌-◌, ◌%◌, ◌≤◌, ◌<◌, ◌≡◌, ◌⊎◌, Bool, not, arith, ◌==◌, add32, ◌∙◌, ap}
use studix.Memory.{Memory, load32, store8, store32}
use studix.Memory.Laws.{load32-store32, load32-store32-Apart, store32_outside}
use studix.Kernel.{heap_magic}
use studix.Paging.{bool_bit}
use studix.Heap.{
  magic_of, is_hole, size_of, header_of, make_header, make_footer, assoc_footer, header_for,
}

-- The three fields of a header.
pub record IsHeader (m : Memory) (h size : ℕ) (hole : Bool) : Type 0 where
  pub magic : magic_of m h ≡ heap_magic
  pub kind : is_hole m h ≡ hole
  pub extent : size_of m h ≡ size

pub record IsFooter (m : Memory) (f h : ℕ) : Type 0 where
  pub magic : magic_of m f ≡ heap_magic
  pub leads : header_of m f ≡ h

-- Memories that agree on [lo, hi).
abbrev pub Agree : (lo hi : ℕ) → Memory → Memory → Type 0
Agree lo hi m m' = (x : ℕ) → lo ≤ x → x < hi → m' x ≡ m x

pub load32-Agree : (m m' : Memory) (a : ℕ) → Agree a (a + 4) m m' → load32 m' a ≡ load32 m a
unfolding load32
load32-Agree m m' a same = ground (arith, same a, same (a + 1), same (a + 2), same (a + 3))

pub make_header_outside :
    (m : Memory) (loc size : ℕ) (hole : Bool) (x : ℕ)
    → (x < loc) ⊎ (loc + 12 ≤ x)
    → make_header m loc size hole x ≡ m x
unfolding make_header store8
make_header_outside m loc size hole x h = ground (
  arith,
  store32_outside (store32 m (loc + 8) size) loc heap_magic x,
  store32_outside m (loc + 8) size x,
)

pub make_footer_outside :
    (m : Memory) (loc header x : ℕ) → (x < loc) ⊎ (loc + 8 ≤ x) → make_footer m loc header x ≡ m x
unfolding make_footer
make_footer_outside m loc header x h =
    store32_outside (store32 m (loc + 4) header) loc heap_magic x (omega arith)
    ∙ store32_outside m (loc + 4) header x (omega arith)

store8_outside :
    (m : Memory) (a v b : ℕ) → (a < b) ⊎ (b + 4 ≤ a) → load32 (store8 m a v) b ≡ load32 m b
unfolding store8 load32
store8_outside m a v b h = ground arith

pub make_header-IsHeader :
    (m : Memory) (loc size : ℕ) (hole : Bool)
    → size < 4294967296
    → IsHeader (make_header m loc size hole) loc size hole
unfolding make_header
make_header-IsHeader m loc size hole h = record {
  magic =
      store8_outside (store32 (store32 m (loc + 8) size) loc heap_magic) (loc + 4) (bool_bit hole)
        loc (omega arith)
      ∙ load32-store32 (store32 m (loc + 8) size) loc heap_magic (omega arith);
  kind = unfold store8 in ground arith;
  extent =
      store8_outside (store32 (store32 m (loc + 8) size) loc heap_magic) (loc + 4) (bool_bit hole)
        (loc + 8) (omega arith)
      ∙ load32-store32-Apart (store32 m (loc + 8) size) loc heap_magic (loc + 8) (omega arith)
      ∙ load32-store32 m (loc + 8) size h;
}

pub make_footer-IsFooter :
    (m : Memory) (loc header : ℕ)
    → header < 4294967296
    → IsFooter (make_footer m loc header) loc header
unfolding make_footer
make_footer-IsFooter m loc header h = record {
  magic = load32-store32 (store32 m (loc + 4) header) loc heap_magic (omega arith);
  leads =
      load32-store32-Apart (store32 m (loc + 4) header) loc heap_magic (loc + 4) (omega arith)
      ∙ load32-store32 m (loc + 4) header h;
}

pub IsHeader-Agree :
    (m m' : Memory) (h size : ℕ) (hole : Bool)
    → Agree h (h + 12) m m'
    → IsHeader m h size hole
    → IsHeader m' h size hole
IsHeader-Agree m m' h size hole same i = record {
  magic = load32-Agree m m' h (λ x p q. same x p (omega arith)) ∙ i.magic;
  kind = ap (λ b. not (b % 256 == 0)) (same (h + 4) (omega arith) (omega arith)) ∙ i.kind;
  extent = load32-Agree m m' (h + 8) (λ x p q. same x (omega arith) (omega arith)) ∙ i.extent;
}

pub IsFooter-Agree :
    (m m' : Memory) (f h : ℕ) → Agree f (f + 8) m m' → IsFooter m f h → IsFooter m' f h
IsFooter-Agree m m' f h same i = record {
  magic = load32-Agree m m' f (λ x p q. same x p (omega arith)) ∙ i.magic;
  leads = load32-Agree m m' (f + 4) (λ x p q. same x (omega arith) (omega arith)) ∙ i.leads;
}

-- A block of the given size at h: a header, and a footer at its end that leads back to it.
pub record IsBlock (m : Memory) (h size : ℕ) (hole : Bool) : Type 0 where
  pub header : IsHeader m h size hole
  pub footer : IsFooter m (h + size - 8) h

pub IsBlock-Agree :
    (m m' : Memory) (h size : ℕ) (hole : Bool)
    → 20 ≤ size
    → Agree h (h + size) m m'
    → IsBlock m h size hole
    → IsBlock m' h size hole
IsBlock-Agree m m' h size hole le same b = record {
  header = IsHeader-Agree m m' h size hole (λ x p q. same x p (omega arith)) b.header;
  footer =
      IsFooter-Agree m m' (h + size - 8) h (λ x p q. same x (omega arith) (omega arith)) b.footer;
}

-- make_header and then make_footer at the block's end make a block.
pub make_footer-IsBlock :
    (m : Memory) (h size : ℕ) (hole : Bool)
    → 0 < h
    → 20 ≤ size
    → h + size ≤ 4294967296
    → IsBlock (make_footer (make_header m h size hole) (h + size - 8) h) h size hole
make_footer-IsBlock m h size hole pos le fits =
    let m1 = make_header m h size hole in
    record {
      header =
          IsHeader-Agree m1 (make_footer m1 (h + size - 8) h) h size hole
            (λ x p q. make_footer_outside m1 (h + size - 8) h x (omega arith))
            (make_header-IsHeader m h size hole (omega arith));
      footer = make_footer-IsFooter m1 (h + size - 8) h (omega arith);
    }

-- Of a block that lies below 2^32, assoc_footer finds the footer.
pub assoc_footer-IsHeader :
    (m : Memory) (h size : ℕ) (hole : Bool)
    → IsHeader m h size hole
    → 20 ≤ size
    → h + size ≤ 4294967296
    → assoc_footer m h ≡ h + size - 8
unfolding assoc_footer
assoc_footer-IsHeader m h size hole i le fits = ground (arith, i.extent)

-- header_for undoes the step from a header to the data behind it.
pub header_for-data : (h : ℕ) → h < 4294967296 → header_for (add32 h 12) ≡ h
unfolding header_for
header_for-data h lt = omega arith

-- ===== src/InitPaging/Loops.antt =====
-- The two loops of init_paging that give frames to pages, over a table that is there.
use studix.Base.{
  ℕ, zero, suc, ◌+◌, ◌*◌, ◌≤◌, ◌<◌, ◌≡◌, refl, subst, inl, inr, false, arith, Result, ltb, add32,
  ◌>>=◌, Bool-cases,
}
use studix.Memory.{Memory}
use studix.Kernel.{Kernel}
use studix.Kmalloc.{HeapAlloc}
use studix.InitPaging.{map_page, identity_loop, heap_loop, heap_init_end}
use studix.InitPaging.Filled.{InOrder, Filled, FillsTo, map_page-FillsTo}

-- One round, where the page is mapped and the rest of the loop is known from the next page on.
FillsTo-bind :
    (k : Kernel) (d t b j n : ℕ) (r : Result Kernel) (rest : Kernel → Result Kernel)
    → FillsTo k d t b j r
    → ((m : Memory) → Filled k d t b j m → FillsTo k d t b n (rest (record k { mem = m })))
    → FillsTo k d t b n (r >>= rest)
FillsTo-bind k d t b j n r rest (m, filled, e) go =
    let (m', filled', e') = go m filled in (m', filled', rw e e')

-- From page j on, the loop over the heap's 256 pages gives them the frames from b on.
pub heap_loop-FillsTo :
    (alloc : HeapAlloc) (k : Kernel) (t b f j : ℕ) (m : Memory)
    → InOrder k 768 t b
    → b + 256 < 4096
    → j ≤ 256
    → 256 ≤ j + f
    → Filled k 768 t b j m
    → FillsTo k 768 t b 256
        (heap_loop alloc (suc f) ((768 * 1024 + j) * 4096) (record k { mem = m }))
unfolding heap_loop
heap_loop-FillsTo alloc k t b zero j m order room up enough filled =
    let e : j ≡ 256 = omega arith in
    let done : ltb ((768 * 1024 + j) * 4096) heap_init_end ≡ false = ground arith in
    rw done (m, subst (λ x. Filled k 768 t b x m) e filled, refl)
heap_loop-FillsTo alloc k t b (suc f) j m order room up enough filled =
    elim (Bool-cases (ltb ((768 * 1024 + j) * 4096) heap_init_end)) [
      | inl more ↦
          let lt : j < 256 = ground arith in
          let next : add32 ((768 * 1024 + j) * 4096) 4096 ≡ (768 * 1024 + (j + 1)) * 4096 =
            omega arith in
          rw (more, next)
            (FillsTo-bind k 768 t b (j + 1) 256
              (map_page alloc ((768 * 1024 + j) * 4096) (record k { mem = m })) _
              (map_page-FillsTo k 768 t b alloc j m order (omega arith) (omega arith) filled)
              λ m' filled'.
                heap_loop-FillsTo alloc k t b f (j + 1) m' order room (omega arith) (omega arith)
                  filled')
      | inr done ↦
          let e : j ≡ 256 = ground arith in
          rw done (m, subst (λ x. Filled k 768 t b x m) e filled, refl)
    ]

-- From page j on, the loop over the n pages below the placement address and the page behind it gives
-- each the frame of its own number.
pub identity_loop-FillsTo :
    (alloc : HeapAlloc) (k : Kernel) (t n f j : ℕ) (m : Memory)
    → InOrder k 0 t 0
    → k.placement_addr + 4096 ≡ n * 4096
    → n ≤ 1024
    → j ≤ n
    → n ≤ j + f
    → Filled k 0 t 0 j m
    → FillsTo k 0 t 0 n (identity_loop alloc (suc f) ((0 * 1024 + j) * 4096) (record k { mem = m }))
unfolding identity_loop
identity_loop-FillsTo alloc k t n zero j m order end room up enough filled =
    let e : j ≡ n = omega arith in
    let done : ltb ((0 * 1024 + j) * 4096) (add32 (k.placement_addr) 4096) ≡ false = ground arith in
    rw done (m, subst (λ x. Filled k 0 t 0 x m) e filled, refl)
identity_loop-FillsTo alloc k t n (suc f) j m order end room up enough filled =
    elim (Bool-cases (ltb ((0 * 1024 + j) * 4096) (add32 (k.placement_addr) 4096))) [
      | inl more ↦
          let lt : j < n = ground arith in
          let next : add32 ((0 * 1024 + j) * 4096) 4096 ≡ (0 * 1024 + (j + 1)) * 4096 =
            omega arith in
          rw (more, next)
            (FillsTo-bind k 0 t 0 (j + 1) n
              (map_page alloc ((0 * 1024 + j) * 4096) (record k { mem = m })) _
              (map_page-FillsTo k 0 t 0 alloc j m order (omega arith) (omega arith) filled)
              λ m' filled'.
                identity_loop-FillsTo alloc k t n f (j + 1) m' order end room (omega arith)
                  (omega arith) filled')
      | inr done ↦
          let e : j ≡ n = ground arith in
          rw done (m, subst (λ x. Filled k 0 t 0 x m) e filled, refl)
    ]

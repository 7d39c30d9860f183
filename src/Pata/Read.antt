-- ===== src/Pata/Read.antt =====
-- What a read leaves in memory.
use studix.Base.{
  ℕ, zero, suc, ◌+◌, ◌-◌, ◌*◌, ◌%◌, ◌≤◌, ◌<◌, ◌≡◌, ◌⊎◌, arith, inl, inr, Returns, Returns-bind,
  Returns-mono, Bool-cases, ltb, ltb→le, ap, ◌∙◌, sym, subst, refl,
}
use studix.Memory.{Memory, store8}
use studix.Ports.{Ports}
use studix.Pata.{store16, insw, sectors_loop, data_port, poll}
use studix.Pata.Drive.{AtaDrive, disk_word}
use studix.Pata.Poll.{poll-Ready}

-- The words k to k + n of a disk stand at `to`, and all else is as before.
abbrev pub Filled : (disk : ℕ → ℕ) → Memory → (to k n : ℕ) → Memory → Type 0
Filled disk m to k n m' =
    ((j : ℕ) → j < 2 * n → m' (to + j) ≡ disk (2 * k + j) % 256)
    × ((x : ℕ) → (x < to) ⊎ (to + 2 * n ≤ x) → m' x ≡ m x)

module _ (disk : ℕ → ℕ) where
  Filled-none : (m : Memory) (to k : ℕ) → Filled disk m to k 0 m
  Filled-none m to k = (λ j h. absurd (omega arith), λ x h. refl)

  Filled-word : (m : Memory) (to k : ℕ) → Filled disk m to k 1 (store16 m to (disk_word disk k))
  unfolding store16 store8
  Filled-word m to k = (byte, λ x h. ground arith)
    where
      byte : (j : ℕ) → j < 2 * 1 → store16 m to (disk_word disk k) (to + j) ≡ disk (2 * k + j) % 256
      byte zero h = let at : 2 * k + 0 ≡ 2 * k = omega arith in rw at (ground arith)
      byte (suc zero) h = ground arith
      byte (suc (suc j)) h = absurd (omega arith)

  Filled-append :
      (m m1 m2 : Memory) (to k a b : ℕ)
      → Filled disk m to k a m1
      → Filled disk m1 (to + 2 * a) (k + a) b m2
      → Filled disk m to k (a + b) m2
  Filled-append m m1 m2 to k a b (in1, out1) (in2, out2) =
      (inside, λ x h. out2 x (omega arith) ∙ out1 x (omega arith))
    where
      inside : (j : ℕ) → j < 2 * (a + b) → m2 (to + j) ≡ disk (2 * k + j) % 256
      inside j h = elim (Bool-cases (ltb j (2 * a))) [
        | inl e ↦ out2 (to + j) (ground arith) ∙ in1 j (ground arith)
        | inr e ↦
            let i = j - 2 * a in
            let le : 2 * a ≤ j = ltb→le j (2 * a) e in
            let here : to + 2 * a + i ≡ to + j = omega arith in
            let there : 2 * (k + a) + i ≡ 2 * k + j = omega arith in
            ap m2 (sym here) ∙ in2 i (omega arith) ∙ ap (λ t. disk t % 256) there
      ]

  module _ (ports : Ports) (base unit : ℕ) (drive : AtaDrive ports base unit disk) where
    open drive use {busy, Sending, limit, busy_limit, data_word, data_ready}

    later :
        (n k e : ℕ) (s : ports.State)
        → k % 256 + suc n ≤ 256
        → Sending s k e
        → busy s ≡ 0
        → n ≡ 0 ⊎ (busy (ports.inw (base + data_port) s).1 ≡ 0)
    later zero k e s sector send now = inl refl
    later (suc n) k e s sector send now = inr (data_ready s k e send now (omega arith))

    -- n words within one sector.
    insw-Filled :
        (n k e to : ℕ) (m : Memory) (s : ports.State)
        → Sending s k e
        → n ≡ 0 ⊎ (busy s ≡ 0)
        → k + n ≤ e
        → k % 256 + n ≤ 256
        → let (m', s') = insw ports n (base + data_port) to (m, s) in
          Filled disk m to k n m' × Sending s' (k + n) e
    unfolding insw
    insw-Filled zero k e to m s send idle fits sector =
        (Filled-none m to k, subst (λ t. Sending s t e) (omega arith) send)
    insw-Filled (suc n) k e to m s send idle fits sector =
        let now : busy s ≡ 0 = omega arith in
        let (word, sent) = data_word s k e send now (omega arith) in
        let m1 = store16 m to (ports.inw (base + data_port) s).0 in
        let ready : n ≡ 0 ⊎ (busy (ports.inw (base + data_port) s).1 ≡ 0) =
          later n k e s sector send now in
        let (rest, done) =
          insw-Filled n (k + 1) e (to + 2) m1 (ports.inw (base + data_port) s).1 sent ready
            (omega arith) (omega arith) in
        let first : Filled disk m to k 1 m1 =
          subst (λ w. Filled disk m to k 1 (store16 m to w)) (sym word) (Filled-word m to k) in
        let count : 1 + n ≡ suc n = omega arith in
        let last =
          insw ports n (base + data_port) (to + 2) (m1, (ports.inw (base + data_port) s).1) in
        (
          subst (λ t. Filled disk m to k t last.0) count
              (Filled-append m m1 last.0 to k 1 n first rest),
          subst (λ t. Sending last.1 t e) (omega arith) done,
        )

    -- The loop over the sectors, with fuel for the longest wait.
    pub sectors_loop-Filled :
        (f count e i buf : ℕ) (k : ℕ) (m : Memory) (s : ports.State)
        → limit < f
        → Sending s k e
        → k + 256 * count ≤ e
        → k % 256 ≡ 0
        → Returns
            (λ r. Filled disk m (buf + 2 * i) k (256 * count) r.0)
            (sectors_loop ports f base count i buf (m, s))
    unfolding sectors_loop
    sectors_loop-Filled f zero e i buf k m s fuel send fits start = Filled-none m (buf + 2 * i) k
    sectors_loop-Filled f (suc count) e i buf k m s fuel send fits start =
        Returns-bind _ (poll ports f base s) _
          (poll-Ready ports base unit disk drive f k e s (omega (arith, busy_limit s k e send))
            send)
          λ s' (idle, send').
            let (here, sent) =
              insw-Filled 256 k e (buf + 2 * i) m s' send' (inr idle) (omega arith) (omega arith) in
            let m1 = (insw ports 256 (base + data_port) (buf + 2 * i) (m, s')).0 in
            let next : buf + 2 * (i + 256) ≡ buf + 2 * i + 2 * 256 = omega arith in
            let all : 256 + 256 * count ≡ 256 * suc count = omega arith in
            Returns-mono _
              (λ (r : Memory × ports.State) rest.
                subst (λ t. Filled disk m (buf + 2 * i) k t r.0) all
                  (Filled-append m m1 r.0 (buf + 2 * i) k 256 (256 * count) here
                    (subst (λ t. Filled disk m1 t (k + 256) (256 * count) r.0) next rest)))
              (sectors_loop-Filled f count e (i + 256) buf (k + 256) m1 _ fuel sent (omega arith)
                (omega arith))

-- ===== src/Pata/Poll.antt =====
-- Waiting for the drive.
use studix.Base.{
  ℕ, zero, suc, ◌+◌, ◌-◌, ◌<◌, ◌≡◌, ◌≢◌, ◌↔◌, arith, Returns, Bool-cases, inl, inr, ==_iff, ◌==◌,
  true, false, bit_and,
}
use studix.Ports.{Ports}
use studix.Pata.{read_stat, poll, bsy, com_stat}
use studix.Pata.Drive.{AtaDrive}

module _ (ports : Ports) (base unit : ℕ) (disk : ℕ → ℕ)
    (drive : AtaDrive ports base unit disk) where
  open drive use {
    busy, Sending, limit, busy_limit, status_clear, status_set, status_busy, status_Sending,
  }

  -- The state after n readings of the status.
  abbrev after : ℕ → ports.State → ports.State
  after zero s = s
  after (suc n) s = (ports.inb (base + com_stat) (after n s)).1

  after-busy : (n : ℕ) (s : ports.State) → busy (after n s) ≡ busy s - n
  after-busy zero s = omega arith
  after-busy (suc n) s = omega (arith, after-busy n s, status_busy (after n s))

  after-Sending : (n k e : ℕ) (s : ports.State) → Sending s k e → Sending (after n s) k e
  after-Sending zero k e s h = h
  after-Sending (suc n) k e s h = status_Sending (after n s) k e (after-Sending n k e s h)

  -- The bit BSY of a status is clear exactly when the drive was no longer busy.
  clear_iff :
      (s : ports.State)
      → ((bit_and (ports.inb (base + com_stat) s).0 bsy == 0) ≡ true) ↔ (busy s ≡ 0)
  clear_iff s = (
    λ e. elim (Bool-cases (busy s == 0)) [
      | inl idle ↦ (==_iff (busy s) 0).0 idle
      | inr held ↦
          absurd (status_set s (λ z. cc (held, (==_iff (busy s) 0).1 z)) ((==_iff _ 0).0 e))
    ],
    λ z. (==_iff _ 0).1 (status_clear s z),
  )

  held :
      (s : ports.State)
      → (bit_and (read_stat ports base s).0 bsy == 0) ≡ false
      → busy (after 4 s) ≢ 0
  unfolding read_stat
  held s more z = cc (more, (clear_iff (after 4 s)).1 z)

  -- poll returns as soon as the drive is no longer busy, for which the fuel of one round more than
  -- the drive stays busy is enough; what the drive has to send is as before.
  pub poll-Ready :
      (f k e : ℕ) (s : ports.State)
      → busy s < f
      → Sending s k e
      → Returns (λ s'. (busy s' ≡ 0) × Sending s' k e) (poll ports f base s)
  unfolding poll
  poll-Ready zero k e s h send = absurd (omega arith)
  poll-Ready (suc f) k e s h send =
      elim (Bool-cases (bit_and (read_stat ports base s).0 bsy == 0)) [
        | inl done ↦ rw done (
          omega (arith, after-busy 5 s, after-busy 4 s, (clear_iff (after 4 s)).0 done),
          after-Sending 5 k e s send,
        )
        | inr more ↦ rw more (
            poll-Ready f k e (after 5 s)
              (omega (arith, after-busy 5 s, after-busy 4 s, held s more))
              (after-Sending 5 k e s send))
      ]

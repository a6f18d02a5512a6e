-- ===== src/Spin/Rw/Inv.antt =====
-- The invariant of `RawRwSpin` in src/spin.rs, over every interleaving of its callers.
use amity.Prelude.{ℕ, ◌≤◌, ◌<◌, refl, arith, ◌==◌, inl, Bool-cases, inr}
use amity.Threads.{at, sum, sum-at, sum-le, sum_mono, sum-zero}
use amity.Spin.Rw.{Pc, idle, System, pick, Reach, start, later, new, shared_lock_threshold}
use amity.Spin.Rw.Count.{
  shares, reads, queued, writes, shares-le, reads-le-shares, Fits, IsSane, Traded, Move-Fits,
  Move-IsSane,
}

module _ (n : ℕ) where
  pub record Inv (s : System) : Type 0 where
    pub fits :
        Fits s.lock (sum shares n s.pc) (sum reads n s.pc) (sum queued n s.pc) (sum writes n s.pc)
    pub sane : (i : ℕ) → IsSane (s.pc i)

module _ {n : ℕ} (few : n ≤ shared_lock_threshold) where
  traded :
      (pc : ℕ → Pc) (i : ℕ) (p' : Pc)
      → i < n
      → IsSane (pc i)
      → Traded
          (pc i)
          p'
          (sum shares n pc)
          (sum reads n pc)
          (sum queued n pc)
          (sum writes n pc)
          (sum shares n (at pc i p'))
          (sum reads n (at pc i p'))
          (sum queued n (at pc i p'))
          (sum writes n (at pc i p'))
  traded pc i p' lt sane = record {
    shares_eq = sum-at shares n pc i p' lt;
    reads_eq = sum-at reads n pc i p' lt;
    queued_eq = sum-at queued n pc i p' lt;
    writes_eq = sum-at writes n pc i p' lt;
    sane = sane;
    reads_in = sum_mono reads shares reads-le-shares n (at pc i p');
    few = omega (arith, sum-le shares shares-le n (at pc i p'));
  }

  at-IsSane :
      (pc : ℕ → Pc) (i : ℕ) (p' : Pc)
      → ((j : ℕ) → IsSane (pc j))
      → IsSane p'
      → (j : ℕ) → IsSane (at pc i p' j)
  at-IsSane pc i p' old new_one j = elim (Bool-cases (i == j)) [
    | inl e ↦ rw e new_one
    | inr e ↦ rw e (old j)
  ]

  -- In every state that at most `shared_lock_threshold` callers reach, the word is made up of the
  -- counts of those who wait or read, who are queued, and who write.
  pub Reach-Inv : {s : System} → Reach n s → Inv n s
  unfolding new
  Reach-Inv start = record { fits = begin; sane = λ i. tt }
    where
      begin :
          Fits 0
            (sum shares n (λ i. idle))
            (sum reads n (λ i. idle))
            (sum queued n (λ i. idle))
            (sum writes n (λ i. idle))
      begin =
          rw
            (
              sum-zero shares n (λ i. idle) (λ i. refl),
              sum-zero reads n (λ i. idle) (λ i. refl),
              sum-zero queued n (λ i. idle) (λ i. refl),
              sum-zero writes n (λ i. idle) (λ i. refl),
            )
            (omega arith)
  Reach-Inv (later {s} r (pick i {p = p'} lt mv)) =
      let inv = Reach-Inv r in
      record {
        fits = Move-Fits mv inv.fits (traded s.pc i p' lt (inv.sane i));
        sane = at-IsSane s.pc i p' inv.sane (Move-IsSane mv);
      }

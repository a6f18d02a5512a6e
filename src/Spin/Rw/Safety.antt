-- ===== src/Spin/Rw/Safety.antt =====
-- What `RawRwSpin` of src/spin.rs guarantees in every state that its callers reach.
use amity.Prelude.{ℕ, ◌≤◌, ◌<◌, ◌≡◌, ◌≢◌, refl, arith, true, false, ℕ_discrete, ap}
use amity.Threads.{sum, two_weights-le-sum, weight-le-sum, sum-zero}
use amity.Spin.Rw.{
  Pc, idle, reader, writer, System, Reach, shared_lock_threshold, is_locked_exclusive,
  locks_count_check,
}
use amity.Spin.Rw.Count.{shares, reads, queued, writes, Fits}
use amity.Spin.Rw.Inv.{Reach-Inv}

writes-zero : (p : Pc) → p ≢ writer → writes p ≡ 0
writes-zero writer h = absurd (h refl)
writes-zero _ h = refl

module _ {n : ℕ} {s : System} (few : n ≤ shared_lock_threshold) (r : Reach n s) where
  -- In every state that at most `shared_lock_threshold` callers reach: while one holds the
  -- exclusive lock, no other one does, and none holds the shared lock.
  pub writer_alone :
      (i j : ℕ) → i < n → j < n → s.pc i ≡ writer → (s.pc j ≡ writer → i ≡ j) × (s.pc j ≢ reader)
  writer_alone i j lt lt' at_i = (same, λ at_j. no_reader at_j)
    where
      fits :
          Fits s.lock (sum shares n s.pc) (sum reads n s.pc) (sum queued n s.pc) (sum writes n s.pc)
      fits = (Reach-Inv few r).fits

      same : s.pc j ≡ writer → i ≡ j
      same at_j = elim (ℕ_discrete i j) [
        | yes e ↦ e
        | no ne ↦ absurd (
            omega (
              arith,
              two_weights-le-sum writes n s.pc i j lt lt' ne,
              ap writes at_i,
              ap writes at_j,
              fits.one_writer,
            ))
      ]

      no_reader : s.pc j ≢ reader
      no_reader at_j = omega (
        arith,
        weight-le-sum writes n s.pc i lt,
        weight-le-sum reads n s.pc j lt',
        ap writes at_i,
        ap reads at_j,
        fits.no_reader,
      )

  -- In every state that at most `shared_lock_threshold` callers reach: when no caller is inside
  -- any operation and none holds the lock, the word is 0.
  pub idle_word : ((i : ℕ) → s.pc i ≡ idle) → s.lock ≡ 0
  idle_word rest = omega (
    arith,
    (Reach-Inv few r).fits.word_eq,
    sum-zero shares n s.pc (λ i. ap shares (rest i)),
    sum-zero queued n s.pc (λ i. ap queued (rest i)),
    sum-zero writes n s.pc (λ i. ap writes (rest i)),
  )

  -- In every state that at most `shared_lock_threshold` callers reach, the debug build's check of
  -- the word does not panic.
  pub checks_pass : locks_count_check s.lock ≡ true
  unfolding locks_count_check
  checks_pass = ground (arith, (Reach-Inv few r).fits)

  -- `is_locked_exclusive` answers for the callers: it holds if one has the exclusive lock, and not if
  -- none has.
  pub is_locked_exclusive_lem :
      ((i : ℕ) → i < n → s.pc i ≡ writer → is_locked_exclusive s.lock ≡ true)
      × (((i : ℕ) → s.pc i ≢ writer) → is_locked_exclusive s.lock ≡ false)
  unfolding is_locked_exclusive
  is_locked_exclusive_lem = (
    λ i lt at_i.
        ground (arith, (Reach-Inv few r).fits, weight-le-sum writes n s.pc i lt, ap writes at_i),
    λ none_writes. ground (
      arith,
      (Reach-Inv few r).fits,
      sum-zero writes n s.pc (λ i. writes-zero (s.pc i) (none_writes i)),
    ),
  )

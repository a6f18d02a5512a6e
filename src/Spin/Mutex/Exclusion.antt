-- ===== src/Spin/Mutex/Exclusion.antt =====
-- Mutual exclusion for `RawSpin` of src/spin.rs.
use amity.Prelude.{ℕ, ◌+◌, ◌<◌, ◌≡◌, ◌≢◌, refl, Bool, true, not, ℕ_discrete, arith, if◌then◌else◌}
use amity.Threads.{sum, sum-at, two_weights-le-sum, sum-zero}
use amity.Spin.Mutex.{
  Pc, idle, holding, Move, trying, failing, calling, taking, missing, spinning, seeing, releasing,
  System, pick, Reach, start, later, new, fetch_or, try_lock, unlock,
}

abbrev pub holds : Pc → ℕ
holds holding = 1
holds _ = 0

abbrev pub as_number : Bool → ℕ
as_number b = if b then 1 else 0

Move-holds :
    {lock lock' : Bool} {p p' : Pc}
    → Move lock p lock' p'
    → (k k' : ℕ) → k ≡ as_number lock
    → k' + holds p ≡ k + holds p'
    → k' ≡ as_number lock'
unfolding fetch_or try_lock unlock
Move-holds (trying e t) k k' h g = ground arith
Move-holds (failing e t) k k' h g = ground arith
Move-holds calling k k' h g = ground arith
Move-holds (taking e) k k' h g = ground arith
Move-holds (missing e) k k' h g = ground arith
Move-holds (spinning e) k k' h g = ground arith
Move-holds (seeing e) k k' h g = ground arith
Move-holds releasing k k' h g = ground arith

holds-zero : (p : Pc) → p ≢ holding → holds p ≡ 0
holds-zero holding h = absurd (h refl)
holds-zero _ h = refl

-- The flag is set exactly while one caller holds the lock, and never do two hold it.
pub Reach-holds : {n : ℕ} {s : System} → Reach n s → sum holds n s.pc ≡ as_number s.lock
unfolding new
Reach-holds {n} start = sum-zero holds n (λ i. idle) (λ i. refl)
Reach-holds {n} (later {s} r (pick i {p = p} lt mv)) =
    Move-holds mv (sum holds n s.pc) _ (Reach-holds r) (sum-at holds n s.pc i p lt)

-- In every state that callers reach, no two of them hold the lock, and if none does, a `try_lock`
-- gets it.
pub mutual_exclusion :
    {n : ℕ} {s : System}
    → Reach n s
    → ((i j : ℕ) → i < n → j < n → s.pc i ≡ holding → s.pc j ≡ holding → i ≡ j)
      × (((i : ℕ) → s.pc i ≢ holding) → (try_lock s.lock).0 ≡ true)
unfolding try_lock fetch_or
mutual_exclusion {n} {s} r = (alone, free)
  where
    alone : (i j : ℕ) → i < n → j < n → s.pc i ≡ holding → s.pc j ≡ holding → i ≡ j
    alone i j h k p q = elim (ℕ_discrete i j) [
      | yes e ↦ e
      | no ne ↦ absurd (ground (arith, two_weights-le-sum holds n s.pc i j h k ne, Reach-holds r))
    ]

    free : ((i : ℕ) → s.pc i ≢ holding) → not s.lock ≡ true
    free none_holds =
        ground
          (arith, Reach-holds r, sum-zero holds n s.pc (λ i. holds-zero (s.pc i) (none_holds i)))

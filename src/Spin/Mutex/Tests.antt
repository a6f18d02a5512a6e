-- ===== src/Spin/Mutex/Tests.antt =====
-- `RawSpin` of src/spin.rs, where the first of two callers has taken the lock.
use amity.Prelude.{ℕ, ◌<◌, ◌≡◌, ◌≢◌, refl, arith, true, false}
use amity.Threads.{at}
use amity.Spin.Mutex.{
  idle, locking, waiting, holding, trying, calling, missing, System, pick, Reach, start, later, new,
  is_locked, fetch_or, try_lock, unlock,
}
use amity.Spin.Mutex.Exclusion.{mutual_exclusion}
use amity.Spin.Mutex.Progress.{Own, Freed, waits, spin_can_lock}

abbrev taken : System
taken = record { lock = true; pc = at (λ i. idle) 0 holding }

taken-Reach : Reach 2 taken
unfolding new try_lock fetch_or
taken-Reach = later start (pick 0 (omega arith) (trying refl refl))

flag_runs :
    (is_locked taken.lock ≡ true) × ((try_lock taken.lock).0 ≡ false) × (unlock taken.lock ≡ false)
unfolding is_locked try_lock fetch_or unlock
flag_runs = (refl, refl, refl)

mutual_exclusion_example :
    ((i j : ℕ) → i < 2 → j < 2 → taken.pc i ≡ holding → taken.pc j ≡ holding → i ≡ j)
    × (((i : ℕ) → taken.pc i ≢ holding) → (try_lock taken.lock).0 ≡ true)
mutual_exclusion_example = mutual_exclusion taken-Reach

-- The second caller is in the inner loop of `lock`.
abbrev waited : System
waited = record { lock = true; pc = at (at taken.pc 1 locking) 1 waiting }

waited-Reach : Reach 2 waited
unfolding fetch_or
waited-Reach =
    later (later taken-Reach (pick 1 (omega arith) calling)) (pick 1 (omega arith) (missing refl))

spin_can_lock_example :
    (u : System) × Freed 2 waited u × ((t : System) × Own 2 1 u t × (t.pc 1 ≡ holding))
spin_can_lock_example = spin_can_lock 1 (omega arith) waited-Reach waits

-- ===== src/Spin/Mutex.antt =====
-- `RawSpin` of src/spin.rs: its flag, and the steps of a caller. An operation returns its answer
-- and the new flag.
pub mod Exclusion
pub mod Progress
mod Tests
use amity.Prelude.{ℕ, ◌<◌, ◌≡◌, Bool, true, false, not, ◌||◌}
use amity.Threads.{at}

pub new : Bool
new = false

pub is_locked : Bool → Bool
is_locked lock = lock

-- `fetch_or(true)`: the old flag, and the new one.
pub fetch_or : Bool → Bool × Bool
fetch_or lock = (lock, lock || true)

pub try_lock : Bool → Bool × Bool
unfolding fetch_or
try_lock lock = let (old, after) = fetch_or lock in (not old, after)

pub unlock : Bool → Bool
unlock lock = false

-- Where a caller stands.
pub data Pc : Type 0 where
  idle : Pc
  locking : Pc  -- in `lock`, before the `fetch_or` of the outer loop
  waiting : Pc  -- in `lock`, before a load of the inner loop
  holding : Pc

-- One step of a caller, from a flag to a flag. Only a caller that holds the lock unlocks it.
pub data Move (lock : Bool) : Pc → Bool → Pc → Type 0 where
  trying :
      {taken after : Bool}
      → try_lock lock ≡ (taken, after)
      → taken ≡ true
      → Move lock idle after holding
  failing :
      {taken after : Bool}
      → try_lock lock ≡ (taken, after)
      → taken ≡ false
      → Move lock idle after idle
  calling : Move lock idle lock locking
  taking : {after : Bool} → fetch_or lock ≡ (false, after) → Move lock locking after holding
  missing : {after : Bool} → fetch_or lock ≡ (true, after) → Move lock locking after waiting
  spinning : is_locked lock ≡ true → Move lock waiting lock waiting
  seeing : is_locked lock ≡ false → Move lock waiting lock locking
  releasing : Move lock holding (unlock lock) idle

pub record System : Type 0 where
  pub lock : Bool
  pub pc : ℕ → Pc

pub data Step (n : ℕ) (s : System) : System → Type 0 where
  pick :
      (i : ℕ) {lock' : Bool} {p : Pc}
      → i < n
      → Move s.lock (s.pc i) lock' p
      → Step n s (record { lock = lock'; pc = at s.pc i p })

pub data Reach (n : ℕ) : System → Type 0 where
  start : Reach n (record { lock = new; pc = λ i. idle })
  later : {s t : System} → Reach n s → Step n s t → Reach n t

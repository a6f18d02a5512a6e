-- ===== src/Spin/Rw.antt =====
-- `RawRwSpin` of src/spin.rs: its word, the single-word operations, and the steps of a caller as the
-- release build makes them. The counts of callers that wait, and of those that hold the lock, are
-- the low bits of the word; above them stand the bit of a queued exclusive caller and the bit of the
-- exclusive holder.
pub mod Count
pub mod Inv
pub mod Safety
pub mod Progress
mod Tests
use amity.Prelude.{
  ℕ, ◌+◌, ◌/◌, ◌≤◌, ◌<◌, ◌≡◌, ◌≢◌, ◌⊎◌, Bool, true, false, ltb, leb, ◌==◌, if◌then◌else◌, usize_max,
  add_word, sub_word,
}
use amity.Threads.{at}

abbrev pub shared_lock_threshold : ℕ
shared_lock_threshold = usize_max / 32 + 1

abbrev pub exclusive_pending : ℕ
exclusive_pending = usize_max / 4 + 1

abbrev pub exclusive_locked : ℕ
exclusive_locked = usize_max / 2 + 1

pub new : ℕ
new = 0

pub is_locked_exclusive : ℕ → Bool
is_locked_exclusive lock = leb exclusive_locked lock

pub is_locked : ℕ → Bool
is_locked lock = ltb 0 lock

pub unlock_shared : ℕ → ℕ
unlock_shared lock = sub_word lock 1

pub unlock_exclusive : ℕ → ℕ
unlock_exclusive lock = sub_word lock exclusive_locked

-- The debug build's check of a count that was read: `false` where it panics.
pub locks_count_check : ℕ → Bool
locks_count_check count =
    if ltb count exclusive_pending
    then leb count shared_lock_threshold
    else if ltb count exclusive_locked
    then leb count (exclusive_pending + shared_lock_threshold)
    else leb count (exclusive_locked + shared_lock_threshold)

-- Where a caller stands. The locals that are live there are the arguments.
pub data Pc : Type 0 where
  idle : Pc
  -- `try_lock_shared`, before the `fetch_sub` that gives up
  giving_up : Pc
  -- `lock_shared_while`: before the `fetch_sub` that makes room; at the head of the first loop with
  -- the count last read; before a load of the second loop; before the `fetch_sub` that ends it
  making_room : Pc
  yielding : (count : ℕ) → Pc
  waiting : Pc
  leaving : Pc
  reader : Pc
  -- `lock_exclusive_while`: before a compare-exchange for the lock; after it failed, with the count
  -- that it read; before the `fetch_sub` that leaves the queue
  attempting : (in_queue : Bool) → Pc
  failed : (in_queue : Bool) (count : ℕ) → Pc
  enqueueing : (count : ℕ) → Pc
  dequeueing : Pc
  writer : Pc

-- The `expected` of `lock_exclusive_while`.
abbrev pub expected : Bool → ℕ
expected in_queue = if in_queue then exclusive_pending else 0

-- One atomic access of a caller, with what it computes up to the next one. The closure `cond` may
-- answer either way at each call, and a weak compare-exchange may fail on an equal word.
pub data Move (lock : ℕ) : Pc → ℕ → Pc → Type 0 where
  -- `try_lock_shared`
  try_shared : lock < exclusive_pending → Move lock idle (add_word lock 1) reader
  try_shared_fail : exclusive_pending ≤ lock → Move lock idle (add_word lock 1) giving_up
  give_up : Move lock giving_up (sub_word lock 1) idle
  -- `lock_shared_while`
  enter_shared : lock < exclusive_pending → Move lock idle (add_word lock 1) reader
  enter_pending :
      exclusive_pending ≤ lock
      → lock < exclusive_locked
      → Move lock idle (add_word lock 1) making_room
  enter_locked : exclusive_locked ≤ lock → Move lock idle (add_word lock 1) waiting
  enter_stop : exclusive_locked ≤ lock → Move lock idle (add_word lock 1) leaving
  make_room : Move lock making_room (sub_word lock 1) (yielding lock)
  yield_stop : {count : ℕ} → Move lock (yielding count) lock idle
  yield_load :
      {count : ℕ}
      → exclusive_pending ≤ count
      → count < exclusive_locked
      → Move lock (yielding count) lock (yielding lock)
  rejoin :
      {count : ℕ}
      → (leb exclusive_locked count ≡ true) ⊎ (ltb count exclusive_pending ≡ true)
      → lock < exclusive_locked
      → Move lock (yielding count) (add_word lock 1) reader
  rejoin_wait :
      {count : ℕ}
      → (leb exclusive_locked count ≡ true) ⊎ (ltb count exclusive_pending ≡ true)
      → exclusive_locked ≤ lock
      → Move lock (yielding count) (add_word lock 1) waiting
  rejoin_stop :
      {count : ℕ}
      → (leb exclusive_locked count ≡ true) ⊎ (ltb count exclusive_pending ≡ true)
      → exclusive_locked ≤ lock
      → Move lock (yielding count) (add_word lock 1) leaving
  wait_over : lock < exclusive_locked → Move lock waiting lock reader
  wait_on : exclusive_locked ≤ lock → Move lock waiting lock waiting
  wait_stop : exclusive_locked ≤ lock → Move lock waiting lock leaving
  leave : Move lock leaving (sub_word lock 1) idle
  release_shared : Move lock reader (unlock_shared lock) idle
  -- `try_lock_exclusive`
  try_exclusive : lock ≡ 0 → Move lock idle exclusive_locked writer
  try_exclusive_fail : lock ≢ 0 → Move lock idle lock idle
  -- `lock_exclusive_while`
  call_exclusive : Move lock idle lock (attempting false)
  win :
      {in_queue : Bool}
      → lock ≡ expected in_queue
      → Move lock (attempting in_queue) exclusive_locked writer
  lose : {in_queue : Bool} → Move lock (attempting in_queue) lock (failed in_queue lock)
  stop : {count : ℕ} → Move lock (failed false count) lock idle
  stop_queued : {count : ℕ} → Move lock (failed true count) lock dequeueing
  again :
      {in_queue : Bool} {count : ℕ}
      → (in_queue ≡ true) ⊎ ((count ≡ 0) ⊎ (exclusive_pending ≤ count))
      → Move lock (failed in_queue count) lock (attempting in_queue)
  queue_up :
      {count : ℕ}
      → 0 < count
      → count < exclusive_pending
      → Move lock (failed false count) lock (enqueueing count)
  enqueue :
      {count : ℕ}
      → lock ≡ count
      → Move lock (enqueueing count) (add_word count exclusive_pending) (attempting true)
  enqueue_fail : {count : ℕ} → Move lock (enqueueing count) lock (attempting false)
  dequeue : Move lock dequeueing (sub_word lock exclusive_pending) idle
  release_exclusive : Move lock writer (unlock_exclusive lock) idle

pub record System : Type 0 where
  pub lock : ℕ
  pub pc : ℕ → Pc

pub data Step (n : ℕ) (s : System) : System → Type 0 where
  pick :
      (i : ℕ) {lock' : ℕ} {p : Pc}
      → i < n
      → Move s.lock (s.pc i) lock' p
      → Step n s (record { lock = lock'; pc = at s.pc i p })

-- `n` callers of one lock.
pub data Reach (n : ℕ) : System → Type 0 where
  start : Reach n (record { lock = new; pc = λ i. idle })
  later : {s t : System} → Reach n s → Step n s t → Reach n t

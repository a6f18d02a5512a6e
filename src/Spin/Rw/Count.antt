-- ===== src/Spin/Rw/Count.antt =====
-- How many callers of `RawRwSpin` in src/spin.rs add to each part of its word, and what one step
-- does to the counts.
use amity.Prelude.{ℕ, ◌+◌, ◌*◌, ◌≤◌, ◌<◌, ◌≡◌, ◌⊎◌, true, arith}
use amity.Spin.Rw.{
  Pc, giving_up, making_room, waiting, leaving, reader, attempting, failed, enqueueing, dequeueing,
  writer, Move, try_shared, try_shared_fail, give_up, enter_shared, enter_pending, enter_locked,
  enter_stop, make_room, yield_stop, yield_load, rejoin, rejoin_wait, rejoin_stop, wait_over,
  wait_on, wait_stop, leave, release_shared, try_exclusive, try_exclusive_fail, call_exclusive, win,
  lose, stop, stop_queued, again, queue_up, enqueue, enqueue_fail, dequeue, release_exclusive,
  exclusive_pending, exclusive_locked, shared_lock_threshold, unlock_shared, unlock_exclusive,
}

-- One in the low bits.
abbrev pub shares : Pc → ℕ
shares giving_up = 1
shares making_room = 1
shares waiting = 1
shares leaving = 1
shares reader = 1
shares _ = 0

abbrev pub reads : Pc → ℕ
reads reader = 1
reads _ = 0

abbrev pub queued : Pc → ℕ
queued (attempting true) = 1
queued (failed true _) = 1
queued dequeueing = 1
queued _ = 0

abbrev pub writes : Pc → ℕ
writes writer = 1
writes _ = 0

pub shares-le : (p : Pc) → shares p ≤ 1
shares-le p = ground arith

pub reads-le-shares : (p : Pc) → reads p ≤ shares p
reads-le-shares p = ground arith

-- The word that the counts make up, and how they exclude one another.
pub record Fits (lock s r q w : ℕ) : Type 0 where
  pub word_eq : lock ≡ s + exclusive_pending * q + exclusive_locked * w
  pub one_writer : q + w ≤ 1
  pub no_reader : (w ≡ 0) ⊎ (r ≡ 0)
  pub reads_in : r ≤ s
  pub few : s ≤ shared_lock_threshold

-- The count that a caller is about to add itself to was that of readers only.
abbrev pub IsSane : Pc → Type 0
IsSane (enqueueing count) = (0 < count) × (count < exclusive_pending)
IsSane _ = Unit

-- The counts after a caller went from `p` to `p'`.
pub record Traded (p p' : Pc) (s r q w s' r' q' w' : ℕ) : Type 0 where
  pub shares_eq : s' + shares p ≡ s + shares p'
  pub reads_eq : r' + reads p ≡ r + reads p'
  pub queued_eq : q' + queued p ≡ q + queued p'
  pub writes_eq : w' + writes p ≡ w + writes p'
  pub sane : IsSane p
  pub reads_in : r' ≤ s'
  pub few : s' ≤ shared_lock_threshold

pub Move-Fits :
    {lock lock' : ℕ} {p p' : Pc} {s r q w s' r' q' w' : ℕ}
    → Move lock p lock' p'
    → Fits lock s r q w
    → Traded p p' s r q w s' r' q' w'
    → Fits lock' s' r' q' w'
unfolding unlock_shared unlock_exclusive
Move-Fits (try_shared g) f t = ground arith
Move-Fits (try_shared_fail g) f t = ground arith
Move-Fits give_up f t = ground arith
Move-Fits (enter_shared g) f t = ground arith
Move-Fits (enter_pending g h) f t = ground arith
Move-Fits (enter_locked g) f t = ground arith
Move-Fits (enter_stop g) f t = ground arith
Move-Fits make_room f t = ground arith
Move-Fits yield_stop f t = ground arith
Move-Fits (yield_load g h) f t = ground arith
Move-Fits (rejoin g h) f t = ground arith
Move-Fits (rejoin_wait g h) f t = ground arith
Move-Fits (rejoin_stop g h) f t = ground arith
Move-Fits (wait_over g) f t = ground arith
Move-Fits (wait_on g) f t = ground arith
Move-Fits (wait_stop g) f t = ground arith
Move-Fits leave f t = ground arith
Move-Fits release_shared f t = ground arith
Move-Fits (try_exclusive g) f t = ground arith
Move-Fits (try_exclusive_fail g) f t = ground arith
Move-Fits call_exclusive f t = ground arith
Move-Fits (win g) f t = ground arith
Move-Fits lose f t = ground arith
Move-Fits stop f t = ground arith
Move-Fits stop_queued f t = ground arith
Move-Fits (again g) f t = ground arith
Move-Fits (queue_up g h) f t = ground arith
Move-Fits (enqueue g) f t = ground arith
Move-Fits enqueue_fail f t = ground arith
Move-Fits dequeue f t = ground arith
Move-Fits release_exclusive f t = ground arith

pub Move-IsSane : {lock lock' : ℕ} {p p' : Pc} → Move lock p lock' p' → IsSane p'
Move-IsSane (queue_up g h) = (g, h)
Move-IsSane (again {in_queue} g) = tt
Move-IsSane mv = tt

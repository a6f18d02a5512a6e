-- ===== src/Spin/Rw/Tests.antt =====
-- `RawRwSpin` of src/spin.rs, with two callers.
use amity.Prelude.{ℕ, zero, suc, ◌+◌, ◌≤◌, ◌≡◌, ◌≢◌, refl, arith, true, false}
use amity.Threads.{at}
use amity.Spin.Rw.{
  idle, reader, writer, attempting, failed, enqueueing, try_exclusive, release_exclusive,
  try_shared, call_exclusive, lose, queue_up, enqueue, System, pick, Reach, start, later, new,
  shared_lock_threshold, exclusive_locked, exclusive_pending, is_locked, is_locked_exclusive,
  unlock_shared, unlock_exclusive,
}
use amity.Spin.Rw.Progress.{Runs, queued_can_lock}
use amity.Spin.Rw.Safety.{writer_alone}

few : 2 ≤ shared_lock_threshold
few = omega arith

-- The first caller has the exclusive lock.
abbrev held : System
held = record { lock = exclusive_locked; pc = at (λ i. idle) 0 writer }

held-Reach : Reach 2 held
unfolding new
held-Reach = later start (pick 0 (omega arith) (try_exclusive refl))

-- It has given it back.
abbrev released : System
released = record { lock = unlock_exclusive exclusive_locked; pc = at held.pc 0 idle }

released-Reach : Reach 2 released
released-Reach = later held-Reach (pick 0 (omega arith) release_exclusive)

released_idle : (i : ℕ) → released.pc i ≡ idle
released_idle zero = refl
released_idle (suc i) = ground arith

-- The first caller has the shared lock, and the second one is queued for the exclusive lock.
abbrev waits_behind : System
waits_behind = record {
  lock = 1 + exclusive_pending;
  pc =
      at
        (at (at (at (at (λ i. idle) 0 reader) 1 (attempting false)) 1 (failed false 1)) 1
          (enqueueing 1))
        1 (attempting true);
}

waits_behind-Reach : Reach 2 waits_behind
unfolding new
waits_behind-Reach =
    later
      (later
        (later
          (later (later start (pick 0 (omega arith) (try_shared (omega arith))))
            (pick 1 (omega arith) call_exclusive))
          (pick 1 (omega arith) lose))
        (pick 1 (omega arith) (queue_up (omega arith) (omega arith))))
      (pick 1 (omega arith) (enqueue refl))

word_runs :
    (is_locked 0 ≡ false)
    × (is_locked waits_behind.lock ≡ true)
    × (is_locked_exclusive waits_behind.lock ≡ false)
    × (unlock_shared waits_behind.lock ≡ exclusive_pending)
unfolding is_locked is_locked_exclusive unlock_shared
word_runs = (refl, refl, refl, refl)

writer_alone_example : (held.pc 1 ≡ writer → ◌≡◌ {A = ℕ} 0 1) × (held.pc 1 ≢ reader)
writer_alone_example = writer_alone few held-Reach 0 1 (omega arith) (omega arith) refl

-- The queued caller's first attempt has failed.
abbrev lost_once : System
lost_once = record waits_behind { pc = at waits_behind.pc 1 (failed true waits_behind.lock) }

lost_once-Reach : Reach 2 lost_once
lost_once-Reach = later waits_behind-Reach (pick 1 (omega arith) lose)

queued_can_lock_example : (t : System) × Runs 2 1 lost_once t × (t.pc 1 ≡ writer)
queued_can_lock_example =
    queued_can_lock few 1 (omega arith) lost_once-Reach (omega arith) (λ e. ground arith)

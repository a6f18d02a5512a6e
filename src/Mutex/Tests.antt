-- ===== src/Mutex/Tests.antt =====
-- `RawMutex` of src/mutex.rs with two callers: the first takes the lock, the second falls asleep, and the
-- first unlocks.
use amity.Prelude.{ℕ, ◌<◌, ◌≡◌, ◌↔◌, ◌⊎◌, refl, ap, arith, true, false, none, some}
use amity.Threads.{at, sum}
use amity.CondVar.{
  Shared, Pc, outside, loading, deciding, sleeping, walking, null_state, zero_word, enlist,
  wake_node, update, wait, try_update, try_fail, swap, load, park, System, pick, Reach, begin,
  later,
}
use amity.CondVar.Chain.{On}
use amity.CondVar.Waiters.{cursor}
use amity.CondVar.Wakeups.{walk_safe, none_lost}
use amity.Mutex.{Place, Op, idle, holding, locking, decide, is_locked, locks, unlocks, mutex}
use amity.Mutex.Progress.{Gets, sleeps, mutex_can_lock}
use amity.Mutex.Safety.{holds, mutex_exclusion, mutex_no_lost_wakeup}

abbrev one_holds : ℕ → Pc Place Op
one_holds = at (λ i. outside idle) 0 (outside holding)

abbrev listed : Shared
listed = record {
  word = record { head = some 1; state = 1 };
  nodes = at zero_word.nodes 1 (record { next = none; ready = false });
}

abbrev asleep : System mutex
asleep = record {
  shared = listed;
  pc =
      at (at (at one_holds 1 (loading locking)) 1 (deciding locking (null_state 1))) 1
        (sleeping locking);
}

asleep-Reach : Reach mutex 2 asleep
unfolding decide enlist
asleep-Reach =
    later
      (later
        (later (later begin (pick 0 (omega arith) (try_update locks refl)))
          (pick 1 (omega arith) (try_fail locks (λ e. omega (arith, ap (λ w. w.state) e)))))
        (pick 1 (omega arith) load))
      (pick 1 (omega arith) (park refl refl))

abbrev waking : System mutex
waking = record {
  shared = record listed { word = null_state 0 };
  pc = at asleep.pc 0 (walking (some 1) idle);
}

waking-Reach : Reach mutex 2 waking
waking-Reach = later asleep-Reach (pick 0 (omega arith) (swap unlocks))

wake_runs : ((wake_node 1 listed).0 ≡ none) × (((wake_node 1 listed).1.nodes 1).ready ≡ true)
unfolding wake_node
wake_runs = (refl, refl)

decide_runs :
    (decide locking 0 ≡ update 1) × (decide locking 1 ≡ wait) × (is_locked listed.word ≡ true)
unfolding decide is_locked
decide_runs = (refl, refl, refl)

walk_safe_example :
    ((o : Op) × (waking.pc 1 ≡ sleeping o)) × ((waking.shared.nodes 1).ready ≡ false)
walk_safe_example = walk_safe mutex waking-Reach 0 1 idle (omega arith) refl

none_lost_example :
    On waking.shared.nodes waking.shared.word.head 1
    ⊎ ((i : ℕ) × (i < 2) × On waking.shared.nodes (cursor (waking.pc i)) 1)
none_lost_example = none_lost mutex waking-Reach 1 locking refl refl

mutex_exclusion_example :
    ((i j : ℕ)
      → i < 2
      → j < 2
      → asleep.pc i ≡ outside holding
      → asleep.pc j ≡ outside holding
      → i ≡ j)
    × ((is_locked asleep.shared.word ≡ false) ↔ (sum holds 2 asleep.pc ≡ 0))
mutex_exclusion_example = mutex_exclusion asleep-Reach

mutex_no_lost_wakeup_example :
    (((i : ℕ) × (i < 2) × (asleep.pc i ≡ outside holding))
      × On asleep.shared.nodes asleep.shared.word.head 1)
    ⊎ ((i : ℕ) × (i < 2) × On asleep.shared.nodes (cursor (asleep.pc i)) 1)
mutex_no_lost_wakeup_example = mutex_no_lost_wakeup asleep-Reach 1 locking refl refl

mutex_can_lock_example : Gets 2 1 (omega arith) asleep
mutex_can_lock_example = mutex_can_lock 2 1 (omega arith) asleep asleep-Reach sleeps

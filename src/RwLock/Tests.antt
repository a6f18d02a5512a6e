-- ===== src/RwLock/Tests.antt =====
-- `RawRwLock` of src/rwlock.rs with two callers: the first reads, the second falls asleep in
-- `lock_exclusive`, and the first is about to give its share back.
use amity.Prelude.{
  ℕ, zero, suc, ◌+◌, ◌<◌, ◌≤◌, ◌≡◌, ◌≢◌, refl, ap, arith, true, false, none, some, ne→==,
}
use amity.Threads.{at, sum}
use amity.CondVar.{
  Word, Shared, outside, loading, deciding, sleeping, null_state, zero_word, enlist, update, break,
  unreachable, try_update, try_fail, enter, load, park, System, Step, pick, Reach, begin, later,
}
use amity.CondVar.Chain.{On}
use amity.CondVar.Waiters.{cursor}
use amity.RwLock.{
  Op, idle, reader, writer, panicked, trying_shared, locking_exclusive, unlocking_shared, decide,
  is_locked, locks_shared, locks_exclusive, unlocks_shared, rw_lock,
}
use amity.RwLock.Count.{reads, writes}
use amity.RwLock.Safety.{rw_lock_exclusion, rw_lock_no_panic, rw_lock_lost_wakeup}

abbrev listed : Shared
listed = record {
  word = record { head = some 1; state = 1 };
  nodes = at zero_word.nodes 1 (record { next = none; ready = false });
}

abbrev asleep : System rw_lock
asleep = record {
  shared = listed;
  pc =
      at
        (at (at (at (λ i. outside idle) 0 (outside reader)) 1 (loading locking_exclusive)) 1
          (deciding locking_exclusive (null_state 1)))
        1 (sleeping locking_exclusive);
}

asleep-Reach : Reach rw_lock 2 asleep
unfolding decide enlist
asleep-Reach =
    later
      (later
        (later (later begin (pick 0 (omega arith) (try_update locks_shared refl))) (
          pick 1 (omega arith)
            (try_fail locks_exclusive (λ e. omega (arith, ap (λ w. w.state) e)))))
        (pick 1 (omega arith) load))
      (pick 1 (omega arith) (park refl refl))

abbrev leaving : System rw_lock
leaving = record {
  shared = listed;
  pc = at (at asleep.pc 0 (loading unlocking_shared)) 0 (deciding unlocking_shared listed.word);
}

leaving-Reach : Reach rw_lock 2 leaving
leaving-Reach =
    later (later asleep-Reach (pick 0 (omega arith) (enter unlocks_shared)))
      (pick 0 (omega arith) load)

leaving_quiet : (k : ℕ) → cursor (leaving.pc k) ≡ none
leaving_quiet zero = refl
leaving_quiet (suc zero) = refl
leaving_quiet (suc (suc k)) =
    rw
      (ne→== 0 (suc (suc k)) (λ e. omega (arith, e)), ne→== 1 (suc (suc k)) (λ e. omega (arith, e)))
      refl

decide_runs :
    (decide trying_shared 254 ≡ break)
    × (decide trying_shared 253 ≡ update 254)
    × (decide unlocking_shared 0 ≡ unreachable)
    × (is_locked listed.word ≡ true)
unfolding decide is_locked
decide_runs = (refl, refl, refl, refl)

rw_lock_exclusion_example :
    ((i j : ℕ)
      → i < 2
      → j < 2
      → leaving.pc i ≡ outside writer
      → (leaving.pc j ≡ outside writer → i ≡ j) × (leaving.pc j ≢ outside reader))
    × (sum reads 2 leaving.pc ≤ 254)
rw_lock_exclusion_example = rw_lock_exclusion leaving-Reach

rw_lock_no_panic_example :
    (leaving.pc 0 ≢ outside panicked)
    × ((o : Op) (cur : Word) → leaving.pc 0 ≡ deciding o cur → decide o cur.state ≢ unreachable)
rw_lock_no_panic_example = rw_lock_no_panic leaving-Reach 0

rw_lock_lost_wakeup_example :
    (t : System rw_lock) × Step rw_lock 2 leaving t
    × (t.shared.word.state ≡ 0)
    × (sum reads 2 t.pc + sum writes 2 t.pc ≡ 0)
    × (t.pc 1 ≡ sleeping locking_exclusive)
    × ((t.shared.nodes 1).ready ≡ false)
    × On t.shared.nodes t.shared.word.head 1
    × ((k : ℕ) → cursor (t.pc k) ≡ none)
rw_lock_lost_wakeup_example =
    rw_lock_lost_wakeup leaving-Reach 0 1 locking_exclusive listed.word (omega arith) refl refl refl
      refl refl leaving_quiet

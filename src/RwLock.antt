-- ===== src/RwLock.antt =====
-- src/rwlock.rs: `RawRwLock` over the condition variable.
pub mod Count
pub mod Safety
mod Tests
use amity.Prelude.{ℕ, Option, some, none, ◌+◌, ◌-◌, Bool, not, ◌||◌, ◌==◌, if◌then◌else◌}
use amity.CondVar.{
  Word, wake_none, Decision, update_or_wait, update_or_break, update, load_state, unreachable,
  Answer, updated, stopped, Act, optimistic, call, set, stands, calls, Client,
}

abbrev pub unlocked : ℕ
unlocked = 0

abbrev pub max_shared : ℕ
max_shared = 254

abbrev pub exclusive_lock : ℕ
exclusive_lock = 255

pub is_locked : Word → Bool
is_locked word = not (load_state word == unlocked)

-- Where a caller stands between its calls; `panicked` is the `unreachable!` of the wrappers of
-- `update_wait_break_park`.
pub data Place : Type 0 where
  idle reader writer panicked : Place

-- The calls of the condition variable: those of `try_lock_shared`, `lock_shared`, `lock_exclusive` and
-- `unlock_shared`.
pub data Op : Type 0 where
  trying_shared locking_shared locking_exclusive unlocking_shared : Op

-- The closure of `try_lock_shared` and of `lock_shared`.
abbrev pub one_more : ℕ → Option ℕ
one_more state =
    if (state == exclusive_lock) || (state == max_shared) then none else some (state + 1)

pub decide : Op → ℕ → Decision
decide trying_shared state = update_or_break one_more state
decide locking_shared state = update_or_wait one_more state
decide locking_exclusive state =
    update_or_wait (λ s. if s == unlocked then some exclusive_lock else none) state
decide unlocking_shared state = if state == unlocked then unreachable else update (state - 1)

pub back : Op → Answer → Place
back trying_shared (updated old_state) = reader
back trying_shared (stopped last_state) = idle
back locking_shared (updated old_state) = reader
back locking_shared (stopped last_state) = panicked
back locking_exclusive (updated old_state) = writer
back locking_exclusive (stopped last_state) = panicked
back unlocking_shared (updated old_state) = idle
back unlocking_shared (stopped last_state) = panicked

pub data May : Place → Act Place Op → Type 0 where
  tries_exclusive : May idle (optimistic unlocked exclusive_lock (stands writer) (stands idle))
  tries_shared : May idle (call trying_shared)
  locks_shared : May idle (optimistic unlocked 1 (stands reader) (calls locking_shared))
  locks_exclusive :
      May idle (optimistic unlocked exclusive_lock (stands writer) (calls locking_exclusive))
  unlocks_shared : May reader (call unlocking_shared)
  unlocks_exclusive : May writer (set 0 (λ old_state. idle))

abbrev pub rw_lock : Client
rw_lock = record {
  Place = Place;
  Op = Op;
  start = idle;
  decide = decide;
  wake = λ o. wake_none;
  back = back;
  May = May;
}

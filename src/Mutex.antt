-- ===== src/Mutex.antt =====
-- src/mutex.rs: `RawMutex` over the condition variable.
pub mod Safety
pub mod Progress
mod Tests
use amity.Prelude.{ℕ, some, none, Bool, ◌==◌, if◌then◌else◌}
use amity.CondVar.{
  Word, Wake, wake_none, Decision, update_or_wait, load_state, Answer, updated, stopped, Act,
  optimistic, set, stands, calls, Client,
}

abbrev pub unlocked : ℕ
unlocked = 0

abbrev pub locked : ℕ
locked = 1

pub is_locked : Word → Bool
is_locked word = load_state word == locked

-- Where a caller stands between its calls; `panicked` is the `unreachable!` of `update_wait_park`.
pub data Place : Type 0 where
  idle holding panicked : Place

-- The call of `update_wait_park` in `lock_park`, and in `lock`.
pub data Op : Type 0 where
  locking : Op

pub decide : Op → ℕ → Decision
decide locking state = update_or_wait (λ s. if s == unlocked then some locked else none) state

pub back : Op → Answer → Place
back locking (updated old_state) = holding
back locking (stopped last_state) = panicked

pub data May : Place → Act Place Op → Type 0 where
  tries_lock : May idle (optimistic unlocked locked (stands holding) (stands idle))
  locks : May idle (optimistic unlocked locked (stands holding) (calls locking))
  unlocks : May holding (set 0 (λ old_state. idle))

abbrev pub mutex : Client
mutex = record {
  Place = Place;
  Op = Op;
  start = idle;
  decide = decide;
  wake = λ o. wake_none;
  back = back;
  May = May;
}

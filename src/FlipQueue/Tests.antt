-- ===== src/FlipQueue/Tests.antt =====
-- `FlipBuffer` and `FlipQueue` of src/flip_queue.rs on a small buffer.
use amity.Threads.{at}
use amity.FlipQueue.{of_buffer}
use amity.FlipQueue.Shared.{System, idle, loading, Reach, begin, later, try_push, pop_miss}
use amity.FlipQueue.Shared.Fifo.{fifo, sections_safe}
use amity.Prelude.{
  panic, word, length, ◌+◌, ◌≤◌, ◌⊎◌, ℕ, ◌≡◌, refl, arith, List, [], ◌∷◌, none, some, ok, Returns,
  Ensures,
}
use amity.Samples.{exact, counted, counted-Holds}
use amity.RingBuffer.{RingBuffer, ring_index}
use amity.RingBuffer.Represents.{Represents}
use amity.FlipQueue.{flush, push_sync, pop_sync, pop, drop_flip, push, queue_drain_locking}
use amity.FlipQueue.Owned.{drop_flip_unsettled, grown}
use amity.FlipQueue.Queue.{IsQueue}

abbrev counted-IsQueue : IsQueue counted (9 ∷ 7 ∷ [])
counted-IsQueue = record {
  settled = 8 ∷ 9 ∷ [];
  staged = 7 ∷ [];
  holds = counted-Holds;
  whole = refl;
}

-- 8 was popped before, and 7 pushed.
drop_flip_unsettled_example : drop_flip counted ≡ ok (8 ∷ 9 ∷ [])
drop_flip_unsettled_example = drop_flip_unsettled counted (8 ∷ 9 ∷ []) (7 ∷ []) counted-Holds

-- An empty buffer for two values, and the same once 5 has been pushed.
abbrev vacant : RingBuffer ℕ
vacant = record { head = 0; len = 0; array = none ∷ none ∷ [] }

vacant-Represents : Represents vacant []
vacant-Represents = record {
  bounded = omega arith;
  head_in = omega arith;
  len_eq = refl;
  len_in = omega arith;
  cells = λ i x e. absurd (ground arith);
}

abbrev pushed_one : System ℕ
pushed_one = record {
  buffer = record {
    buffer = record { head = 0; len = 0; array = some 5 ∷ none ∷ [] };
    popped = 0;
    pushed = 1;
  };
  pc = λ i. idle;
  put_in = 5 ∷ [];
  handed_out = [];
}

pushed_one-Reach : Reach exact (of_buffer vacant) 1 pushed_one
unfolding push_sync ring_index
pushed_one-Reach = later begin (try_push {i = 0} 5 refl refl)

-- The first caller then finds nothing settled.
abbrev missed_one : System ℕ
missed_one = record pushed_one {
  buffer = record pushed_one.buffer { popped = 1 };
  pc = at pushed_one.pc 0 loading;
}

missed_one-Reach : Reach exact (of_buffer vacant) 2 missed_one
unfolding pop_sync
missed_one-Reach = later pushed_one-Reach (pop_miss refl refl)

fifo_example :
    (q : List ℕ) × IsQueue missed_one.buffer q
    × (q ≡ 5 ∷ [])
    × ((i : ℕ) → missed_one.pc i ≡ loading → missed_one.buffer.pushed ≡ 0 → q ≡ [])
fifo_example = fifo exact vacant vacant-Represents missed_one-Reach (omega arith)

sections_safe_example :
    ((v : ℕ) → Returns {0, 0} (push_sync v missed_one.buffer) (λ o. Unit))
    × Returns {0, 0} (pop_sync missed_one.buffer) (λ o. Unit)
    × Returns {0, 0} (pop missed_one.buffer) (λ o. Unit)
    × ((n : ℕ) → Returns {0, 0} (queue_drain_locking n missed_one.buffer) (λ o. Unit))
    × ((v : ℕ) → Ensures {0, 0} (push exact v missed_one.buffer) (λ o. Unit))
    × ((v : ℕ)
        → push exact v missed_one.buffer ≡ panic
        → (length missed_one.buffer.buffer.array ≤ (flush missed_one.buffer).buffer.len)
          × ((word ≤ length missed_one.buffer.buffer.array + length missed_one.buffer.buffer.array)
              ⊎ (exact.vec_capacity (grown exact missed_one.buffer) ≡ none)))
sections_safe_example = sections_safe exact vacant vacant-Represents missed_one-Reach (omega arith)

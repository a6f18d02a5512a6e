-- ===== src/FlipQueue/Exclusive.antt =====
-- The methods of `FlipQueue` in src/flip_queue.rs that borrow it exclusively, and its constructors; each
-- acts on the flip buffer behind the lock. The draining iterator wraps that of the ring buffer.
pub mod Order
mod Tests
use amity.Prelude.{ℕ, List, [], ◌∷◌, Option, Outcome, ok, ◌>>=◌}
use amity.RingBuffer
use amity.RingBuffer.Drain
use amity.RingBuffer.{Alloc, RingBuffer}
use amity.FlipQueue.{FlipBuffer, of_buffer, flip_with_capacity, push, pop, clear, drain}

module _ {ℓ} {A : Type ℓ} where
  pub queue_clear : FlipBuffer A → Outcome (List A × FlipBuffer A)
  queue_clear q = clear q

  pub queue_pop : FlipBuffer A → Outcome (Option A × FlipBuffer A)
  queue_pop q = pop q

  pub queue_drain : FlipBuffer A → RingBuffer A
  queue_drain q = drain q

  -- The iterator.
  pub drain_next : RingBuffer A → Outcome (Option A × RingBuffer A)
  drain_next inner = Drain.next inner

  pub drain_size_hint : RingBuffer A → ℕ × Option ℕ
  drain_size_hint inner = Drain.size_hint inner

  pub drain_count : RingBuffer A → ℕ
  drain_count inner = Drain.count inner

  pub drain_nth : ℕ → RingBuffer A → Outcome (List A × Option A × RingBuffer A)
  drain_nth n inner = Drain.nth n inner

  pub drain_len : RingBuffer A → ℕ
  drain_len inner = inner.len

module _ {ℓ} {A : Type ℓ} (alloc : Alloc) where
  pub flip_new : Outcome (FlipBuffer A)
  flip_new = do r ← RingBuffer.new alloc; ok (of_buffer r)

  -- `new`, and `Default`.
  pub queue_new : Outcome (FlipBuffer A)
  unfolding flip_new
  queue_new = flip_new

  pub queue_with_capacity : ℕ → Outcome (FlipBuffer A)
  queue_with_capacity cap' = flip_with_capacity alloc cap'

  pub queue_push : A → FlipBuffer A → Outcome (FlipBuffer A)
  queue_push value q = push alloc value q

  -- A caller that pushes values one after the other.
  pub push_all : List A → FlipBuffer A → Outcome (FlipBuffer A)
  push_all [] q = ok q
  push_all (value ∷ rest) q = queue_push value q >>= λ after. push_all rest after

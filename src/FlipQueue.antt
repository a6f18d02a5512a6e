-- ===== src/FlipQueue.antt =====
-- src/flip_queue.rs: `FlipBuffer`, a ring buffer with atomic counts of the values that were popped
-- and pushed through a shared borrow, and `FlipQueue`, the same behind a read-write lock. A shared
-- operation claims its slot by one `fetch_add`, so the order of these is the order of the calls. A
-- call of `FlipQueue` runs here with no other one between its locked sections; FlipQueue/Shared has the
-- interleavings.
pub mod Holds
pub mod Sync
pub mod Owned
pub mod Queue
pub mod Shared
pub mod Claims
pub mod Exclusive
mod Tests
use amity.Prelude.{
  ℕ, zero, suc, [], ◌∷◌, ◌+◌, Bool, ◌&&◌, List, Option, none, some, Outcome, ok, ◌>>=◌,
  if◌then◌else◌, ◌==◌, ltb, leb, length, add_word, sub_word,
}
use amity.RingBuffer
use amity.RingBuffer.Drain.{next, drop_drain}
use amity.RingBuffer.{Alloc, RingBuffer, ring_index, read_slot, write_slot, with_capacity}

pub record FlipBuffer {ℓ} (A : Type ℓ) : Type ℓ where
  pub buffer : RingBuffer A
  pub popped : ℕ
  pub pushed : ℕ

module _ {ℓ} {A : Type ℓ} where
  abbrev pub of_buffer : RingBuffer A → FlipBuffer A
  of_buffer r = record { buffer = r; popped = 0; pushed = 0 }

  pub flush : FlipBuffer A → FlipBuffer A
  flush fb =
      let len = fb.buffer.len in
      let cap' = length fb.buffer.array in
      let vacant = sub_word cap' len in
      let popped = if leb fb.popped len then fb.popped else len in
      let pushed = if leb fb.pushed vacant then fb.pushed else vacant in
      if (popped == 0) && (pushed == 0)
      then of_buffer fb.buffer
      else of_buffer (record {
        head = ring_index fb.buffer.head popped cap';
        len = add_word (sub_word len popped) pushed;
        array = fb.buffer.array;
      })

  -- The value comes back where there is no room for it.
  pub push_sync : A → FlipBuffer A → Outcome (Option A × FlipBuffer A)
  push_sync value fb =
      let r = fb.buffer in
      let counted = record fb { pushed = add_word fb.pushed 1 } in
      if ltb fb.pushed (sub_word (length r.array) r.len)
      then (do
        array ←
            write_slot r.array (ring_index r.head (add_word r.len fb.pushed) (length r.array)) value
        ok (none, record counted { buffer = record r { array = array } }))
      else ok (some value, counted)

  pub pop_sync : FlipBuffer A → Outcome (Option A × FlipBuffer A)
  pop_sync fb =
      let r = fb.buffer in
      let counted = record fb { popped = add_word fb.popped 1 } in
      if ltb fb.popped r.len
      then (do
        value ← read_slot r.array (ring_index r.head fb.popped (length r.array))
        ok (some value, counted))
      else ok (none, counted)

  pub pop : FlipBuffer A → Outcome (Option A × FlipBuffer A)
  pop fb = do
    let flushed = flush fb
    (value, r) ← RingBuffer.pop flushed.buffer
    ok (value, record flushed { buffer = r })

  pub clear : FlipBuffer A → Outcome (List A × FlipBuffer A)
  clear fb = do
    let flushed = flush fb
    (dropped, r) ← RingBuffer.clear flushed.buffer
    ok (dropped, record flushed { buffer = r })

  -- The buffer that the iterator drains.
  pub drain : FlipBuffer A → RingBuffer A
  drain fb = (flush fb).buffer

  -- The buffer that goes out through `ring`, and the flip buffer.
  pub swap_buffer : RingBuffer A → FlipBuffer A → RingBuffer A × FlipBuffer A
  swap_buffer ring fb = let flushed = flush fb in (flushed.buffer, record flushed { buffer = ring })

  -- There is no `Drop for FlipBuffer`: its fields are dropped, and the ring buffer drops its values.
  pub drop_flip : FlipBuffer A → Outcome (List A)
  drop_flip fb = RingBuffer.drop_buffer fb.buffer

  -- A closure that takes a number of values out of the iterator, at most all, and drops it.
  pub drain_some : ℕ → RingBuffer A → Outcome (List A × RingBuffer A)
  drain_some zero r = ok ([], r)
  drain_some (suc n) r = next r >>= λ o. elim o.0 [
    | none ↦ ok ([], o.1)
    | some x ↦ drain_some n o.1 >>= λ rest. ok (x ∷ rest.0, rest.1)
  ]

  -- `drain_locking` with such a closure: the values that it takes, those that are dropped with the
  -- iterator, and the buffer.
  pub queue_drain_locking : ℕ → FlipBuffer A → Outcome ((List A × List A) × FlipBuffer A)
  unfolding drain_some
  queue_drain_locking n fb = do
    (taken, r) ← drain_some n (drain fb)
    (dropped, emptied) ← drop_drain r
    ok ((taken, dropped), record (flush fb) { buffer = emptied })

  pub queue_pop_sync : FlipBuffer A → Outcome (Option A × FlipBuffer A)
  queue_pop_sync fb = pop_sync fb >>= λ o. elim o.0 [
    | some value ↦ ok (some value, o.1)
    | none ↦ if o.1.pushed == 0 then ok (none, o.1) else pop o.1
  ]

module _ {ℓ} {A : Type ℓ} (alloc : Alloc) where
  pub flip_with_capacity : ℕ → Outcome (FlipBuffer A)
  flip_with_capacity cap' = do r ← with_capacity alloc cap'; ok (of_buffer r)

  pub push : A → FlipBuffer A → Outcome (FlipBuffer A)
  push value fb = do
    let flushed = flush fb
    r ← RingBuffer.push alloc value flushed.buffer
    ok (record flushed { buffer = r })

  pub queue_push_sync : A → FlipBuffer A → Outcome (FlipBuffer A)
  queue_push_sync value fb =
      push_sync value fb >>= λ o. elim o.0 [ none ↦ ok o.1 | some back ↦ push back o.1 ]

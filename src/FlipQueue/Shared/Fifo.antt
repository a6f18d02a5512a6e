-- ===== src/FlipQueue/Shared/Fifo.antt =====
-- First in, first out, for `FlipQueue` of src/flip_queue.rs under concurrent callers.
use amity.Prelude.{
  none, length, panic, ◌≤◌, ◌⊎◌, ℕ, suc, ◌+◌, ◌<◌, ◌≡◌, refl, ap, ◌∙◌, arith, List, [], ◌++◌,
  Returns, Returns-map, Ensures, Ensures-map, word, drop_all,
}
use amity.RingBuffer.{Alloc, RingBuffer}
use amity.RingBuffer.Represents.{Represents}
use amity.FlipQueue.{flush, queue_drain_locking, of_buffer, push_sync, pop_sync, push, pop}
use amity.FlipQueue.Holds.{view}
use amity.FlipQueue.Sync.{push_sync_refines, pop_sync_refines}
use amity.FlipQueue.Queue.{IsQueue, length-zero}
use amity.FlipQueue.Owned.{
  queue_drain_locking_refines, of_buffer-Holds, flip_push_refines, flip_push_panics, grown,
  flip_pop_refines,
}
use amity.FlipQueue.Shared.{
  idle, loading, popping, System, Step, try_push, push_full, push_slow, try_pop, pop_miss, pop_none,
  pop_go, pop_slow, try_push_full, try_pop_none, drain_locking, swap_locking, Reach, begin, later,
}
use amity.FlipQueue.Shared.Kept.{
  Inv, put_sync_Inv, push_full_Inv, push_slow_Inv, try_pop_Inv, pop_miss_Inv, moved_Inv,
  pop_slow_Inv,
}
use amity.FlipQueue.Shared.Emptied.{
  try_push_full-Inv, try_pop_none-Inv, drain_locking-Inv, swap_locking-Inv,
}

module _ {A : Type 0} (alloc : Alloc) where
  Step-Inv : (k : ℕ) {s t : System A} → Step alloc s t → Inv k s → k + 1 < word → Inv (suc k) t
  Step-Inv k {s} (try_push v {fb = fb} p e) inv h = put_sync_Inv alloc k s inv h v fb e
  Step-Inv k {s} (push_full v {fb = fb} p e) inv h = push_full_Inv alloc k s inv h v _ _ fb e
  Step-Inv k {s} (push_slow p a e) inv h = push_slow_Inv alloc k s inv h _ _ _ a e
  Step-Inv k {s} (try_pop p e) inv h = try_pop_Inv alloc k s inv h _ _ e
  Step-Inv k {s} (pop_miss p e) inv h = pop_miss_Inv alloc k s inv h _ _ e
  Step-Inv k {s} (pop_none p e) inv h = moved_Inv alloc k s inv h _ idle (λ c. cc)
  Step-Inv k {s} (pop_go p e) inv h = moved_Inv alloc k s inv h _ popping (λ c. cc)
  Step-Inv k {s} (pop_slow p a e) inv h = pop_slow_Inv alloc k s inv h _ _ _ a e
  Step-Inv k {s} (try_push_full v {fb = fb} p e) inv h = try_push_full-Inv alloc k s inv h v _ fb e
  Step-Inv k {s} (try_pop_none {fb = fb} p e) inv h = try_pop_none-Inv alloc k s inv h fb e
  Step-Inv k {s} (drain_locking n {fb = fb} p a e) inv h =
      drain_locking-Inv alloc k s inv h n _ _ fb a e
  Step-Inv k {s} (swap_locking ring q p a rep e) inv h =
      swap_locking-Inv alloc k s inv h ring q _ _ a rep e

module _ {A : Type 0} (alloc : Alloc) (r : RingBuffer A) (empty : Represents r []) where
  Reach-Inv : {k : ℕ} {s : System A} → Reach alloc (of_buffer r) k s → k < word → Inv k s
  Reach-Inv begin h = record {
    settled = [];
    staged = [];
    holds = of_buffer-Holds empty;
    history = refl;
    exhausted = λ i q. omega arith;
    popped_in = omega arith;
    pushed_in = omega arith;
  }
  Reach-Inv (later {k} {s} steps st) h =
      Step-Inv alloc k st (Reach-Inv steps (omega arith)) (omega arith)

  -- From an empty buffer, whatever callers of the shared operations do in fewer than `2 ^ 64`
  -- steps: the values that were handed out, followed by the queue that the buffer is, are the values
  -- that were put in, in that order. A caller that has found every settled value claimed, and loads a
  -- count of 0 pushes, leaves with nothing only when the queue is empty.
  pub fifo :
      {k : ℕ} {s : System A}
      → Reach alloc (of_buffer r) k s
      → k < word
      → (q : List A) × IsQueue s.buffer q
        × (s.handed_out ++ q ≡ s.put_in)
        × ((i : ℕ) → s.pc i ≡ loading → s.buffer.pushed ≡ 0 → q ≡ [])
  fifo {s = s} steps h =
      let inv = Reach-Inv steps h in
      (
        view s.buffer inv.settled inv.staged,
        record { settled = inv.settled; staged = inv.staged; holds = inv.holds; whole = refl },
        inv.history,
        λ i at_load none_pushed.
            ap (λ t. t ++ inv.staged)
              (drop_all s.buffer.popped inv.settled (inv.exhausted i at_load))
            ∙ length-zero inv.staged (omega (arith, inv.holds.staged_len, none_pushed)),
      )

  -- From an empty buffer, in every state that callers reach in fewer than `2 ^ 64 - 1` steps: no
  -- section reads memory that is not initialised, or indexes out of bounds, and only the one of
  -- `push_slow` may panic. It does so only if the flushed array is full, and twice its length overflows
  -- the word or the allocator refuses the capacity.
  pub sections_safe :
      {k : ℕ} {s : System A}
      → Reach alloc (of_buffer r) k s
      → k + 1 < word
      → ((v : A) → Returns {0, 0} (push_sync v s.buffer) (λ o. Unit))
        × Returns {0, 0} (pop_sync s.buffer) (λ o. Unit)
        × Returns {0, 0} (pop s.buffer) (λ o. Unit)
        × ((n : ℕ) → Returns {0, 0} (queue_drain_locking n s.buffer) (λ o. Unit))
        × ((v : A) → Ensures {0, 0} (push alloc v s.buffer) (λ o. Unit))
        × ((v : A)
            → push alloc v s.buffer ≡ panic
            → (length s.buffer.buffer.array ≤ (flush s.buffer).buffer.len)
              × ((word ≤ length s.buffer.buffer.array + length s.buffer.buffer.array)
                  ⊎ (alloc.vec_capacity (grown alloc s.buffer) ≡ none)))
  sections_safe {s = s} steps h =
      let inv = Reach-Inv steps (omega arith) in
      (
        λ v.
            Returns-map (push_sync v s.buffer) _ _
              (push_sync_refines s.buffer inv.settled inv.staged inv.holds v
                (omega (arith, inv.pushed_in)))
              λ o p. tt,
        Returns-map (pop_sync s.buffer) _ _
            (pop_sync_refines s.buffer inv.settled inv.staged inv.holds
              (omega (arith, inv.popped_in)))
            λ o p. tt,
        Returns-map (pop s.buffer) _ _ (flip_pop_refines s.buffer inv.settled inv.staged inv.holds)
            λ o p. tt,
        λ n.
            Returns-map (queue_drain_locking n s.buffer) _ _
              (queue_drain_locking_refines n s.buffer inv.settled inv.staged inv.holds) λ o p. tt,
        λ v.
            Ensures-map (push alloc v s.buffer) _ _
              (flip_push_refines alloc v s.buffer inv.settled inv.staged inv.holds) λ o p. tt,
        λ v. flip_push_panics alloc v s.buffer inv.settled inv.staged inv.holds,
      )

-- ===== src/FlipQueue/Shared.antt =====
-- `FlipQueue` of src/flip_queue.rs under any number of callers of its shared operations. A locked
-- section of a call is a step; what a caller does between its sections is where it stands. A section
-- under the write lock waits until no caller has the read lock.
pub mod Kept
pub mod Emptied
pub mod Fifo
use amity.Prelude.{ℕ, suc, ◌≡◌, ◌≢◌, List, [], ◌∷◌, ◌++◌, Option, none, some, ok}
use amity.Threads.{at}
use amity.RingBuffer.{Alloc, RingBuffer, as_slices}
use amity.RingBuffer.Represents.{Represents}
use amity.FlipQueue.{
  FlipBuffer, of_buffer, push_sync, pop_sync, push, pop, queue_drain_locking, swap_buffer,
}

-- Where a caller stands.
pub data Pc (A : Type 0) : Type 0 where
  idle : Pc A
  retrying : (value : A) → Pc A  -- `push_sync`, before `push_slow`
  loading : Pc A  -- `pop_sync`, under the read lock, before the load of `pushed`
  popping : Pc A  -- `pop_sync`, before `pop_slow`

-- The buffer, the callers, and beside them the values that were put into the queue and those that were
-- handed out, each in the order of the steps.
pub record System (A : Type 0) : Type 0 where
  pub buffer : FlipBuffer A
  pub pc : ℕ → Pc A
  pub put_in : List A
  pub handed_out : List A

module _ {A : Type 0} (alloc : Alloc) where
  pub data Step (s : System A) : System A → Type 0 where
    -- `push_sync`
    try_push :
        {i : ℕ} (v : A) {fb : FlipBuffer A}
        → s.pc i ≡ idle
        → push_sync v s.buffer ≡ ok (none, fb)
        → Step s (record s { buffer = fb; put_in = s.put_in ++ v ∷ [] })
    push_full :
        {i : ℕ} (v : A) {back : A} {fb : FlipBuffer A}
        → s.pc i ≡ idle
        → push_sync v s.buffer ≡ ok (some back, fb)
        → Step s (record s { buffer = fb; pc = at s.pc i (retrying back) })
    push_slow :
        {i : ℕ} {v : A} {fb : FlipBuffer A}
        → s.pc i ≡ retrying v
        → ((j : ℕ) → s.pc j ≢ loading)
        → push alloc v s.buffer ≡ ok fb
        → Step s (record s { buffer = fb; pc = at s.pc i idle; put_in = s.put_in ++ v ∷ [] })
    -- `try_push_sync`, which `try_push` is too
    try_push_full :
        {i : ℕ} (v : A) {back : A} {fb : FlipBuffer A}
        → s.pc i ≡ idle
        → push_sync v s.buffer ≡ ok (some back, fb)
        → Step s (record s { buffer = fb })
    -- `pop_sync`
    try_pop :
        {i : ℕ} {x : A} {fb : FlipBuffer A}
        → s.pc i ≡ idle
        → pop_sync s.buffer ≡ ok (some x, fb)
        → Step s (record s { buffer = fb; handed_out = s.handed_out ++ x ∷ [] })
    pop_miss :
        {i : ℕ} {fb : FlipBuffer A}
        → s.pc i ≡ idle
        → pop_sync s.buffer ≡ ok (none, fb)
        → Step s (record s { buffer = fb; pc = at s.pc i loading })
    pop_none :
        {i : ℕ} → s.pc i ≡ loading → s.buffer.pushed ≡ 0 → Step s (record s { pc = at s.pc i idle })
    pop_go :
        {i : ℕ}
        → s.pc i ≡ loading
        → s.buffer.pushed ≢ 0
        → Step s (record s { pc = at s.pc i popping })
    pop_slow :
        {i : ℕ} {o : Option A} {fb : FlipBuffer A}
        → s.pc i ≡ popping
        → ((j : ℕ) → s.pc j ≢ loading)
        → pop s.buffer ≡ ok (o, fb)
        → Step s (record s {
          buffer = fb;
          pc = at s.pc i idle;
          handed_out = s.handed_out ++ (elim o [ some x ↦ x ∷ [] | none ↦ [] ]);
        })
    -- `try_pop_sync`, which `try_pop` is too
    try_pop_none :
        {i : ℕ} {fb : FlipBuffer A}
        → s.pc i ≡ idle
        → pop_sync s.buffer ≡ ok (none, fb)
        → Step s (record s { buffer = fb })
    drain_locking :
        {i : ℕ} (n : ℕ) {taken dropped : List A} {fb : FlipBuffer A}
        → s.pc i ≡ idle
        → ((j : ℕ) → s.pc j ≢ loading)
        → queue_drain_locking n s.buffer ≡ ok ((taken, dropped), fb)
        → Step s (record s { buffer = fb; handed_out = s.handed_out ++ (taken ++ dropped) })
    -- The queue `q` goes in with `ring`, and what `ring` then holds goes out.
    swap_locking :
        {i : ℕ} (ring : RingBuffer A) (q : List A) {front back : List A}
        → s.pc i ≡ idle
        → ((j : ℕ) → s.pc j ≢ loading)
        → Represents ring q
        → as_slices (swap_buffer ring s.buffer).0 ≡ ok (front, back)
        → Step s (record s {
          buffer = (swap_buffer ring s.buffer).1;
          put_in = s.put_in ++ q;
          handed_out = s.handed_out ++ (front ++ back);
        })

  -- The states that a number of steps reaches from a buffer that nobody has used.
  pub data Reach (start : FlipBuffer A) : ℕ → System A → Type 0 where
    begin : Reach start 0 (record { buffer = start; pc = λ i. idle; put_in = []; handed_out = [] })
    later : {k : ℕ} {s t : System A} → Reach start k s → Step s t → Reach start (suc k) t

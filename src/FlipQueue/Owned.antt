-- ===== src/FlipQueue/Owned.antt =====
-- The operations of `FlipBuffer` in src/flip_queue.rs that hold the buffer exclusively: they flush
-- first, and then act on the ring buffer.
use amity.Prelude.{
  ap, max, word, length, Option, none, some, Outcome, panic, undefined, ◌+◌, ◌≤◌, ◌<◌, ◌≢◌, ◌⊎◌,
  inl, inr, dec_lt, ℕ, zero, suc, take, ◌≡◌, refl, arith, List, [], ◌∷◌, ◌++◌, ok, Returns,
  Returns-bind, Ensures, Ensures-bind, get_elem?, drop,
}
use amity.RingBuffer
use amity.RingBuffer.Drain.{drop_drain}
use amity.RingBuffer.Drain.Order.{next-eq-pop, drop_drain_refines}
use amity.RingBuffer.{Alloc, RingBuffer, min_non_zero_cap}
use amity.RingBuffer.Represents.{Represents}
use amity.RingBuffer.Pop.{pop_refines}
use amity.RingBuffer.Push.{push_refines, push_returns}
use amity.RingBuffer.Slices.{clear_refines, drop_buffer_refines}
use amity.FlipQueue.{
  FlipBuffer, of_buffer, flush, pop, clear, drain, swap_buffer, drop_flip, push, drain_some,
  queue_drain_locking,
}
use amity.FlipQueue.Holds.{Holds, view, flush_lem, ready-Represents, ready}

module _ {A : Type 0} where
  -- A ring buffer with no counts holds its queue, and nothing is staged.
  pub of_buffer-Holds :
      {r : RingBuffer A} {xs : List A} → Represents r xs → Holds (of_buffer r) xs []
  of_buffer-Holds rep = record {
    rep = rep;
    staged_len = omega arith;
    cells = λ i y e. absurd (ground arith);
  }

-- The capacity that a full array is grown to, or more.
abbrev pub grown : {A : Type 0} → Alloc → FlipBuffer A → ℕ
grown alloc fb =
    max (length fb.buffer.array + length fb.buffer.array) (min_non_zero_cap alloc.size_of)

no_panic : {B : Type 0} (P : B → Type 0) (m : Outcome B) → Returns m P → m ≢ panic
no_panic P (ok b) h e = ground arith
no_panic P panic h e = elim h [ ]
no_panic P undefined h e = elim h [ ]

module _ {A : Type 0} (alloc : Alloc) (v : A) (fb : FlipBuffer A) (xs staged : List A)
    (holds : Holds fb xs staged) where
  -- From a flip buffer that holds settled and staged values, `push` that does not panic settles
  -- the counts and puts its value behind the whole queue. It never reads or writes out of bounds.
  pub flip_push_refines :
      Ensures
        (push alloc v fb)
        (λ o. Holds o (view fb xs staged ++ v ∷ []) [] × (o.popped ≡ 0) × (o.pushed ≡ 0))
  unfolding push
  flip_push_refines = rw (flush_lem fb xs staged holds) (
      Ensures-bind (RingBuffer.push alloc v (ready fb xs staged holds)) _ _ _
        (push_refines alloc v (ready fb xs staged holds) (view fb xs staged)
          (ready-Represents fb xs staged holds))
        λ r p. (of_buffer-Holds p.0, refl, refl))

  -- It does not panic if there is room, or if twice the array's length fits a word and the
  -- allocator gives the capacity.
  pub flip_push_returns :
      (length (view fb xs staged) < length fb.buffer.array)
        ⊎ ((length fb.buffer.array + length fb.buffer.array < word)
            × ((m : ℕ) × alloc.vec_capacity (grown alloc fb) ≡ some m))
      → Returns (push alloc v fb) (λ o. Holds o (view fb xs staged ++ v ∷ []) [] × (o.popped ≡ 0))
  unfolding push
  flip_push_returns room = rw (flush_lem fb xs staged holds) (
      Returns-bind (RingBuffer.push alloc v (ready fb xs staged holds)) _ _ _
        (push_returns alloc v (ready fb xs staged holds) (view fb xs staged)
          (ready-Represents fb xs staged holds) room)
        λ r p. (of_buffer-Holds p, refl))

  -- Where it panics, the flushed array is full, and either twice its length overflows the word or the
  -- allocator refuses the capacity.
  pub flip_push_panics :
      push alloc v fb ≡ panic
      → (length fb.buffer.array ≤ (flush fb).buffer.len)
        × ((word ≤ length fb.buffer.array + length fb.buffer.array)
            ⊎ (alloc.vec_capacity (grown alloc fb) ≡ none))
  flip_push_panics e =
      rw (flush_lem fb xs staged holds)
        (elim (dec_lt (length (view fb xs staged)) (length fb.buffer.array)) [
          | yes p ↦ absurd (no_panic _ (push alloc v fb) (flip_push_returns (inl p)) e)
          | no p ↦ (omega (arith, (ready-Represents fb xs staged holds).len_eq), full)
        ])
    where
      asked :
          (o : Option ℕ)
          → alloc.vec_capacity (grown alloc fb) ≡ o
          → length fb.buffer.array + length fb.buffer.array < word
          → o ≡ none
      asked none q small = refl
      asked (some m) q small =
          absurd (no_panic _ (push alloc v fb) (flip_push_returns (inr (small, (m, q)))) e)

      full :
          (word ≤ length fb.buffer.array + length fb.buffer.array)
          ⊎ (alloc.vec_capacity (grown alloc fb) ≡ none)
      full = elim (dec_lt (length fb.buffer.array + length fb.buffer.array) word) [
        | yes small ↦ inr (asked _ refl small)
        | no large ↦ inl (omega arith)
      ]

module _ {A : Type 0} (fb : FlipBuffer A) (xs staged : List A) (holds : Holds fb xs staged) where
  -- From a flip buffer that holds settled and staged values, `flush` leaves a ring buffer that
  -- holds the whole queue: the settled values that no call has popped, then the staged ones.
  -- `drain` and `swap_buffer` hand that ring buffer out.
  pub flush_refines :
      Holds (flush fb) (view fb xs staged) []
      × Represents (drain fb) (view fb xs staged)
      × ((ring : RingBuffer A) → (swap_buffer ring fb).0 ≡ drain fb)
  unfolding drain swap_buffer
  flush_refines = (
    rw (flush_lem fb xs staged holds) (of_buffer-Holds (ready-Represents fb xs staged holds)),
    rw (flush_lem fb xs staged holds, drain) (ready-Represents fb xs staged holds),
    λ ring. refl,
  )

  -- From a flip buffer that holds settled and staged values, `pop` returns the oldest value of the
  -- whole queue, if there is one, and leaves the rest, settled.
  pub flip_pop_refines : Returns (pop fb) (λ o.
      (o.0 ≡ get_elem? (view fb xs staged) 0)
      × Holds o.1 (drop 1 (view fb xs staged)) []
      × (o.1.popped ≡ 0)
      × (o.1.pushed ≡ 0))
  unfolding pop
  flip_pop_refines = rw (flush_lem fb xs staged holds) (
      Returns-bind (RingBuffer.pop (ready fb xs staged holds)) _ _ _
        (pop_refines (ready fb xs staged holds) (view fb xs staged)
          (ready-Represents fb xs staged holds))
        λ o p. (p.0, of_buffer-Holds p.1, refl, refl))

  -- From a flip buffer that holds settled and staged values, `clear` drops every value of the
  -- whole queue once, and leaves an empty queue.
  pub flip_clear_refines : Returns (clear fb) (λ o. (o.0 ≡ view fb xs staged) × Holds o.1 [] [])
  unfolding clear
  flip_clear_refines = rw (flush_lem fb xs staged holds) (
      Returns-bind (RingBuffer.clear (ready fb xs staged holds)) _ _ _
        (clear_refines (ready fb xs staged holds) (view fb xs staged)
          (ready-Represents fb xs staged holds))
        λ o p. (p.0, of_buffer-Holds p.1))

  -- Dropping a flip buffer that holds settled and staged values drops the settled ones, those that
  -- `pop_sync` has handed out since the last flush included, and none of the staged ones.
  pub drop_flip_unsettled : drop_flip fb ≡ ok xs
  unfolding drop_flip
  drop_flip_unsettled = drop_buffer_refines fb.buffer xs holds.rep

-- A closure that takes `n` values of a drained buffer takes the first ones.
pub drain_some_lem :
    {A : Type 0} (n : ℕ) (r : RingBuffer A) (xs : List A)
    → Represents r xs
    → Returns (drain_some n r) (λ o. (o.0 ≡ take n xs) × Represents o.1 (drop n xs))
unfolding drain_some
drain_some_lem zero r xs rep = (refl, rep)
drain_some_lem (suc n) r [] rep =
    rw (next-eq-pop r)
      (Returns-bind (RingBuffer.pop r) _ _ _ (pop_refines r [] rep) λ o p. rw p.0 (refl, p.1))
drain_some_lem (suc n) r (x ∷ xs) rep = rw (next-eq-pop r) (
    Returns-bind (RingBuffer.pop r) _ _ _ (pop_refines r (x ∷ xs) rep) λ o p. rw p.0 (
      Returns-bind (drain_some n o.1) _ _ _ (drain_some_lem n o.1 xs p.1)
        λ q h. (ap (λ t. x ∷ t) h.0, h.1)))

module _ {A : Type 0} (n : ℕ) (fb : FlipBuffer A) (xs staged : List A)
    (holds : Holds fb xs staged) where
  -- From a flip buffer that holds settled and staged values, `drain_locking` with a closure that takes a
  -- number of values gives the closure the first ones of the queue, drops the others in order, and
  -- leaves an empty queue.
  pub queue_drain_locking_refines : Returns (queue_drain_locking n fb) (λ o.
      (o.0.0 ≡ take n (view fb xs staged))
      × (o.0.1 ≡ drop n (view fb xs staged))
      × Holds o.1 [] []
      × (o.1.popped ≡ 0)
      × (o.1.pushed ≡ 0))
  unfolding queue_drain_locking drain
  queue_drain_locking_refines =
      rw (flush_lem fb xs staged holds, drain)
        (Returns-bind (drain_some n (ready fb xs staged holds)) _ _ _
          (drain_some_lem n (ready fb xs staged holds) (view fb xs staged)
            (ready-Represents fb xs staged holds))
          λ o p.
            Returns-bind (drop_drain o.1) _ _ _
              (drop_drain_refines o.1 (drop n (view fb xs staged)) p.1)
              λ q h. (p.0, h.0, of_buffer-Holds h.1, refl, refl))

-- The flip buffer that `swap_buffer` leaves.
pub swap_buffer-of_buffer :
    {A : Type 0} (ring : RingBuffer A) (fb : FlipBuffer A) (xs staged : List A)
    → Holds fb xs staged
    → (swap_buffer ring fb).1 ≡ of_buffer ring
unfolding swap_buffer
swap_buffer-of_buffer ring fb xs staged holds = rw (flush_lem fb xs staged holds)

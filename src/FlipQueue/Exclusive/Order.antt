-- ===== src/FlipQueue/Exclusive/Order.antt =====
-- What goes into a new `FlipQueue` of src/flip_queue.rs comes out of it.
use amity.Prelude.{
  ℕ, ◌≡◌, refl, sym, ap, ◌∙◌, subst, List, [], ◌∷◌, ◌++◌, drop, take, if◌then◌else◌, usize_max,
  ◌>>=◌, Returns, Returns-bind, Returns-map, length, length-append, word, some, ◌+◌, ◌≤◌, ◌<◌, ◌⊎◌,
  inl, inr, dec_lt, arith, append-nil, append_assoc, ◌==◌, Bool, true, false,
}
use amity.RingBuffer
use amity.RingBuffer.{Alloc, RingBuffer, with_capacity}
use amity.RingBuffer.Represents.{Represents, with_capacity-ok}
use amity.RingBuffer.Push.{min_non_zero_cap_le}
use amity.FlipQueue.{FlipBuffer, of_buffer, drain_some}
use amity.FlipQueue.Holds.{Holds, view}
use amity.FlipQueue.Owned.{of_buffer-Holds, flip_push_returns, grown, flush_refines, drain_some_lem}
use amity.FlipQueue.Exclusive.{flip_new, queue_new, queue_push, queue_drain, push_all}

module _ {A : Type 0} where
  -- A flip buffer that holds a queue, with nothing staged.
  Queued : List A → FlipBuffer A → Type 0
  Queued xs q = (settled : List A) × Holds q settled [] × (view q settled [] ≡ xs)

  of_buffer-Queued : (r : RingBuffer A) → Represents r [] → Queued [] (of_buffer r)
  unfolding Queued
  of_buffer-Queued r rep = ([], of_buffer-Holds rep, refl)

-- The allocator gives a new buffer's array, and every capacity up to a bound.
pub record Gives (alloc : Alloc) (bound : ℕ) : Type 0 where
  pub first : (m : ℕ) × (alloc.vec_capacity (if alloc.size_of == 0 then usize_max else 0) ≡ some m)
  pub later : (n : ℕ) → n ≤ bound → (m : ℕ) × (alloc.vec_capacity n ≡ some m)

module _ (A : Type 0) (alloc : Alloc) where
  one_of :
      (b : Bool) (m : ℕ)
      → alloc.vec_capacity (if b then usize_max else 0) ≡ some m
      → Returns
          (if b then with_capacity {A = A} alloc usize_max else with_capacity alloc 0)
          (λ r. Represents r [])
  one_of true m e = with_capacity-ok A alloc usize_max m e
  one_of false m e = with_capacity-ok A alloc 0 m e

  new-Queued : {bound : ℕ} → Gives alloc bound → Returns (queue_new {A = A} alloc) (Queued [])
  unfolding queue_new flip_new RingBuffer.new
  new-Queued gives =
      Returns-bind (RingBuffer.new alloc) _ (λ r. Represents r []) _
        (one_of (alloc.size_of == 0) gives.first.0 gives.first.1) λ r rep. of_buffer-Queued r rep

module _ {A : Type 0} (alloc : Alloc) (most : ℕ) (small : most + most + 8 < word)
    (gives : Gives alloc (most + most + 8)) where
  push-Queued :
      (v : A) (q : FlipBuffer A) (xs : List A)
      → length xs ≤ most
      → Queued xs q
      → Returns (queue_push alloc v q) (Queued (xs ++ v ∷ []))
  unfolding queue_push Queued
  push-Queued v q xs few (settled, holds, e) =
      Returns-map _ _ (Queued (xs ++ v ∷ [])) (flip_push_returns alloc v q settled [] holds room)
        λ o h. (
          view q settled [] ++ v ∷ [],
          h.0,
          append-nil (drop o.popped (view q settled [] ++ v ∷ []))
              ∙ ap (λ k. drop k (view q settled [] ++ v ∷ [])) h.1
              ∙ ap (λ t. t ++ v ∷ []) e,
        )
    where
      room :
          (length (view q settled []) < length q.buffer.array)
          ⊎ ((length q.buffer.array + length q.buffer.array < word)
              × ((m : ℕ) × alloc.vec_capacity (grown alloc q) ≡ some m))
      room = elim (dec_lt (length (view q settled [])) (length q.buffer.array)) [
        | yes p ↦ inl p
        | no p ↦ inr (
          omega (arith, ap length e, few, p, small),
          gives.later (grown alloc q)
              (omega (arith, ap length e, few, p, min_non_zero_cap_le alloc.size_of)),
        )
      ]

  push_all-Queued :
      (vs : List A) (q : FlipBuffer A) (xs : List A)
      → length xs + length vs ≤ most
      → Queued xs q
      → Returns (push_all alloc vs q) (Queued (xs ++ vs))
  unfolding push_all
  push_all-Queued [] q xs few h = subst (λ t. Queued t q) (sym (append-nil xs)) h
  push_all-Queued (v ∷ vs) q xs few h =
      Returns-bind (queue_push alloc v q) (λ o. push_all alloc vs o) _ _
        (push-Queued v q xs (omega (arith, few)) h)
        λ o k.
          subst (λ t. Returns (push_all alloc vs o) (Queued t)) (append_assoc xs (v ∷ []) vs)
            (push_all-Queued vs o (xs ++ v ∷ []) (omega (arith, few, length-append xs (v ∷ []))) k)

  -- Values, fewer than half the words, are pushed into a new queue, which grows where it must, with an
  -- allocator that gives the new array and every capacity up to twice their number and eight: no
  -- push panics, and they come out of the draining iterator in the order in which they went in. A
  -- caller that takes a number of them gets the first ones, and the others are left in their
  -- order. No memory is read that was not written.
  pub pushed_drained :
      (vs : List A) (n : ℕ)
      → length vs ≤ most
      → Returns
          (queue_new alloc >>= λ q. push_all alloc vs q >>= λ full. drain_some n (queue_drain full))
          (λ o. (o.0 ≡ take n vs) × Represents o.1 (drop n vs))
  unfolding queue_drain Queued
  pushed_drained vs n few =
      Returns-bind (queue_new alloc) _ (Queued []) _ (new-Queued A alloc gives) λ q h.
        Returns-bind (push_all alloc vs q) _ (Queued vs) _
          (push_all-Queued vs q [] (omega (arith, few)) h)
          λ full k.
            drain_some_lem n (queue_drain full) vs
              (subst (Represents (queue_drain full)) k.2 (flush_refines full k.0 [] k.1).1)

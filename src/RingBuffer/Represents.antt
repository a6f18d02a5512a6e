-- ===== src/RingBuffer/Represents.antt =====
-- The abstraction relation of src/ring_buffer.rs: the queue that a ring buffer holds.
use amity.Prelude.{
  ℕ, ◌+◌, ◌-◌, ◌%◌, ◌≤◌, ◌≡◌, List, [], some, none, arith, length, get_elem?, length-replicate,
  replicate, usize_max, Ensures, Returns, Ensures-bind, Option, or_panic, ◌>>=◌, ok, refl,
}
use amity.RingBuffer.{Alloc, RingBuffer, uninit_array, with_capacity}

-- The buffer's `len` slots from `head` on, going round, are initialised with the values of the
-- list, oldest first. A buffer with no array has its head at 0.
pub record Represents {A : Type 0} (r : RingBuffer A) (xs : List A) : Type 0 where
  pub bounded : length r.array ≤ usize_max
  pub head_in : r.head ≤ length r.array - 1
  pub len_eq : r.len ≡ length xs
  pub len_in : r.len ≤ length r.array
  pub cells :
      (i : ℕ) (x : A)
      → get_elem? xs i ≡ some x
      → get_elem? r.array ((r.head + i) % length r.array) ≡ some (some x)

module _ (A : Type 0) (alloc : Alloc) where
  -- The array is as long as asked for, or longer.
  pub uninit_array_lem :
      (cap' : ℕ)
      → Ensures (uninit_array {A = A} alloc cap') (λ a. (cap' ≤ length a) × (length a ≤ usize_max))
  unfolding uninit_array
  uninit_array_lem cap' = go (alloc.vec_capacity cap') refl
    where
      go :
          (o : Option ℕ)
          → alloc.vec_capacity cap' ≡ o
          → Ensures
              (or_panic o >>= λ n. ok (replicate {A = Option A} n none))
              (λ a. (cap' ≤ length a) × (length a ≤ usize_max))
      go (some n) e =
          omega (arith, alloc.vec_capacity_lem cap' n e, length-replicate {A = Option A} n none)
      go none e = tt

  -- `with_capacity` that does not panic gives a buffer that holds the empty queue, in an array at
  -- least as long as was asked for.
  pub with_capacity-Represents :
      (cap' : ℕ)
      → Ensures (with_capacity {A = A} alloc cap') (λ r. Represents r [] × (cap' ≤ length r.array))
  unfolding with_capacity
  with_capacity-Represents cap' =
      Ensures-bind (uninit_array alloc cap') _ _ _ (uninit_array_lem cap') λ a h. (
        record {
          bounded = h.1;
          head_in = omega arith;
          len_eq = refl;
          len_in = omega arith;
          cells = λ i x e. absurd (ground arith);
        },
        h.0,
      )

  -- Where the allocator gives the capacity, `with_capacity` returns such a buffer.
  pub with_capacity-ok :
      (cap' m : ℕ)
      → alloc.vec_capacity cap' ≡ some m
      → Returns (with_capacity {A = A} alloc cap') (λ r. Represents r [])
  unfolding with_capacity uninit_array
  with_capacity-ok cap' m e = let h = with_capacity-Represents cap' in rw e ((rw e at h).0)

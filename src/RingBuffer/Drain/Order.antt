-- ===== src/RingBuffer/Drain/Order.antt =====
-- The draining iterator of src/ring_buffer.rs takes the queue that the buffer holds, in order.
use amity.Prelude.{
  ℕ, ◌+◌, ◌-◌, ◌%◌, ◌≤◌, ◌<◌, ◌≡◌, List, [], arith, length, get_elem?, take, drop, ◌∙◌, sym, refl,
  ok, min, Returns, Returns-bind, Returns-map, drop-drop, ◌>>=◌, dec_lt, sub_word_lem, ne→==,
  le→leb, lt→leb, length-take, drop_all, take_all, get_elem?-take, lt_of_get_elem?, get_elem?-drop,
  get_elem?_of_le, ℕ_discrete,
}
use amity.RingBuffer.{RingBuffer, pop, clear}
use amity.RingBuffer.Position.{ring_index-eq-mod}
use amity.RingBuffer.Represents.{Represents}
use amity.RingBuffer.Window.{advance-Represents}
use amity.RingBuffer.Pop.{pop_refines}
use amity.RingBuffer.Slices.{slice_lem, drop_two_slices_lem, clear_refines}
use amity.RingBuffer.Drain.{next, skip, nth, drop_drain}

module _ {A : Type 0} (r : RingBuffer A) where
  -- A step of the iterator is a `pop`.
  pub next-eq-pop : next r ≡ pop r
  unfolding next pop
  next-eq-pop = refl

module _ {A : Type 0} (n : ℕ) (r : RingBuffer A) (xs : List A) (rep : Represents r xs) where
  open r use {head, len, array}

  prefix-Represents : n ≤ length xs → Represents (record r { len = n }) (take n xs)
  prefix-Represents h = record {
    bounded = rep.bounded;
    head_in = rep.head_in;
    len_eq = omega (arith, length-take n xs);
    len_in = omega (arith, rep.len_eq, rep.len_in);
    cells = λ i x e. rep.cells i x (
        sym (
          get_elem?-take n xs i
            (omega (arith, lt_of_get_elem? (take n xs) i x e, length-take n xs)))
        ∙ e);
  }

  skipped : RingBuffer A
  skipped = record r { head = (head + n) % length array; len = len - n }

  skip_lem : n < length xs → skip n r ≡ (next skipped >>= λ o. ok (take n xs, o.0, o.1))
  unfolding skip skipped
  skip_lem h = rw (
    ring_index-eq-mod head n (length array) (omega (arith, rep.head_in, rep.len_eq, rep.len_in))
        (omega (arith, rep.len_eq, rep.len_in)) (omega (arith, rep.bounded)),
    sub_word_lem len n (omega (arith, rep.len_eq)) (omega (arith, rep.bounded, rep.len_in)),
    sub_word_lem (length array) head (omega (arith, rep.head_in)) (omega (arith, rep.bounded)),
    sub_word_lem n (min n (length array - head)) (omega arith)
        (omega (arith, rep.len_eq, rep.len_in, rep.bounded)),
    slice_lem array head (min n (length array - head)) (omega (arith, rep.head_in)),
    slice_lem array 0 (n - min n (length array - head)) (omega (arith, rep.len_eq, rep.len_in)),
    drop_two_slices_lem (record r { len = n }) (take n xs) (prefix-Represents (omega arith)),
  )

  -- What is left after `n` values have been skipped: the next one, and the rest.
  next-skipped :
      n < length xs
      → Returns (next skipped) (λ o. (o.0 ≡ get_elem? xs n) × Represents o.1 (drop (n + 1) xs))
  unfolding skipped
  next-skipped h = rw (next-eq-pop (record r { head = (head + n) % length array; len = len - n })) (
      let ready = advance-Represents r xs rep n (omega arith) in
      Returns-map (pop _) _ _ (pop_refines _ (drop n xs) ready)
        λ o p. (p.0 ∙ get_elem?-drop n xs 0 n (omega arith), rw (drop-drop n 1 xs) p.1))

  -- From a buffer that holds a queue, `nth n` drops the oldest `n` values in order (all of them, if
  -- there are no more), returns the one behind them, if there is one, and leaves the buffer holding
  -- what follows it. It neither panics nor reads memory that is not initialised.
  pub nth_refines :
      Returns
        (nth n r)
        (λ o. (o.0 ≡ take n xs) × (o.1 ≡ get_elem? xs n) × Represents o.2 (drop (n + 1) xs))
  unfolding nth
  nth_refines = elim (ℕ_discrete n 0) [
    | yes e ↦
        rw (e, next-eq-pop r)
          (Returns-bind (pop r) _ _ _ (pop_refines r xs rep) λ o p. (refl, p.0, p.1))
    | no ne ↦ elim (dec_lt n len) [
      | yes p ↦
          rw (ne→== n 0 ne, lt→leb n len p, skip_lem (omega (arith, rep.len_eq)))
            (Returns-bind (next skipped) _ _ _ (next-skipped (omega (arith, rep.len_eq)))
              λ o q. (refl, q.0, q.1))
      | no p ↦
          let past : length xs ≤ n = omega (arith, rep.len_eq) in
          rw (ne→== n 0 ne, le→leb len n (omega arith))
            (Returns-bind (clear r) _ _ _ (clear_refines r xs rep) λ o q. (
              q.0 ∙ sym (take_all n xs past),
              sym (get_elem?_of_le xs n past),
              rw (drop_all (n + 1) xs (omega arith)) q.1,
            ))
    ]
  ]

-- Dropping the iterator drops what it has left, in order, and leaves an empty buffer.
pub drop_drain_refines :
    {A : Type 0} (r : RingBuffer A) (xs : List A)
    → Represents r xs
    → Returns (drop_drain r) (λ o. (o.0 ≡ xs) × Represents o.1 [])
unfolding drop_drain
drop_drain_refines r xs rep = Returns-map (clear r) _ _ (clear_refines r xs rep) λ o p. (p.0, p.1)

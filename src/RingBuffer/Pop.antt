-- ===== src/RingBuffer/Pop.antt =====
-- `pop` of src/ring_buffer.rs against the queue that the buffer holds.
use native.Mathlib.Nat.{add-zero}
use amity.Prelude.{
  ◌+◌, ◌-◌, ◌%◌, ◌<◌, ◌≡◌, List, [], ◌∷◌, some, none, arith, length, get_elem?, drop, Returns, ok,
  refl, ◌∙◌, ap, sym, word,
}
use amity.RingBuffer.{RingBuffer, pop}
use amity.RingBuffer.Position.{position-front}
use amity.RingBuffer.Window.{advance-Represents}
use amity.RingBuffer.Represents.{Represents}

module _ {A : Type 0} where
  position-zero :
      {r : RingBuffer A} {x : A} {xs : List A}
      → Represents r (x ∷ xs)
      → (r.head + 0) % length r.array ≡ r.head
  position-zero {r} rep = position-front r.head (length r.array) 0 (omega arith) ∙ add-zero r.head

  head_cell :
      {r : RingBuffer A} {x : A} {xs : List A}
      → Represents r (x ∷ xs)
      → get_elem? r.array r.head ≡ some (some x)
  head_cell {r} {x} rep = ap (get_elem? r.array) (sym (position-zero rep)) ∙ rep.cells 0 x refl

  pop_empty : (r : RingBuffer A) → r.len ≡ 0 → pop r ≡ ok (none, r)
  unfolding pop
  pop_empty r e = ground arith

  pop_nonempty :
      (r : RingBuffer A) (x : A)
      → 0 < r.len
      → r.len < word
      → r.head + 1 < word
      → get_elem? r.array r.head ≡ some (some x)
      → pop r ≡ ok (some x, record r { head = (r.head + 1) % length r.array; len = r.len - 1 })
  unfolding pop
  pop_nonempty r x h k g e = ground arith

  -- From a buffer that holds a queue, `pop` returns its oldest value, if there is one, and leaves the
  -- buffer holding the rest, in the same array. It neither panics nor reads memory that is not
  -- initialised.
  pub pop_refines :
      (r : RingBuffer A) (xs : List A)
      → Represents r xs
      → Returns
          (pop r)
          (λ o. (o.0 ≡ get_elem? xs 0) × Represents o.1 (drop 1 xs) × (o.1.array ≡ r.array))
  pop_refines r [] rep = rw (pop_empty r rep.len_eq) (refl, rep, refl)
  pop_refines r (x ∷ xs) rep =
      rw
        (pop_nonempty r x (omega (arith, rep.len_eq)) (omega (arith, rep.len_in, rep.bounded))
          (omega (arith, rep.len_in, rep.len_eq, rep.bounded, rep.head_in)) (head_cell rep))
        (refl, advance-Represents r (x ∷ xs) rep 1 (omega arith), refl)

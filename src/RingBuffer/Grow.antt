-- ===== src/RingBuffer/Grow.antt =====
-- The array that `push` of src/ring_buffer.rs builds when it grows: two copies that unroll the ring
-- into a longer array, and a write behind them.
use amity.Prelude.{
  ℕ, ◌+◌, ◌-◌, ◌%◌, ◌≤◌, ◌<◌, ◌≡◌, List, Option, some, arith, length, get_elem?, set, ◌∙◌, ap, sym,
  refl, dec_lt, length-set, get_elem?-set_ne, get_elem?-set_self,
}
use amity.RingBuffer.{copied}
use amity.RingBuffer.Position.{position-front, position-back}
use amity.RingBuffer.Copy.{length-copied, copied_below, copied_inside}

module _ {A : Type 0} (array : List (Option A)) (head : ℕ) (fresh : List (Option A)) (v : A) where
  abbrev pub front : ℕ
  front = length array - head

  abbrev pub one : List (Option A)
  one = copied array head fresh 0 front

  abbrev pub two : List (Option A)
  two = copied array 0 one front head

  abbrev pub grown : List (Option A)
  grown = set two (length array) (some v)

module _ {A : Type 0} (array : List (Option A)) (head : ℕ) (fresh : List (Option A)) (v : A)
    (inside : head ≤ length array) (large : length array < length fresh) where
  pub length-one : length (one array head fresh v) ≡ length fresh
  length-one =
      length-copied array head fresh 0 (front array head fresh v) (omega arith) (omega arith)

  pub length-two : length (two array head fresh v) ≡ length fresh
  length-two =
      length-copied array 0 (one array head fresh v) (front array head fresh v) head (omega arith)
        (omega (arith, length-one))
      ∙ length-one

  pub length-grown : length (grown array head fresh v) ≡ length fresh
  length-grown = length-set (two array head fresh v) (length array) (some v) ∙ length-two

  pub grown_last : get_elem? (grown array head fresh v) (length array) ≡ some (some v)
  grown_last =
      get_elem?-set_self (two array head fresh v) (length array) (some v)
        (omega (arith, length-two))

  -- The slot `i` places from the head stands at index `i`.
  pub grown_at :
      (i : ℕ)
      → i < length array
      → head < length array
      → get_elem? (grown array head fresh v) i ≡ get_elem? array ((head + i) % length array)
  grown_at i h g =
      get_elem?-set_ne (two array head fresh v) (length array) i (some v) (omega arith)
      ∙ elim (dec_lt i (length array - head)) [
        | yes p ↦
            copied_below array 0 (one array head fresh v) (front array head fresh v) head
              (omega arith) (omega (arith, length-one)) i p
            ∙ copied_inside array head fresh 0 (front array head fresh v) (omega arith)
                (omega arith) i i (head + i) p (omega arith) refl
            ∙ ap (get_elem? array) (sym (position-front head (length array) i (omega arith)))
        | no p ↦
            copied_inside array 0 (one array head fresh v) (front array head fresh v) head
              (omega arith) (omega (arith, length-one)) (i - front array head fresh v) i
              (i - front array head fresh v) (omega arith) (omega arith) (omega arith)
            ∙ ap (get_elem? array) (sym (position-back head (length array) i g (omega arith) h))
      ]

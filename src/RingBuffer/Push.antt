-- ===== src/RingBuffer/Push.antt =====
-- `push` of src/ring_buffer.rs against the queue that the buffer holds: the write into a vacant
-- slot, and the growth of a full array.
use amity.Prelude.{
  ℕ, zero, suc, ◌+◌, ◌%◌, ◌≤◌, ◌<◌, ◌≡◌, List, [], ◌∷◌, ◌++◌, Option, some, arith, length,
  get_elem?, set, ◌∙◌, ap, ok, usize_max, Returns, Ensures, Ensures-bind, dec_lt, lt→ltb, le→ltb,
  length-set, get_elem?-set_self, lt_of_get_elem?, sub_word, sub_word_lem, add_word, add_word_lem,
  ◌>>=◌, word, max, ◌⊎◌, inl, inr, Returns-map, replicate, none, length-replicate,
}
use amity.RingBuffer.{
  Alloc, RingBuffer, copy_nonoverlapping, write_slot, push_vacant, push_grow, push, new_cap,
  uninit_array, min_non_zero_cap,
}
use amity.RingBuffer.Position.{ring_index-eq-mod, position-front}
use amity.RingBuffer.Represents.{Represents, uninit_array_lem}
use amity.RingBuffer.Window.{extend-Represents, written-Represents}
use amity.RingBuffer.Copy.{copy_lem}
use amity.RingBuffer.Grow.{
  front, one, two, grown, length-one, length-two, length-grown, grown_last, grown_at,
}

-- One value behind a window, as the list that `extend-Represents` asks for.
single_cell :
    {A : Type 0} (array : List (Option A)) (head k : ℕ) (v : A)
    → get_elem? array ((head + k) % length array) ≡ some (some v)
    → (i : ℕ) (y : A) → get_elem? (v ∷ []) i ≡ some y
    → get_elem? array ((head + (k + i)) % length array) ≡ some (some y)
single_cell array head k v h zero y e =
    ap (λ n. get_elem? array ((head + n) % length array)) (omega arith) ∙ h ∙ ap some e
single_cell array head k v h (suc i) y e = absurd (ground arith)

pub min_non_zero_cap_le : (size : ℕ) → min_non_zero_cap size ≤ 8
unfolding min_non_zero_cap
min_non_zero_cap_le size = ground arith

module _ {A : Type 0} (alloc : Alloc) (v : A) (r : RingBuffer A) (xs : List A)
    (rep : Represents r xs) where
  open r use {head, len, array}

  abbrev vacant : ℕ
  vacant = (head + len) % length array

  -- The buffer after a push into a vacant slot.
  abbrev pushed : RingBuffer A
  pushed = record { head = head; len = len + 1; array = set array vacant (some v) }

  push_vacant_lem : len < length array → push_vacant alloc v r ≡ ok pushed
  unfolding push_vacant
  push_vacant_lem h =
      ground (arith, rep.bounded, rep.head_in, ring_index-eq-mod head len (length array))

  pushed-Represents : len < length array → Represents pushed (xs ++ v ∷ [])
  pushed-Represents h =
      extend-Represents (record r { array = set array vacant (some v) }) xs
        (written-Represents r xs rep len v (omega arith) h) (v ∷ [])
        (omega (arith, length-set array vacant (some v)))
        (single_cell (set array vacant (some v)) head len v (
          ap (λ n. get_elem? (set array vacant (some v)) ((head + len) % n))
            (length-set array vacant (some v))
          ∙ get_elem?-set_self array vacant (some v) (omega (arith, rep.head_in))))

  -- The buffer after a push that grows the array into `fresh`.
  abbrev regrown : List (Option A) → RingBuffer A
  regrown fresh = record { head = 0; len = length array + 1; array = grown array head fresh v }

  regrown-Represents :
      (fresh : List (Option A))
      → length array ≤ len
      → length array < length fresh
      → length fresh ≤ usize_max
      → Represents (regrown fresh) (xs ++ v ∷ [])
  regrown-Represents fresh full large bounded =
      extend-Represents base xs base-Represents (v ∷ []) (omega (arith, size)) (
        single_cell (grown array head fresh v) 0 (length array) v (
          ap (get_elem? (grown array head fresh v)) (
            position-front 0 (length (grown array head fresh v)) (length array)
              (omega (arith, size))
            ∙ omega arith)
          ∙ grown_last array head fresh v inside large))
    where
      inside : head ≤ length array
      inside = omega (arith, rep.head_in)

      size : length (grown array head fresh v) ≡ length fresh
      size = length-grown array head fresh v inside large

      base : RingBuffer A
      base = record { head = 0; len = length array; array = grown array head fresh v }

      base-Represents : Represents base xs
      base-Represents = record {
        bounded = omega (arith, size);
        head_in = omega arith;
        len_eq = omega (arith, rep.len_eq, rep.len_in);
        len_in = omega (arith, size);
        cells = λ i x e.
            let here : i < length array =
              omega (arith, lt_of_get_elem? xs i x e, rep.len_eq, rep.len_in) in
            ap (get_elem? (grown array head fresh v)) (
              position-front 0 (length (grown array head fresh v)) i (omega (arith, size))
              ∙ omega arith)
            ∙ grown_at array head fresh v inside large i here (omega (arith, rep.head_in))
            ∙ rep.cells i x e;
      }

  -- What `push_grow` does once it has the new array.
  fill_lem :
      (fresh : List (Option A))
      → length array < length fresh
      → length fresh ≤ usize_max
      → (do
        first ← copy_nonoverlapping array head fresh 0 (sub_word (length array) head)
        second ← copy_nonoverlapping array 0 first (sub_word (length array) head) head
        last ← write_slot second (length array) v
        ok (record { head = 0; len = add_word (length array) 1; array = last }))
        ≡ ok (regrown fresh)
  fill_lem fresh large bounded = rw (
    sub_word_lem (length array) head inside (omega (arith, rep.bounded)),
    copy_lem array head fresh 0 (front array head fresh v) (omega arith) (omega arith),
    copy_lem array 0 (one array head fresh v) (front array head fresh v) head (omega arith)
        (omega (arith, length-one array head fresh v inside large)),
    lt→ltb (length array) (length (two array head fresh v))
        (omega (arith, length-two array head fresh v inside large)),
    add_word_lem (length array) 1 (omega (arith, rep.bounded)),
  )
    where
      inside : head ≤ length array
      inside = omega (arith, rep.head_in)

  new_cap_lem : (size cap' : ℕ) → Ensures (new_cap size cap') (λ n. cap' < n)
  unfolding new_cap
  new_cap_lem size cap' = ground arith

  new_cap-ok :
      length array + length array < word
      → new_cap alloc.size_of (length array)
        ≡ ok (max (length array + length array) (min_non_zero_cap alloc.size_of))
  unfolding new_cap
  new_cap-ok small = rw (lt→ltb (length array + length array) word small)

  push_grow_refines :
      length array ≤ len
      → Ensures
          (push_grow alloc v r)
          (λ r'. Represents r' (xs ++ v ∷ []) × (length array ≤ length r'.array))
  unfolding push_grow
  push_grow_refines full =
      Ensures-bind (new_cap alloc.size_of (length array)) _ _ _ (new_cap_lem _ _) λ n more.
        Ensures-bind (uninit_array alloc n) _ _ _ (uninit_array_lem A alloc n) λ fresh size.
          rw (fill_lem fresh (omega arith) size.1) (
            regrown-Represents fresh full (omega arith) size.1,
            omega
                (arith, length-grown array head fresh v (omega (arith, rep.head_in)) (omega arith)),
          )

  -- From a buffer that holds a queue, `push` that does not panic leaves the buffer holding the
  -- queue with the value behind it, in an array that has not shrunk. It never reads or writes out
  -- of bounds.
  pub push_refines :
      Ensures
        (push alloc v r)
        (λ r'. Represents r' (xs ++ v ∷ []) × (length array ≤ length r'.array))
  unfolding push
  push_refines = elim (dec_lt len (length array)) [
    | yes p ↦
        rw (lt→ltb len (length array) p, push_vacant_lem p)
          (pushed-Represents p, omega (arith, length-set array vacant (some v)))
    | no p ↦ rw (le→ltb len (length array) (omega arith)) (push_grow_refines (omega arith))
  ]

  -- From a buffer that holds a queue and whose array has room, `push` returns: it does not panic.
  -- The buffer holds the queue with the value behind it, in an array of the same length.
  pub push_room :
      length xs < length array
      → Returns
          (push alloc v r)
          (λ r'. Represents r' (xs ++ v ∷ []) × (length r'.array ≡ length array))
  unfolding push
  push_room h =
      rw
        (
          lt→ltb len (length array) (omega (arith, rep.len_eq)),
          push_vacant_lem (omega (arith, rep.len_eq)),
        )
        (pushed-Represents (omega (arith, rep.len_eq)), length-set array vacant (some v))

  -- The capacity that a full buffer asks for.
  abbrev pub wanted : ℕ
  wanted = max (length array + length array) (min_non_zero_cap alloc.size_of)

  push_grow-ok :
      (m : ℕ)
      → length array + length array < word
      → alloc.vec_capacity wanted ≡ some m
      → (o : RingBuffer A) × push_grow alloc v r ≡ ok o
  unfolding push_grow uninit_array
  push_grow-ok m small given =
      let asked : new_cap alloc.size_of (length array) ≡ ok wanted = new_cap-ok small in
      let more = rw asked at (new_cap_lem alloc.size_of (length array)) in
      let size = alloc.vec_capacity_lem wanted m given in
      let same = length-replicate {A = Option A} m none in
      (
        regrown (replicate m none),
        rw (
          asked,
          given,
          fill_lem (replicate m none) (omega (arith, more, size.0, same))
              (omega (arith, size.1, same)),
        ),
      )

  -- From a buffer that holds a queue, `push` returns, with the queue and the value behind it in the
  -- buffer, if the array has room, or if twice its length fits a word and the allocator gives the
  -- capacity that is asked for: only an overflow and the allocator make it panic.
  pub push_returns :
      (length xs < length array)
        ⊎ ((length array + length array < word) × ((m : ℕ) × alloc.vec_capacity wanted ≡ some m))
      → Returns (push alloc v r) (λ r'. Represents r' (xs ++ v ∷ []))
  unfolding push
  push_returns (inl room) = Returns-map (push alloc v r) _ _ (push_room room) λ o p. p.0
  push_returns (inr (small, (m, given))) = elim (dec_lt len (length array)) [
    | yes p ↦ Returns-map (push alloc v r) _ _ (push_room (omega (arith, rep.len_eq))) λ o q. q.0
    | no p ↦
        let (o, e) = push_grow-ok m small given in
        rw (le→ltb len (length array) (omega arith), e)
          (rw e at (push_grow_refines (omega arith))).0
  ]

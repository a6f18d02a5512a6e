-- ===== src/RingBuffer/Copy.antt =====
-- What a copy within bounds leaves in the target, for `copy_nonoverlapping` as src/ring_buffer.rs
-- calls it.
use amity.Prelude.{
  ℕ, ◌+◌, ◌-◌, ◌≤◌, ◌<◌, ◌≡◌, ◌++◌, List, Option, arith, length, get_elem?, take, drop, ◌∙◌, ok,
  length-append, length-take, length-drop, get_elem?-append_left, get_elem?-append_right,
  get_elem?-take, get_elem?-drop,
}
use amity.RingBuffer.{copied, copy_nonoverlapping}

module _ {A : Type 0} (src : List (Option A)) (from : ℕ) (dst : List (Option A)) (to n : ℕ)
    (readable : from + n ≤ length src) (writable : to + n ≤ length dst) where
  pub copy_lem : copy_nonoverlapping src from dst to n ≡ ok (copied src from dst to n)
  unfolding copy_nonoverlapping
  copy_lem = ground arith

  length_parts :
      (length (take to dst) ≡ to)
      × (length (take n (drop from src)) ≡ n)
      × (length (drop (to + n) dst) ≡ length dst - (to + n))
  length_parts = omega (
    arith,
    length-take to dst,
    length-take n (drop from src),
    length-drop from src,
    length-drop (to + n) dst,
  )

  pub length-copied : length (copied src from dst to n) ≡ length dst
  unfolding copied
  length-copied = omega (
    arith,
    length_parts,
    length-append (take to dst) (take n (drop from src) ++ drop (to + n) dst),
    length-append (take n (drop from src)) (drop (to + n) dst),
  )

  -- Below the target's offset nothing changes.
  pub copied_below : (j : ℕ) → j < to → get_elem? (copied src from dst to n) j ≡ get_elem? dst j
  unfolding copied
  copied_below j h =
      get_elem?-append_left (take to dst) (take n (drop from src) ++ drop (to + n) dst) j
        (omega (arith, length_parts))
      ∙ get_elem?-take to dst j h

  -- In the copied range stand the elements of the source.
  pub copied_inside :
      (i j k : ℕ)
      → i < n
      → j ≡ to + i
      → k ≡ from + i
      → get_elem? (copied src from dst to n) j ≡ get_elem? src k
  unfolding copied
  copied_inside i j k h at_j at_k =
      get_elem?-append_right (take to dst) (take n (drop from src) ++ drop (to + n) dst) i j
        (omega (arith, length_parts))
      ∙ get_elem?-append_left (take n (drop from src)) (drop (to + n) dst) i
          (omega (arith, length_parts))
      ∙ get_elem?-take n (drop from src) i h
      ∙ get_elem?-drop from src i k at_k

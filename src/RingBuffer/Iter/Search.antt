-- ===== src/RingBuffer/Iter/Search.antt =====
-- The searches and folds of the borrowing iterators of src/ring_buffer.rs, against the whole list.
use mathlib.Core.List.{reverse-append}
use amity.Prelude.{length-reverse}
use amity.Prelude.{
  ℕ, zero, suc, ◌+◌, ◌-◌, ◌≤◌, ◌<◌, ◌≡◌, Bool, true, false, List, [], ◌∷◌, ◌++◌, Option, none, some,
  arith, length, reverse, refl, ap, sym, ◌∙◌, if◌then◌else◌, length-append,
}
use amity.RingBuffer.Iter.{
  Iter, fold_slice, fold, rfold, find_slice, find, position_slice, position, rposition_slice,
  rposition, any_slice, any,
}

abbrev pub items : {A : Type 0} → Iter A → List A
items it = it.front ++ it.back

abbrev pub shift : ℕ → Option ℕ → Option ℕ
shift n none = none
shift n (some i) = some (n + i)

module _ {A B : Type 0} (f : B → A → B) where
  fold_slice-append :
      (init : B) (xs ys : List A)
      → fold_slice f init (xs ++ ys) ≡ fold_slice f (fold_slice f init xs) ys
  unfolding fold_slice
  fold_slice-append init [] ys = refl
  fold_slice-append init (x ∷ xs) ys = fold_slice-append (f init x) xs ys

  -- `fold` (and so `for_each`) meets every item of both slices, in order.
  pub fold-items : (init : B) (it : Iter A) → fold f init it ≡ fold_slice f init (items it)
  unfolding fold
  fold-items init it = sym (fold_slice-append init it.front it.back)

  -- `rfold` meets every item of both slices, in reverse order.
  pub rfold-items :
      (init : B) (it : Iter A) → rfold f init it ≡ fold_slice f init (reverse (items it))
  unfolding rfold
  rfold-items init it =
      sym (fold_slice-append init (reverse it.back) (reverse it.front))
      ∙ ap (fold_slice f init) (sym (reverse-append it.front it.back))

module _ {A : Type 0} (p : A → Bool) where
  -- The index of the first element that passes.
  pub first_index : List A → Option ℕ
  first_index [] = none
  first_index (x ∷ xs) = if p x then some 0 else shift 1 (first_index xs)

  position_slice_lem :
      (pos : ℕ) (xs : List A)
      → position_slice p pos xs ≡ elim (first_index xs) [
        | some i ↦ (some (pos + i), pos + i)
        | none ↦ (none, pos + length xs)
      ]
  unfolding position_slice first_index
  position_slice_lem pos [] = ground arith
  position_slice_lem pos (x ∷ xs) = ground (arith, position_slice_lem (pos + 1) xs)

  first_index-append :
      (xs ys : List A)
      → first_index (xs ++ ys)
        ≡ elim (first_index xs) [ some i ↦ some i | none ↦ shift (length xs) (first_index ys) ]
  unfolding first_index
  first_index-append [] ys = ground arith
  first_index-append (x ∷ xs) ys = ground (arith, first_index-append xs ys)

  -- `position` is the index, in both slices together, of the first item that passes.
  pub position-items : (it : Iter A) → position p it ≡ first_index (items it)
  unfolding position
  position-items it = ground (
    arith,
    position_slice_lem 0 it.front,
    first_index-append it.front it.back,
    position_slice_lem (length it.front) it.back,
  )

  rposition_slice_lem :
      (pos : ℕ) (xs : List A)
      → length xs ≤ pos
      → rposition_slice p pos xs ≡ elim (first_index xs) [
        | some i ↦ (some (pos - 1 - i), pos - 1 - i)
        | none ↦ (none, pos - length xs)
      ]
  unfolding rposition_slice first_index
  rposition_slice_lem pos [] h = ground arith
  rposition_slice_lem pos (x ∷ xs) h = ground (arith, rposition_slice_lem (pos - 1) xs)

  first_index-lt : (xs : List A) (i : ℕ) → first_index xs ≡ some i → i < length xs
  unfolding first_index
  first_index-lt [] i h = absurd (ground arith)
  first_index-lt (x ∷ xs) zero h = omega arith
  first_index-lt (x ∷ xs) (suc i) h = ground (arith, first_index-lt xs i)

  -- `rposition` is the index, in both slices together, of the last item that passes.
  pub rposition-items :
      (it : Iter A)
      → rposition p it ≡ elim (first_index (reverse (items it))) [
        | some i ↦ some (length (items it) - 1 - i)
        | none ↦ none
      ]
  unfolding rposition
  rposition-items it = rw (reverse-append it.front it.back) (
      ground (
        arith,
        length-append it.front it.back,
        length-reverse it.front,
        length-reverse it.back,
        first_index-append (reverse it.back) (reverse it.front),
        rposition_slice_lem (length it.back + length it.front) (reverse it.back),
        rposition_slice_lem (length it.front) (reverse it.front),
      ))

  find_slice-append :
      (xs ys : List A)
      → find_slice p (xs ++ ys) ≡ elim (find_slice p xs).0 [
        | some x ↦ (some x, (find_slice p xs).1 ++ ys)
        | none ↦ find_slice p ys
      ]
  unfolding find_slice
  find_slice-append [] ys = refl
  find_slice-append (x ∷ xs) ys = ground (arith, find_slice-append xs ys)

  find_slice-none : (xs : List A) → (find_slice p xs).0 ≡ none → (find_slice p xs).1 ≡ []
  unfolding find_slice
  find_slice-none [] h = refl
  find_slice-none (x ∷ xs) h = ground (arith, find_slice-none xs)

  -- `find` gives the first item that passes, in both slices together, and leaves the items that
  -- follow it.
  pub find-items :
      (it : Iter A)
      → ((find p it).0 ≡ (find_slice p (items it)).0)
        × (items (find p it).1 ≡ (find_slice p (items it)).1)
  unfolding find
  find-items it = ground (arith, find_slice-append it.front it.back, find_slice-none it.front)

  any_slice_lem :
      (xs : List A) → (any_slice p xs).0 ≡ elim (first_index xs) [ some i ↦ true | none ↦ false ]
  unfolding any_slice first_index
  any_slice_lem [] = refl
  any_slice_lem (x ∷ xs) = ground (arith, any_slice_lem xs)

  -- `any` holds exactly when some item of the two slices passes.
  pub any-items :
      (it : Iter A) → (any p it).0 ≡ elim (first_index (items it)) [ some i ↦ true | none ↦ false ]
  unfolding any
  any-items it =
      ground
        (arith, any_slice_lem it.front, any_slice_lem it.back, first_index-append it.front it.back)

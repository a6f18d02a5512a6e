-- ===== src/RingBuffer/Iter.antt =====
-- The borrowing iterators of src/ring_buffer.rs (`Iter`, and `IterMut` with the same text) over the
-- two slices of a buffer. A slice iterator is the list of the elements that it has left; one that
-- is taken from behind is taken from the front of the reversed list.
pub mod Next
pub mod Search
mod Tests
use amity.Prelude.{
  ℕ, ◌+◌, ◌-◌, Bool, true, false, List, [], ◌∷◌, Option, none, some, if◌then◌else◌, leb, length,
  get_elem?, drop, reverse,
}

pub record Iter {ℓ} (A : Type ℓ) : Type ℓ where
  pub front : List A
  pub back : List A

module _ {ℓ} {A : Type ℓ} where
  -- `next`, `nth` and `last` of a slice iterator.
  abbrev pub slice_next : List A → Option A × List A
  slice_next [] = (none, [])
  slice_next (x ∷ xs) = (some x, xs)

  abbrev pub slice_nth : ℕ → List A → Option A × List A
  slice_nth n xs = (get_elem? xs n, drop (n + 1) xs)

  abbrev pub slice_next_back : List A → Option A × List A
  slice_next_back xs = let (x, rest) = slice_next (reverse xs) in (x, reverse rest)

  abbrev pub slice_nth_back : ℕ → List A → Option A × List A
  slice_nth_back n xs = let (x, rest) = slice_nth n (reverse xs) in (x, reverse rest)

  -- `Option::or`: both arguments have been computed when it is called.
  abbrev pub or_option : Option A → Option A → Option A
  or_option (some a) b = some a
  or_option none b = b

  pub next : Iter A → Option A × Iter A
  next it =
      let (a, front) = slice_next it.front in
      let (b, back) = slice_next it.back in (or_option a b, record { front = front; back = back })

  pub next_back : Iter A → Option A × Iter A
  next_back it =
      let (b, back) = slice_next_back it.back in
      let (a, front) = slice_next_back it.front in
      (or_option b a, record { front = front; back = back })

  -- The front is asked for its length again after it has been exhausted.
  pub nth : ℕ → Iter A → Option A × Iter A
  nth n it =
      if leb (length it.front) n
      then (let (_, front) = slice_nth (length it.front) it.front in
          let (x, back) = slice_nth (n - length front) it.back in
          (x, record { front = front; back = back }))
      else (let (x, front) = slice_nth n it.front in (x, record it { front = front }))

  pub nth_back : ℕ → Iter A → Option A × Iter A
  nth_back n it =
      if leb (length it.back) n
      then (let (_, back) = slice_nth_back (length it.back) it.back in
          let (x, front) = slice_nth_back (n - length back) it.front in
          (x, record { front = front; back = back }))
      else (let (x, back) = slice_nth_back n it.back in (x, record it { back = back }))

  pub size_hint : Iter A → ℕ × Option ℕ
  size_hint it = (length it.front + length it.back, none)

  pub count : Iter A → ℕ
  count it = length it.front + length it.back

  pub last : Iter A → Option A
  last it = or_option (slice_next_back it.back).0 (slice_next_back it.front).0

  -- `for item in slice { state = f(state, item) }`.
  pub fold_slice {κ} : {B : Type κ} → (B → A → B) → B → List A → B
  fold_slice f state [] = state
  fold_slice f state (x ∷ xs) = fold_slice f (f state x) xs

  pub fold {κ} : {B : Type κ} → (B → A → B) → B → Iter A → B
  unfolding fold_slice
  fold f init it = let state = fold_slice f init it.front in fold_slice f state it.back

  pub rfold {κ} : {B : Type κ} → (B → A → B) → B → Iter A → B
  unfolding fold_slice
  rfold f init it =
      let state = fold_slice f init (reverse it.back) in fold_slice f state (reverse it.front)

  -- A loop that leaves at the first item that passes: the item and what the slice has left.
  pub find_slice : (A → Bool) → List A → Option A × List A
  find_slice p [] = (none, [])
  find_slice p (x ∷ xs) = let rest = find_slice p xs in if p x then (some x, xs) else rest

  pub find : (A → Bool) → Iter A → Option A × Iter A
  find p it =
      let (a, front) = find_slice p it.front in
      elim a [
        | some x ↦ (some x, record it { front = front })
        | none ↦ let (b, back) = find_slice p it.back in (b, record { front = front; back = back })
      ]

  pub rfind : (A → Bool) → Iter A → Option A × Iter A
  rfind p it =
      let (b, back) = find_slice p (reverse it.back) in
      elim b [
        | some x ↦ (some x, record it { back = reverse back })
        | none ↦
            let (a, front) = find_slice p (reverse it.front) in
            (a, record { front = reverse front; back = reverse back })
      ]

  -- `any` and `all` leave at the first item that passes, and that fails.
  pub any_slice : (A → Bool) → List A → Bool × List A
  any_slice p [] = (false, [])
  any_slice p (x ∷ xs) = let rest = any_slice p xs in if p x then (true, xs) else rest

  pub all_slice : (A → Bool) → List A → Bool × List A
  all_slice p [] = (true, [])
  all_slice p (x ∷ xs) = let rest = all_slice p xs in if p x then rest else (false, xs)

  pub any : (A → Bool) → Iter A → Bool × Iter A
  any p it =
      let (a, front) = any_slice p it.front in
      if a
      then (true, record it { front = front })
      else (let (b, back) = any_slice p it.back in (b, record { front = front; back = back }))

  pub all : (A → Bool) → Iter A → Bool × Iter A
  all p it =
      let (a, front) = all_slice p it.front in
      if a
      then (let (b, back) = all_slice p it.back in (b, record { front = front; back = back }))
      else (false, record it { front = front })

  -- The position of the first item that passes, counted on from `pos`, or the count at the end.
  pub position_slice : (A → Bool) → ℕ → List A → Option ℕ × ℕ
  position_slice p pos [] = (none, pos)
  position_slice p pos (x ∷ xs) =
      let rest = position_slice p (pos + 1) xs in if p x then (some pos, pos) else rest

  pub position : (A → Bool) → Iter A → Option ℕ
  position p it =
      let (a, pos) = position_slice p 0 it.front in
      elim a [ some i ↦ some i | none ↦ (position_slice p pos it.back).0 ]

  -- The same from behind: the list is the reversed slice, and `pos` is counted down.
  pub rposition_slice : (A → Bool) → ℕ → List A → Option ℕ × ℕ
  rposition_slice p pos [] = (none, pos)
  rposition_slice p pos (x ∷ xs) =
      let rest = rposition_slice p (pos - 1) xs in if p x then (some (pos - 1), pos - 1) else rest

  pub rposition : (A → Bool) → Iter A → Option ℕ
  rposition p it =
      let (b, pos) = rposition_slice p (length it.back + length it.front) (reverse it.back) in
      elim b [ some i ↦ some i | none ↦ (rposition_slice p pos (reverse it.front)).0 ]

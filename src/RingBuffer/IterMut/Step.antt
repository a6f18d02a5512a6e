-- ===== src/RingBuffer/IterMut/Step.antt =====
-- The steps of the mutable iterator of src/ring_buffer.rs, and its loops that carry a state. A closure
-- that gets a reference gives its state and what it leaves in the element.
pub mod Fold
pub mod Next
pub mod Skips
mod Tests
use amity.Prelude.{
  ℕ, zero, suc, ◌+◌, ◌-◌, Bool, true, false, List, [], ◌∷◌, Option, none, some, Outcome, ok, ◌>>=◌,
  length, set, leb, reverse, if◌then◌else◌,
}
use amity.RingBuffer.{RingBuffer, read_slot}
use amity.RingBuffer.Iter.{Iter, slice_next, slice_nth, slice_next_back, slice_nth_back, or_option}
use amity.RingBuffer.IterMut.{iter_mut}

-- Both slices are asked for their next place before `or` looks at either.
pub next : Iter ℕ → Option ℕ × Iter ℕ
next it =
    let (a, front) = slice_next it.front in
    let (b, back) = slice_next it.back in (or_option a b, record { front = front; back = back })

pub next_back : Iter ℕ → Option ℕ × Iter ℕ
next_back it =
    let (b, back) = slice_next_back it.back in
    let (a, front) = slice_next_back it.front in
    (or_option b a, record { front = front; back = back })

-- The first slice is asked for its length again after it has been exhausted.
pub nth : ℕ → Iter ℕ → Option ℕ × Iter ℕ
nth n it =
    if leb (length it.front) n
    then (let (_, front) = slice_nth (length it.front) it.front in
        let (place, back) = slice_nth (n - length front) it.back in
        (place, record { front = front; back = back }))
    else (let (place, front) = slice_nth n it.front in (place, record it { front = front }))

pub nth_back : ℕ → Iter ℕ → Option ℕ × Iter ℕ
nth_back n it =
    if leb (length it.back) n
    then (let (_, back) = slice_nth_back (length it.back) it.back in
        let (place, front) = slice_nth_back (n - length back) it.front in
        (place, record { front = front; back = back }))
    else (let (place, back) = slice_nth_back n it.back in (place, record it { back = back }))

pub size_hint : Iter ℕ → ℕ × Option ℕ
size_hint it = (length it.front + length it.back, none)

module _ {A B : Type 0} where
  -- `for item in slice { state = f(state, item) }`.
  abbrev pub fold_slice :
      (B → A → B × A) → B → List ℕ → List (Option A) → Outcome (B × List (Option A))
  fold_slice f state [] array = ok (state, array)
  fold_slice f state (place ∷ rest) array = read_slot array place >>= λ x.
      fold_slice f (f state x).0 rest (set array place (some (f state x).1))

  pub fold : (B → A → B × A) → B → Iter ℕ → List (Option A) → Outcome (B × List (Option A))
  fold f init it array = fold_slice f init it.front array >>= λ o. fold_slice f o.0 it.back o.1

  pub rfold : (B → A → B × A) → B → Iter ℕ → List (Option A) → Outcome (B × List (Option A))
  rfold f init it array =
      fold_slice f init (reverse it.back) array >>= λ o. fold_slice f o.0 (reverse it.front) o.1

  -- `while let Some(item) = it.next() { state = f(state, item) }`.
  unfoldable pub next_loop :
      ℕ → (B → A → B × A) → B → Iter ℕ → List (Option A) → Outcome (B × List (Option A))
  unfolding next
  next_loop zero f state it array = ok (state, array)
  next_loop (suc fuel) f state it array = elim (next it).0 [
    | none ↦ ok (state, array)
    | some place ↦ read_slot array place >>= λ x.
        next_loop fuel f (f state x).0 (next it).1 (set array place (some (f state x).1))
  ]

module _ {A : Type 0} where
  -- A loop that leaves at the first item that passes; its predicate cannot write.
  abbrev pub find_slice : (A → Bool) → List ℕ → List (Option A) → Outcome (Option ℕ × List ℕ)
  find_slice p [] array = ok (none, [])
  find_slice p (place ∷ rest) array = read_slot array place >>= λ x. elim (p x) [
    | true ↦ ok (some place, rest)
    | false ↦ find_slice p rest array
  ]

  pub rfind : (A → Bool) → Iter ℕ → List (Option A) → Outcome (Option ℕ × Iter ℕ)
  rfind p it array = find_slice p (reverse it.back) array >>= λ o. elim o.0 [
    | some place ↦ ok (some place, record it { back = reverse o.1 })
    | none ↦ find_slice p (reverse it.front) array >>= λ o'.
        ok (o'.0, record { front = reverse o'.1; back = reverse o.1 })
  ]

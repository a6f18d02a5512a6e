-- ===== src/RingBuffer/Iter/Next.antt =====
-- Stepping with `next`, `next_back` and `nth` of the borrowing iterators of src/ring_buffer.rs.
use amity.Prelude.{
  ℕ, zero, suc, ◌+◌, ◌≤◌, ◌<◌, ◌≡◌, List, [], ◌∷◌, ◌++◌, none, some, arith, length, drop, refl, ap,
  sym, ◌∙◌, ◌↔◌, ◌⊎◌, inl, inr, get_elem?, le→leb, drop_all, length-append, length-drop,
  get_elem?-append_right,
}
use amity.RingBuffer.Iter.{Iter, next, nth}

-- A `for` loop: the items that `next` gives until it gives none.
unfoldable pub collect : {A : Type 0} → ℕ → Iter A → List A
collect zero it = []
collect (suc fuel) it =
    let (item, rest) = next it in elim item [ none ↦ [] | some x ↦ x ∷ collect fuel rest ]

-- A loop over `next` sees the first slice and, of the second, only what is left after one element
-- has been dropped for each step through the first.
pub collect-next :
    {A : Type 0} (fuel : ℕ) (front back : List A)
    → length front + length back < fuel
    → collect fuel (record { front = front; back = back }) ≡ front ++ drop (length front) back
unfolding collect next
collect-next zero front back h = absurd (omega arith)
collect-next (suc fuel) [] [] h = refl
collect-next (suc fuel) [] (y ∷ back) h = ap (λ t. y ∷ t) (collect-next fuel [] back (omega arith))
collect-next (suc fuel) (x ∷ front) [] h =
    ap (λ t. x ∷ t)
      (collect-next fuel front [] (omega arith)
        ∙ ap (λ t. front ++ t) (drop_all (length front) [] (omega arith)))
collect-next (suc fuel) (x ∷ front) (y ∷ back) h =
    ap (λ t. x ∷ t) (collect-next fuel front back (omega arith))

lost :
    {A : Type 0} (front back : List A)
    → length (front ++ drop (length front) back) ≡ length (front ++ back)
    → (front ≡ []) ⊎ (back ≡ [])
lost [] back h = inl refl
lost (x ∷ front) [] h = inr refl
lost (x ∷ front) (y ∷ back) h = absurd (
    omega (
      arith,
      length-append (x ∷ front) (drop (length front) back),
      length-append (x ∷ front) (y ∷ back),
      length-drop (length front) back,
    ))

-- A loop over `next`, with fuel for every item, sees every item exactly when one of the two slices
-- is empty.
pub collect_complete :
    {A : Type 0} (fuel : ℕ) (front back : List A)
    → length front + length back < fuel
    → (collect fuel (record { front = front; back = back }) ≡ front ++ back)
      ↔ ((front ≡ []) ⊎ (back ≡ []))
collect_complete {A} fuel front back h = (only, whole)
  where
    e : collect fuel (record { front = front; back = back }) ≡ front ++ drop (length front) back
    e = collect-next fuel front back h

    only :
        collect fuel (record { front = front; back = back }) ≡ front ++ back
        → (front ≡ []) ⊎ (back ≡ [])
    only q = lost front back (ap length (sym e ∙ q))

    whole :
        (front ≡ []) ⊎ (back ≡ [])
        → collect fuel (record { front = front; back = back }) ≡ front ++ back
    whole (inl p) = e ∙ rw p
    whole (inr p) = e ∙ rw p (ap (λ t. front ++ t) (drop_all (length front) [] (omega arith)))

-- `nth n` with `n` not below the first slice's length gives the item at `n` of the second slice,
-- which is the one at the first slice's length plus `n` of both together.
pub nth_beyond :
    {A : Type 0} (n : ℕ) (front back : List A)
    → length front ≤ n
    → (nth n (record { front = front; back = back })).0
      ≡ get_elem? (front ++ back) (length front + n)
unfolding nth
nth_beyond n front back h =
    rw (le→leb (length front) n h, drop_all (length front + 1) front (omega arith))
      (ap (get_elem? back) (omega arith)
        ∙ sym (get_elem?-append_right front back n (length front + n) refl))

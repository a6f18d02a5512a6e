-- ===== src/RingBuffer/IterMut/Step/Tests.antt =====
-- The steps and loops of the mutable iterator of src/ring_buffer.rs on a buffer that goes round.
use amity.Prelude.{ℕ, ◌+◌, ◌≡◌, refl, arith, [], ◌∷◌, none, some, ok, Returns, ltb}
use amity.RingBuffer.{RingBuffer}
use amity.RingBuffer.Represents.{Represents}
use amity.RingBuffer.Iter.{Iter}
use amity.RingBuffer.IterMut.{iter_mut}
use amity.RingBuffer.IterMut.Step.{
  next, next_back, nth, nth_back, size_hint, fold, rfold, rfind, next_loop,
}
use amity.RingBuffer.IterMut.Step.Fold.{fold_refines}
use amity.RingBuffer.IterMut.Step.Skips.{next_loop_skips}

abbrev round : RingBuffer ℕ
round = record { head = 2; len = 3; array = some 5 ∷ some 6 ∷ some 4 ∷ [] }

round-Represents : Represents round (4 ∷ 5 ∷ 6 ∷ [])
round-Represents = record {
  bounded = omega arith;
  head_in = omega arith;
  len_eq = refl;
  len_in = omega arith;
  cells = λ i x e. ground arith;
}

-- The closure adds the values up and raises each by 10.
abbrev raise : ℕ → ℕ → ℕ × ℕ
raise state x = (state + x, x + 10)

abbrev slices : Iter ℕ
slices = record { front = 2 ∷ []; back = 0 ∷ 1 ∷ [] }

steps_run :
    (next slices ≡ (some 2, record { front = []; back = 1 ∷ [] }))
    × (next_back slices ≡ (some 1, record { front = []; back = 0 ∷ [] }))
    × (nth 1 slices ≡ (some 1, record { front = []; back = [] }))
    × (nth_back 0 slices ≡ (some 1, record { front = 2 ∷ []; back = 0 ∷ [] }))
    × (size_hint slices ≡ (3, none))
unfolding next next_back nth nth_back size_hint
steps_run = (refl, refl, refl, refl, refl)

loops_run :
    (rfold raise 0 (iter_mut round) round.array ≡ ok (15, some 15 ∷ some 16 ∷ some 14 ∷ []))
    × (next_loop 4 raise 0 (iter_mut round) round.array ≡ ok (10, some 5 ∷ some 16 ∷ some 14 ∷ []))
    × (rfind (λ x. ltb x 6) (iter_mut round) round.array
        ≡ ok (some 0, record { front = 2 ∷ []; back = [] }))
unfolding rfold next_loop next rfind iter_mut
loops_run = (refl, refl, refl)

fold_refines_example :
    Returns
      (fold raise 0 (iter_mut round) round.array)
      (λ o. (o.0 ≡ 15) × Represents (record round { array = o.1 }) (14 ∷ 15 ∷ 16 ∷ []))
fold_refines_example = fold_refines raise 0 round (4 ∷ 5 ∷ 6 ∷ []) round-Represents

next_loop_skips_example :
    Returns
      (next_loop 4 raise 0 (iter_mut round) round.array)
      (λ o. (o.0 ≡ 10) × Represents (record round { array = o.1 }) (14 ∷ 5 ∷ 16 ∷ []))
next_loop_skips_example =
    next_loop_skips raise round (4 ∷ 5 ∷ 6 ∷ []) round-Represents 0 4 (omega arith)

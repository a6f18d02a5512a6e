-- ===== src/RingBuffer/IterMut/Tests.antt =====
-- The mutable iterator of src/ring_buffer.rs on a buffer that goes round.
use amity.Prelude.{length, ◌++◌, get_elem?, ℕ, ◌+◌, ◌≡◌, ◌<◌, refl, arith, [], ◌∷◌, none, some, ok}
use amity.RingBuffer.{RingBuffer}
use amity.RingBuffer.Represents.{Represents}
use amity.RingBuffer.IterMut.{iter_mut, for_each}
use amity.RingBuffer.IterMut.Places.{references_apart}

abbrev round : RingBuffer ℕ
round = record { head = 2; len = 2; array = some 5 ∷ none ∷ some 4 ∷ [] }

round-Represents : Represents round (4 ∷ 5 ∷ [])
round-Represents = record {
  bounded = omega arith;
  head_in = omega arith;
  len_eq = refl;
  len_in = omega arith;
  cells = λ i x e. ground arith;
}

for_each_runs :
    (iter_mut round ≡ record { front = 2 ∷ []; back = 0 ∷ [] })
    × (for_each (λ x. x + 1) round
        ≡ ok (record { head = 2; len = 2; array = some 6 ∷ none ∷ some 5 ∷ [] }))
unfolding iter_mut for_each
for_each_runs = (refl, refl)

references_apart_example :
    (length ((iter_mut round).front ++ (iter_mut round).back) ≡ 2)
    × ((i a x : ℕ)
        → get_elem? ((iter_mut round).front ++ (iter_mut round).back) i ≡ some a
        → get_elem? (4 ∷ 5 ∷ []) i ≡ some x
        → get_elem? round.array a ≡ some (some x))
    × ((i j a : ℕ)
        → get_elem? ((iter_mut round).front ++ (iter_mut round).back) i ≡ some a
        → get_elem? ((iter_mut round).front ++ (iter_mut round).back) j ≡ some a
        → (a < 3) × (i ≡ j))
references_apart_example = references_apart round (4 ∷ 5 ∷ []) round-Represents

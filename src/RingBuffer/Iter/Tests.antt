-- ===== src/RingBuffer/Iter/Tests.antt =====
-- The borrowing iterators of src/ring_buffer.rs on a small buffer.
use amity.Prelude.{ℕ, ◌%◌, ◌≡◌, refl, ◌↔◌, ◌⊎◌, arith, Bool, true, false, [], ◌∷◌, some, none, ◌==◌}
use amity.RingBuffer.Iter
use amity.RingBuffer.Iter.{Iter}
use amity.RingBuffer.Iter.Next.{collect, collect_complete}

abbrev pair : Iter ℕ
pair = record { front = 1 ∷ 2 ∷ []; back = 3 ∷ 4 ∷ 5 ∷ [] }

abbrev odd : ℕ → Bool
odd n = n % 2 == 1

-- A loop over `next` misses two of the five items, and one over `next_back` starts at the last one
-- and drops from the front as it goes.
iter_runs :
    (collect 9 pair ≡ 1 ∷ 2 ∷ 5 ∷ [])
    × (Iter.next_back pair ≡ (some 5, record { front = 1 ∷ []; back = 3 ∷ 4 ∷ [] }))
    × ((Iter.nth_back 3 pair).0 ≡ none)
    × (Iter.size_hint pair ≡ (5, none))
    × (Iter.count pair ≡ 5)
    × (Iter.last pair ≡ some 5)
    × ((Iter.rfind odd pair).0 ≡ some 5)
    × ((Iter.all odd pair).0 ≡ false)
    × ((Iter.any odd pair).0 ≡ true)
unfolding collect Iter.next Iter.next_back Iter.nth_back Iter.size_hint Iter.count Iter.last
    Iter.rfind Iter.find_slice Iter.all Iter.all_slice Iter.any Iter.any_slice
iter_runs = (refl, refl, refl, refl, refl, refl, refl, refl, refl)

collect_complete_example :
    (collect 9 pair ≡ 1 ∷ 2 ∷ 3 ∷ 4 ∷ 5 ∷ []) ↔ ((pair.front ≡ []) ⊎ (pair.back ≡ []))
collect_complete_example = collect_complete 9 (1 ∷ 2 ∷ []) (3 ∷ 4 ∷ 5 ∷ []) (omega arith)

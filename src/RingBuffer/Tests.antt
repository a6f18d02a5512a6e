-- ===== src/RingBuffer/Tests.antt =====
-- Runs of src/ring_buffer.rs on small buffers, and its theorems at concrete inputs.
use amity.Prelude.{
  ℕ, ◌^◌, ◌≤◌, ◌≡◌, refl, arith, [], ◌∷◌, some, none, ok, panic, undefined, Returns, Ensures,
  length, zero, suc, get_elem?, inr, ◌+◌, ◌%◌, ap,
}
use amity.Samples.{exact, wrapped, wrapped-Represents}
use amity.RingBuffer.{
  min_non_zero_cap, RingBuffer, ring_index, new_cap, with_capacity, new, push, push_vacant,
  push_grow, pop, uninit_array, copied, copy_nonoverlapping,
}
use amity.RingBuffer.Represents.{Represents}
use amity.RingBuffer.Pop.{pop_refines}
use amity.RingBuffer.Push.{push_refines, push_returns}

abbrev full : RingBuffer ℕ
full = record { head = 1; len = 2; array = some 6 ∷ some 5 ∷ [] }

-- A push into a full array unrolls the ring into a longer one.
push-full :
    push exact 4 full
    ≡ ok (record { head = 0; len = 3; array = some 5 ∷ some 6 ∷ some 4 ∷ none ∷ [] })
unfolding push push_grow new_cap uninit_array copy_nonoverlapping copied
push-full = refl

push-wrapped :
    push exact 4 wrapped ≡ ok (record { head = 2; len = 3; array = some 9 ∷ some 4 ∷ some 8 ∷ [] })
unfolding push push_vacant ring_index
push-wrapped = refl

new_runs : new {A = ℕ} exact ≡ ok (record { head = 0; len = 0; array = [] })
unfolding new with_capacity uninit_array
new_runs = refl

new_cap_limits :
    (new_cap 8 0 ≡ ok 4)
    × (new_cap 1 3 ≡ ok 8)
    × (new_cap 2000 0 ≡ ok 1)
    × (new_cap 8 (2 ^ 63) ≡ panic)
unfolding new_cap
new_cap_limits = (refl, refl, refl, refl)

abbrev vacant : RingBuffer ℕ
vacant = record { head = 0; len = 1; array = none ∷ [] }

-- A read of memory that was never written is undefined.
pop-vacant : pop vacant ≡ undefined
unfolding pop
pop-vacant = refl

push_refines_example :
    Ensures (push exact 4 wrapped) (λ r. Represents r (8 ∷ 9 ∷ 4 ∷ []) × (3 ≤ length r.array))
push_refines_example = push_refines exact 4 wrapped (8 ∷ 9 ∷ []) wrapped-Represents

pop_refines_example :
    Returns
      (pop wrapped)
      (λ o. (o.0 ≡ some 8) × Represents o.1 (9 ∷ []) × (o.1.array ≡ wrapped.array))
pop_refines_example = pop_refines wrapped (8 ∷ 9 ∷ []) wrapped-Represents

full_cells :
    (i x : ℕ)
    → get_elem? (5 ∷ 6 ∷ []) i ≡ some x
    → get_elem? full.array ((1 + i) % 2) ≡ some (some x)
full_cells zero x e = ap some e
full_cells (suc zero) x e = ap some e
full_cells (suc (suc i)) x e = absurd (ground arith)

full-Represents : Represents full (5 ∷ 6 ∷ [])
full-Represents = record {
  bounded = omega arith;
  head_in = omega arith;
  len_eq = refl;
  len_in = omega arith;
  cells = full_cells;
}

push_returns_example : Returns (push exact 4 full) (λ r. Represents r (5 ∷ 6 ∷ 4 ∷ []))
unfolding min_non_zero_cap
push_returns_example =
    push_returns exact 4 full (5 ∷ 6 ∷ []) full-Represents (inr (omega arith, (4, refl)))

-- ===== src/StatePtr/Tests.antt =====
-- The merged words of src/state_ptr.rs, at an alignment of 8 bytes.
use amity.Prelude.{ℕ, ◌+◌, ◌≤◌, ◌^◌, ◌≡◌, refl, arith, true, inl, inr}
use amity.StatePtr.{
  new, new_zero, null_state, state, ptr, load, store, swap, compare_exchange, compare_exchange_weak,
  state_zero, state_value, null_zero, from_raw, raw, cell_null_zero, cell_new, cell_null_state,
  cell_new_zero, cell_from_raw, cell_from_ptr_state,
}
use amity.StatePtr.Cells.{Parted, cell_parts}

parts_run : (ptr 3 85 ≡ 80) × (state 3 85 ≡ 5) × (new_zero 80 ≡ 80) × (state 3 (null_state 5) ≡ 5)
unfolding ptr state new_zero null_state
parts_run = (refl, refl, refl, refl)

cell_runs :
    (load 85 ≡ (85, 85))
    × (store 8 85 ≡ 8)
    × (swap 8 85 ≡ (85, 8))
    × (compare_exchange 85 8 85 ≡ (inl 85, 8))
    × (compare_exchange 80 8 85 ≡ (inr 85, 85))
    × (compare_exchange_weak true 85 8 85 ≡ (inr 85, 85))
unfolding load store swap compare_exchange compare_exchange_weak
cell_runs = (refl, refl, refl, refl, refl, refl)

constructors_run :
    (state_value state_zero ≡ 0)
    × (null_zero ≡ 0)
    × (raw (from_raw 85) ≡ 85)
    × (cell_null_state 5 ≡ 5)
    × (cell_from_raw 85 ≡ 85)
unfolding cell_null_state cell_new
constructors_run = (refl, refl, refl, refl, refl)

cell_parts_example :
    Parted 3 (load (cell_new 80 5)).0 80 5
    × Parted 3 (load (cell_new_zero 80)).0 80 0
    × Parted 3 (load (cell_null_state 5)).0 0 5
    × Parted 3 (load cell_null_zero).0 0 0
    × (cell_from_ptr_state (new 80 5) ≡ cell_new 80 5)
    × (cell_from_raw (raw (new 80 5)) ≡ cell_new 80 5)
    × ((next : ℕ)
        → (swap next (cell_new 80 5) ≡ (new 80 5, next))
          × (compare_exchange (new 80 5) next (cell_new 80 5) ≡ (inl (new 80 5), next)))
cell_parts_example = cell_parts 3 80 5 refl (omega arith) (omega arith)

ptr_85 : ptr 3 85 + 8 ≤ 2 ^ 64
unfolding ptr
ptr_85 = omega arith

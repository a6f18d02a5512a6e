-- ===== src/StatePtr/Cells.antt =====
-- The cells that the constructors of src/state_ptr.rs make, and what their accesses give back.
use amity.Prelude.{ℕ, ◌+◌, ◌%◌, ◌^◌, ◌≤◌, ◌<◌, ◌≡◌, refl, arith, subst, inl, word}
use native.Mathlib.Nat.{mod-eq_of_lt}
use amity.Bits.{pow_pos}
use amity.StatePtr.{
  new, ptr, state, load, swap, compare_exchange, raw, cell_null_zero, cell_new, cell_null_state,
  cell_new_zero, cell_from_raw, cell_from_ptr_state,
}
use amity.StatePtr.Parts.{ptr-state-new}

-- What a merged word holds.
abbrev pub Parted : ℕ → ℕ → ℕ → ℕ → Type 0
Parted k s p st = (ptr k s ≡ p) × (state k s ≡ st)

plain : (p : ℕ) → p < word → new p 0 ≡ p
unfolding new
plain p h = omega arith

hit : (a b : ℕ) → compare_exchange a b a ≡ (inl a, b)
unfolding compare_exchange
hit a b = ground arith

-- A pointer to an aligned block inside the address space and a state below the alignment: the words that
-- the constructors of `PtrState` and of the cell make hold the pointer and the state, the pointer with
-- no state, the null pointer with the state, and the null pointer with no state. A cell made of such a
-- word is loaded as that word, a swap gives it back, and a compare-exchange from it
-- succeeds and stores the new word.
pub cell_parts :
    (k p st : ℕ)
    → p % 2 ^ k ≡ 0
    → p + 2 ^ k ≤ word
    → st < 2 ^ k
    → Parted k (load (cell_new p st)).0 p st
      × Parted k (load (cell_new_zero p)).0 p 0
      × Parted k (load (cell_null_state st)).0 0 st
      × Parted k (load cell_null_zero).0 0 0
      × (cell_from_ptr_state (new p st) ≡ cell_new p st)
      × (cell_from_raw (raw (new p st)) ≡ cell_new p st)
      × ((next : ℕ)
          → (swap next (cell_new p st) ≡ (new p st, next))
            × (compare_exchange (new p st) next (cell_new p st) ≡ (inl (new p st), next)))
unfolding load cell_new cell_null_state swap new
cell_parts k p st aligned inside low =
    let small = pow_pos k in
    let zero_in : 0 % 2 ^ k ≡ 0 = mod-eq_of_lt small in
    (
      ptr-state-new k p st aligned inside low,
      subst (λ s. Parted k s p 0) (plain p (omega arith))
          (ptr-state-new k p 0 aligned inside small),
      ptr-state-new k 0 st zero_in (omega arith) low,
      subst (λ s. Parted k s 0 0) (plain 0 (omega arith))
          (ptr-state-new k 0 0 zero_in (omega arith) small),
      refl,
      refl,
      λ next. (refl, hit (new p st) next),
    )

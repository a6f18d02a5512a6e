-- ===== src/StatePtr/Parts.antt =====
-- The parts of a merged word of src/state_ptr.rs.
use native.Mathlib.Nat.{mod-eq_of_lt, mod-lt, mod-le, mod-add-mod, div-add-mod, mul-mod_right}
use amity.Prelude.{
  ℕ, ◌+◌, ◌-◌, ◌/◌, ◌%◌, ◌^◌, ◌≤◌, ◌<◌, ◌≡◌, refl, sym, ap, ◌∙◌, arith, none, some, if◌then◌else◌,
  ltb, word,
}
use amity.Bits.{bit_and_mask, pow_pos}
use amity.StatePtr.{state_new, new_truncated, new, state, ptr, with_state, with_ptr}

-- `State::new` takes exactly the values below the alignment, and `new_truncated` reduces any value to
-- one of these.
pub state_values :
    (k value : ℕ)
    → (state_new k value ≡ (if ltb value (2 ^ k) then some value else none))
      × (new_truncated k value ≡ value % 2 ^ k)
      × (new_truncated k value < 2 ^ k)
unfolding state_new new_truncated
state_values k value = rw (bit_and_mask k value) (
  ground (arith, mod-lt value (pow_pos k), mod-eq_of_lt {n = value} {m = 2 ^ k}),
  refl,
  mod-lt value (pow_pos k),
)

state_lem : (k s : ℕ) → state k s ≡ s % 2 ^ k
unfolding state
state_lem k s = bit_and_mask k s

ptr_lem : (k s : ℕ) → s < word → ptr k s ≡ s - s % 2 ^ k
unfolding ptr
ptr_lem k s h = rw (bit_and_mask k s) (omega (arith, mod-le s (2 ^ k)))

aligned_mod : (k p st : ℕ) → p % 2 ^ k ≡ 0 → st < 2 ^ k → (p + st) % 2 ^ k ≡ st
aligned_mod k p st h g =
    sym (mod-add-mod p (2 ^ k) st)
    ∙ ap (λ t. (t + st) % 2 ^ k) h
    ∙ ap (λ t. t % 2 ^ k) (omega arith)
    ∙ mod-eq_of_lt g

-- A word below `2 ^ 64` taken apart: the state is below the alignment, the pointer is a multiple
-- of it, and the two make up the word.
pub new-ptr-state :
    (k s : ℕ)
    → s < word
    → (new (ptr k s) (state k s) ≡ s) × (state k s < 2 ^ k) × (ptr k s % 2 ^ k ≡ 0)
unfolding new
new-ptr-state k s h = (
  rw (ptr_lem k s h, state_lem k s) (omega (arith, mod-le s (2 ^ k))),
  rw (state_lem k s) (mod-lt s (pow_pos k)),
  rw (ptr_lem k s h) (
      ap (λ t. t % 2 ^ k) (omega (arith, div-add-mod s (2 ^ k)))
      ∙ mul-mod_right (2 ^ k) (s / 2 ^ k)),
)

module _ (k p st : ℕ) (aligned : p % 2 ^ k ≡ 0) (inside : p + 2 ^ k ≤ word) (low : st < 2 ^ k) where
  -- A pointer to an aligned block inside the address space and a state below the alignment come back
  -- from the word that they are merged into.
  pub ptr-state-new : (ptr k (new p st) ≡ p) × (state k (new p st) ≡ st)
  unfolding new
  ptr-state-new =
      let small : (p + st) % word ≡ p + st = omega arith in
      let rest : (p + st) % 2 ^ k ≡ st = aligned_mod k p st aligned low in
      (
        rw (small, ptr_lem k (p + st) (omega arith)) (omega (arith, rest)),
        rw (small, state_lem k (p + st)) rest,
      )

-- For a word, an aligned pointer and a state below the alignment, where the blocks of both
-- pointers end inside the address space: `with_state` keeps the pointer and `with_ptr` keeps the
-- state; each sets the other part.
pub with_parts :
    (k s st p : ℕ)
    → s < word
    → ptr k s + 2 ^ k ≤ word
    → st < 2 ^ k
    → p % 2 ^ k ≡ 0
    → p + 2 ^ k ≤ word
    → (ptr k (with_state k s st) ≡ ptr k s)
      × (state k (with_state k s st) ≡ st)
      × (ptr k (with_ptr k s p) ≡ p)
      × (state k (with_ptr k s p) ≡ state k s)
unfolding with_state with_ptr
with_parts k s st p h g low aligned inside =
    let (_, small, flush) = new-ptr-state k s h in
    let (a, b) = ptr-state-new k (ptr k s) st flush g low in
    let (c, d) = ptr-state-new k p (state k s) aligned inside small in (a, b, c, d)

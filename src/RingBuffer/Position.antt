-- ===== src/RingBuffer/Position.antt =====
-- Where `ring_index` of src/ring_buffer.rs lands.
use native.Mathlib.Nat.{mod-eq_of_lt, mod-eq-sub-mod, mod-add-mod}
use amity.Prelude.{ℕ, ◌+◌, ◌-◌, ◌%◌, ◌≤◌, ◌<◌, ◌≡◌, ◌≢◌, ap, ◌∙◌, arith, dec_lt, word}
use amity.RingBuffer.{ring_index}

mod_once : {k cap : ℕ} → cap ≤ k → k < cap + cap → k % cap ≡ k - cap
mod_once {k} {cap} h g =
    omega (
      arith,
      mod-eq-sub-mod {n = k} {m = cap} h,
      mod-eq_of_lt {n = k - cap} {m = cap} (omega arith),
    )

-- For a head inside the array and an index of at most its length, `ring_index` is addition modulo
-- the length, and none of its machine operations wraps.
pub ring_index-eq-mod :
    (head index cap : ℕ)
    → head < cap
    → index ≤ cap
    → cap < word
    → ring_index head index cap ≡ (head + index) % cap
unfolding ring_index
ring_index-eq-mod head index cap h i c = elim (dec_lt (head + index) cap) [
  | yes p ↦ ground (arith, mod-eq_of_lt p)
  | no p ↦ ground (arith, mod_once {k = head + index} {cap = cap} (omega arith) (omega arith))
]

-- Two offsets below the length have two positions.
pub position-ne :
    {head cap i j : ℕ} → head < cap → i < j → j < cap → (head + i) % cap ≢ (head + j) % cap
position-ne {head} {cap} {i} {j} h ij jc = elim (dec_lt (head + j) cap) [
  | yes p ↦ omega (arith, mod-eq_of_lt p, mod-eq_of_lt {n = head + i} {m = cap} (omega arith))
  | no p ↦ elim (dec_lt (head + i) cap) [
    | yes q ↦
        omega
          (arith, mod-eq_of_lt q, mod_once {k = head + j} {cap = cap} (omega arith) (omega arith))
    | no q ↦ omega (
      arith,
      mod_once {k = head + j} {cap = cap} (omega arith) (omega arith),
      mod_once {k = head + i} {cap = cap} (omega arith) (omega arith),
    )
  ]
]

pub position-shift : (head i cap k : ℕ) → ((head + k) % cap + i) % cap ≡ (head + (k + i)) % cap
position-shift head i cap k = mod-add-mod (head + k) cap i ∙ ap (λ n. n % cap) (omega arith)

pub position-front : (head cap i : ℕ) → head + i < cap → (head + i) % cap ≡ head + i
position-front head cap i h = mod-eq_of_lt h

pub position-back :
    (head cap i : ℕ) → head < cap → cap - head ≤ i → i < cap → (head + i) % cap ≡ i - (cap - head)
position-back head cap i h g k =
    omega (arith, mod_once {k = head + i} {cap = cap} (omega arith) (omega arith))

-- ===== src/RingBuffer/IterMut/Places.antt =====
-- The places that the mutable iterator of src/ring_buffer.rs gives.
use amity.Prelude.{
  ℕ, zero, suc, ◌+◌, ◌-◌, ◌%◌, ◌≤◌, ◌<◌, ◌≡◌, refl, sym, ap, ap₂, ◌∙◌, arith, List, [], ◌∷◌, ◌++◌,
  some, length, get_elem?, min, sub_word_lem, dec_lt, ℕ_discrete,
}
use amity.RingBuffer.{RingBuffer}
use amity.RingBuffer.Represents.{Represents}
use amity.RingBuffer.Position.{position-front, position-back, position-ne}
use amity.RingBuffer.IterMut.{iter_mut, places_from}

-- The places of a window of the buffer, going round.
abbrev pub places : ℕ → ℕ → ℕ → ℕ → List ℕ
places head cap k zero = []
places head cap k (suc n) = (head + k) % cap ∷ places head cap (k + 1) n

pub places-length : (head cap k n : ℕ) → length (places head cap k n) ≡ n
places-length head cap k zero = refl
places-length head cap k (suc n) = omega (arith, places-length head cap (k + 1) n)

pub places-append :
    (head cap k n m : ℕ)
    → places head cap k (n + m) ≡ places head cap k n ++ places head cap (k + n) m
places-append head cap k zero m = ap₂ (λ a b. places head cap a b) (omega arith) (omega arith)
places-append head cap k (suc n) m =
    ap (λ c. places head cap k c) {y = suc (n + m)} (omega arith)
    ∙ ap (λ t. (head + k) % cap ∷ t)
        (places-append head cap (k + 1) n m
          ∙ ap (λ c. places head cap (k + 1) n ++ places head cap c m) (omega arith))

front_places :
    (head cap k n : ℕ) → head + k + n ≤ cap → places_from (head + k) n ≡ places head cap k n
front_places head cap k zero h = refl
front_places head cap k (suc n) h =
    ap₂ (λ a t. a ∷ t) (sym (position-front head cap k (omega arith)))
      (ap (λ c. places_from c n) {y = head + (k + 1)} (omega arith)
        ∙ front_places head cap (k + 1) n (omega arith))

back_places :
    (head cap k j n : ℕ)
    → head < cap
    → k ≡ cap - head + j
    → j + n ≤ head
    → places_from j n ≡ places head cap k n
back_places head cap k j zero h e g = refl
back_places head cap k j (suc n) h e g =
    ap₂ (λ a t. a ∷ t) (omega (arith, e, position-back head cap k h (omega arith) (omega arith)))
      (back_places head cap (k + 1) (j + 1) n h (omega arith) (omega arith))

pub get_elem?-places :
    (head cap k n i a : ℕ)
    → get_elem? (places head cap k n) i ≡ some a
    → (i < n) × (a ≡ (head + (k + i)) % cap)
get_elem?-places head cap k zero i a e = absurd (ground arith)
get_elem?-places head cap k (suc n) zero a e = (
  omega arith,
  (let q : (head + k) % cap ≡ a = ground arith in sym q ∙ ap (λ c. (head + c) % cap) (omega arith)),
)
get_elem?-places head cap k (suc n) (suc i) a e =
    let h = get_elem?-places head cap (k + 1) n i a e in
    (omega (arith, h.0), h.1 ∙ ap (λ c. (head + c) % cap) (omega arith))

module _ {A : Type 0} (r : RingBuffer A) (xs : List A) (rep : Represents r xs) where
  open r use {head, len, array}

  abbrev pub front_len : ℕ
  front_len = min len (length array - head)

  -- The two slices are the window of the buffer, split where the array ends.
  pub iter_mut_lem :
      ((iter_mut r).front ≡ places head (length array) 0 front_len)
      × ((iter_mut r).back ≡ places head (length array) front_len (len - front_len))
  unfolding iter_mut
  iter_mut_lem =
      rw
        (
          sub_word_lem (length array) head (omega (arith, rep.head_in))
              (omega (arith, rep.bounded)),
          sub_word_lem len front_len (omega arith) (omega (arith, rep.len_in, rep.bounded)),
        )
        (
          ap (λ c. places_from c front_len) {y = head + 0} (omega arith)
              ∙ front_places head (length array) 0 front_len (omega (arith, rep.head_in)),
          elim (dec_lt (length array - head) len) [
            | yes p ↦
                back_places head (length array) front_len 0 (len - front_len)
                  (omega (arith, rep.head_in, rep.len_in)) (omega arith)
                  (omega (arith, rep.head_in, rep.len_in))
            | no p ↦
                let none_left : len - front_len ≡ 0 = omega arith in
                ap (places_from 0) none_left
                ∙ sym (ap (places head (length array) front_len) none_left)
          ],
        )

  pub items_lem : (iter_mut r).front ++ (iter_mut r).back ≡ places head (length array) 0 len
  items_lem =
      ap₂ (λ a b. a ++ b) iter_mut_lem.0
        (iter_mut_lem.1
          ∙ ap (λ c. places head (length array) c (len - front_len)) {y = 0 + front_len}
              (omega arith))
      ∙ sym (places-append head (length array) 0 front_len (len - front_len))
      ∙ ap (places head (length array) 0) (omega arith)

  at_one_place :
      (i j a : ℕ)
      → get_elem? ((iter_mut r).front ++ (iter_mut r).back) i ≡ some a
      → get_elem? ((iter_mut r).front ++ (iter_mut r).back) j ≡ some a
      → (a < length array) × (i ≡ j)
  at_one_place i j a e e' =
      let (lt, here) =
        get_elem?-places head (length array) 0 len i a
          (sym (ap (λ t. get_elem? t i) items_lem) ∙ e) in
      let (lt', here') =
        get_elem?-places head (length array) 0 len j a
          (sym (ap (λ t. get_elem? t j) items_lem) ∙ e') in
      (
        omega (arith, lt, here, rep.len_in),
        elim (ℕ_discrete i j) [
          | yes q ↦ q
          | no ne ↦ elim (dec_lt i j) [
            | yes p ↦ absurd (
                position-ne {head = head} {cap = length array} {i = 0 + i} {j = 0 + j}
                  (omega (arith, rep.head_in, rep.len_in, lt)) (omega arith)
                  (omega (arith, rep.len_in, lt')) (sym here ∙ here'))
            | no p ↦ absurd (
                position-ne {head = head} {cap = length array} {i = 0 + j} {j = 0 + i}
                  (omega (arith, rep.head_in, rep.len_in, lt)) (omega (arith, ne))
                  (omega (arith, rep.len_in, lt)) (sym here' ∙ here))
          ]
        ],
      )

  -- From a buffer that holds a queue, `iter_mut` gives as many references as the queue has values: the one
  -- at `i` is to the element that holds the value at `i` of the queue. Each is within the array, and no two
  -- of them are to one element.
  pub references_apart :
      (length ((iter_mut r).front ++ (iter_mut r).back) ≡ length xs)
      × ((i a : ℕ) (x : A)
          → get_elem? ((iter_mut r).front ++ (iter_mut r).back) i ≡ some a
          → get_elem? xs i ≡ some x
          → get_elem? array a ≡ some (some x))
      × ((i j a : ℕ)
          → get_elem? ((iter_mut r).front ++ (iter_mut r).back) i ≡ some a
          → get_elem? ((iter_mut r).front ++ (iter_mut r).back) j ≡ some a
          → (a < length array) × (i ≡ j))
  references_apart = (
    ap length items_lem ∙ places-length head (length array) 0 len ∙ rep.len_eq,
    λ i a x e q.
        let (lt, here) =
          get_elem?-places head (length array) 0 len i a
            (sym (ap (λ t. get_elem? t i) items_lem) ∙ e) in
        let z : 0 + i ≡ i = omega arith in
        ap (get_elem? array) here
        ∙ ap (λ k. get_elem? array ((head + k) % length array)) z
        ∙ rep.cells i x q,
    at_one_place,
  )

-- ===== src/RingBuffer/IterMut.antt =====
-- The mutable iterator of src/ring_buffer.rs: a reference to an element is its place in the array, so a slice
-- iterator is the list of the places that it has left. Its steps and loops have the text of those of `Iter`.
pub mod Places
pub mod Update
pub mod Step
mod Tests
use amity.Prelude.{
  ℕ, zero, suc, ◌+◌, List, [], ◌∷◌, Option, some, Outcome, ok, ◌>>=◌, length, min, set, sub_word,
}
use amity.RingBuffer.{RingBuffer, read_slot}
use amity.RingBuffer.Iter.{Iter}

-- The places of a slice.
abbrev pub places_from : ℕ → ℕ → List ℕ
places_from start zero = []
places_from start (suc n) = start ∷ places_from (start + 1) n

module _ {A : Type 0} where
  pub iter_mut : RingBuffer A → Iter ℕ
  iter_mut r =
      let front_len = min r.len (sub_word (length r.array) r.head) in
      record {
        front = places_from r.head front_len;
        back = places_from 0 (sub_word r.len front_len);
      }

  -- `for item in slice { f(item) }`, where `f` writes through the reference.
  abbrev pub for_each_slice : (A → A) → List ℕ → List (Option A) → Outcome (List (Option A))
  for_each_slice f [] array = ok array
  for_each_slice f (place ∷ rest) array =
      read_slot array place >>= λ x. for_each_slice f rest (set array place (some (f x)))

  pub for_each : (A → A) → RingBuffer A → Outcome (RingBuffer A)
  unfolding iter_mut
  for_each f r = do
    front ← for_each_slice f (iter_mut r).front r.array
    back ← for_each_slice f (iter_mut r).back front
    ok (record r { array = back })

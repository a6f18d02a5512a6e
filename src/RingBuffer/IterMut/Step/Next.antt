-- ===== src/RingBuffer/IterMut/Step/Next.antt =====
-- A loop over `next` of the mutable iterator of src/ring_buffer.rs is a loop over the places that it gives.
use amity.Prelude.{
  ℕ, zero, suc, ◌+◌, ◌-◌, ◌<◌, ◌≡◌, refl, ap, ap₂, ◌∙◌, arith, List, [], ◌∷◌, ◌++◌, Option, some,
  set, length, drop, drop_all, Outcome, ok, panic, undefined, ◌>>=◌,
}
use amity.RingBuffer.{read_slot}
use amity.RingBuffer.IterMut.Places.{places}
use amity.RingBuffer.IterMut.Step.{next, next_loop, fold_slice}

bind_same :
    {C D : Type 0} (m : Outcome C) (k g : C → Outcome D)
    → ((x : C) → k x ≡ g x)
    → (m >>= k) ≡ (m >>= g)
bind_same (ok x) k g e = e x
bind_same panic k g e = refl
bind_same undefined k g e = refl

pub drop-places :
    (head cap k n j : ℕ) → drop j (places head cap k n) ≡ places head cap (k + j) (n - j)
drop-places head cap k n zero = ap₂ (places head cap) (omega arith) (omega arith)
drop-places head cap k zero (suc j) = ap (places head cap (k + suc j)) {x = 0} (omega arith)
drop-places head cap k (suc n) (suc j) =
    drop-places head cap (k + 1) n j ∙ ap₂ (places head cap) (omega arith) (omega arith)

module _ {A B : Type 0} (f : B → A → B × A) where
  -- The loop goes through the first slice and, of the second, what is left after one place has been
  -- dropped for each step through the first.
  pub next_loop-fold :
      (fuel : ℕ) (front back : List ℕ)
      → length front + length back < fuel
      → (state : B) (array : List (Option A))
      → next_loop fuel f state (record { front = front; back = back }) array
        ≡ fold_slice f state (front ++ drop (length front) back) array
  unfolding next_loop next
  next_loop-fold zero front back h state array = absurd (omega arith)
  next_loop-fold (suc fuel) [] [] h state array = refl
  next_loop-fold (suc fuel) [] (y ∷ back) h state array =
      bind_same (read_slot array y) _ _ λ x. next_loop-fold fuel [] back (omega arith) _ _
  next_loop-fold (suc fuel) (p ∷ front) [] h state array = bind_same (read_slot array p) _ _ λ x.
      next_loop-fold fuel front [] (omega arith) _ _
      ∙ ap (λ t. fold_slice f (f state x).0 (front ++ t) (set array p (some (f state x).1)))
          (drop_all (length front) [] (omega arith))
  next_loop-fold (suc fuel) (p ∷ front) (y ∷ back) h state array =
      bind_same (read_slot array p) _ _ λ x. next_loop-fold fuel front back (omega arith) _ _

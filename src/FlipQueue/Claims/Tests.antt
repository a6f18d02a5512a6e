-- ===== src/FlipQueue/Claims/Tests.antt =====
-- Two pushes of src/flip_queue.rs that have their indices, and of which the second one writes first.
use amity.Prelude.{ℕ, ◌≡◌, refl, arith, [], ◌∷◌, none, some, get_elem?, Returns}
use amity.Threads.{at}
use amity.RingBuffer.{ring_index}
use amity.FlipQueue.{FlipBuffer, of_buffer}
use amity.FlipQueue.Holds.{Holds}
use amity.FlipQueue.Claims.{
  outside, writing, reading, claim_push, claim_pop, write_claimed, read_claimed, System, Reach,
  begin, later, push, write, pop,
}
use amity.FlipQueue.Claims.Inv.{write_claim}
use amity.FlipQueue.Claims.Safety.{accesses_apart, claims_refine}

-- The value 4 is settled, and there is room for two.
abbrev four : FlipBuffer ℕ
four = of_buffer (record { head = 2; len = 1; array = none ∷ none ∷ some 4 ∷ [] })

four-Holds : Holds four (4 ∷ []) []
four-Holds = record {
  rep = record {
    bounded = omega arith;
    head_in = omega arith;
    len_eq = refl;
    len_in = omega arith;
    cells = λ i x e. ground arith;
  };
  staged_len = refl;
  cells = λ i y e. absurd (ground arith);
}

abbrev at_work : System ℕ
at_work = record {
  buffer = record {
    buffer = record { head = 2; len = 1; array = none ∷ some 6 ∷ some 4 ∷ [] };
    popped = 1;
    pushed = 2;
  };
  pc = at (at (at (at (λ i. outside) 0 (writing 5 0)) 1 (writing 6 1)) 2 (reading 0)) 1 outside;
  put_in = 5 ∷ 6 ∷ [];
}

at_work-Reach : Reach four 4 at_work
unfolding claim_push claim_pop write_claimed ring_index
at_work-Reach =
    later
      (later (later (later begin (push {i = 0} 5 refl refl)) (push {i = 1} 6 refl refl))
        (pop {i = 2} refl refl))
      (write {i = 1} refl refl)

accesses_apart_example : ◌≡◌ {A = ℕ} 0 0
unfolding ring_index
accesses_apart_example =
    accesses_apart four (4 ∷ []) [] four-Holds at_work-Reach (omega arith) (omega arith) 0 0 0 refl
      refl

claims_refine_example :
    ((c n : ℕ)
      → at_work.pc c ≡ reading n
      → Returns (read_claimed n at_work.buffer) (λ x. get_elem? (4 ∷ []) n ≡ some x))
    × ((c n : ℕ) (v : ℕ)
        → at_work.pc c ≡ writing v n
        → Returns {0, 0} (write_claimed n v at_work.buffer) (λ o. Unit))
    × (((c : ℕ) → write_claim (at_work.pc c) ≡ none) → Holds at_work.buffer (4 ∷ []) (5 ∷ 6 ∷ []))
claims_refine_example =
    claims_refine four (4 ∷ []) [] four-Holds at_work-Reach (omega arith) (omega arith)

-- ===== src/FlipQueue/Claims/Inv.antt =====
-- What holds between the claims and the accesses of src/flip_queue.rs.
use amity.Prelude.{
  ℕ, ◌+◌, ◌-◌, ◌%◌, ◌<◌, ◌≡◌, refl, arith, List, Option, none, some, ◌⊎◌, length, get_elem?, min,
}
use amity.Threads.{at, at-all}
use amity.RingBuffer.Represents.{Represents}
use amity.FlipQueue.{FlipBuffer}
use amity.FlipQueue.Claims.{Pc, outside, writing, reading}

module _ {A : Type 0} where
  abbrev pub write_claim : Pc A → Option ℕ
  write_claim (writing v n) = some n
  write_claim _ = none

  abbrev pub read_claim : Pc A → Option ℕ
  read_claim (reading n) = some n
  read_claim _ = none

  -- No two callers claim the same.
  abbrev pub Distinct : (Pc A → Option ℕ) → (ℕ → Pc A) → Type 0
  Distinct claim pc = (c d n : ℕ) → claim (pc c) ≡ some n → claim (pc d) ≡ some n → c ≡ d

  pub Distinct-none :
      (claim : Pc A → Option ℕ) (pc : ℕ → Pc A) (i : ℕ) (p : Pc A)
      → claim p ≡ none
      → Distinct claim pc
      → Distinct claim (at pc i p)
  Distinct-none claim pc i p h distinct c d n =
      at-all (λ c q. claim q ≡ some n → claim (at pc i p d) ≡ some n → c ≡ d) pc i p
        (λ e. absurd (ground arith))
        (λ c ne e.
          at-all (λ d q. claim q ≡ some n → c ≡ d) pc i p (λ e'. absurd (ground arith))
            (λ d ne' e'. distinct c d n e e') d)
        c

  pub Distinct-fresh :
      (claim : Pc A → Option ℕ) (pc : ℕ → Pc A) (i m : ℕ) (p : Pc A)
      → claim p ≡ some m
      → ((c n : ℕ) → claim (pc c) ≡ some n → n < m)
      → Distinct claim pc
      → Distinct claim (at pc i p)
  Distinct-fresh claim pc i m p h below distinct c d n =
      at-all (λ c q. claim q ≡ some n → claim (at pc i p d) ≡ some n → c ≡ d) pc i p
        (λ e.
          at-all (λ d q. claim q ≡ some n → i ≡ d) pc i p (λ e'. refl)
            (λ d ne e'. ground (arith, below d n e', h, e)) d)
        (λ c ne e.
          at-all (λ d q. claim q ≡ some n → c ≡ d) pc i p (λ e'. ground (arith, below c n e, h, e'))
            (λ d ne' e'. distinct c d n e e') d)
        c

  -- What a caller that has an index knows.
  abbrev pub Fits : FlipBuffer A → List A → List A → Pc A → Type 0
  Fits fb xs staged outside = Unit
  Fits fb xs staged (writing v n) = (get_elem? staged n ≡ some v) × (n < fb.pushed)
  Fits fb xs staged (reading n) = (n < length xs) × (n < fb.popped)

  abbrev pub staged_cell : FlipBuffer A → ℕ → Option (Option A)
  staged_cell fb i =
      get_elem? fb.buffer.array ((fb.buffer.head + (fb.buffer.len + i)) % length fb.buffer.array)

  -- The values `xs` are settled, and `staged` have an index; those that are not written yet are about to be.
  pub record Inv (fb : FlipBuffer A) (pc : ℕ → Pc A) (xs staged : List A) : Type 0 where
    pub rep : Represents fb.buffer xs
    pub staged_len : length staged ≡ min fb.pushed (length fb.buffer.array - fb.buffer.len)
    pub cells :
        (i : ℕ) (y : A)
        → get_elem? staged i ≡ some y
        → (staged_cell fb i ≡ some (some y)) ⊎ ((c : ℕ) × (pc c ≡ writing y i))
    pub fits : (c : ℕ) → Fits fb xs staged (pc c)
    pub writers : Distinct write_claim pc
    pub readers : Distinct read_claim pc

-- ===== src/Samples.antt =====
-- Concrete buffers for the tests and the witnesses.
use amity.Prelude.{
  ℕ, zero, suc, ◌+◌, ◌%◌, ◌≤◌, ◌≡◌, refl, ap, arith, [], ◌∷◌, Option, some, none, if◌then◌else◌,
  leb, get_elem?, usize_max,
}
use amity.RingBuffer.{Alloc, RingBuffer}
use amity.RingBuffer.Represents.{Represents}
use amity.FlipQueue.{FlipBuffer}
use amity.FlipQueue.Holds.{Holds}

-- An allocator that gives what is asked for, up to a thousand elements of eight bytes.
abbrev pub exact_capacity : ℕ → Option ℕ
exact_capacity n = if leb n 1000 then some n else none

pub exact_capacity_lem : (n m : ℕ) → exact_capacity n ≡ some m → (n ≤ m) × (m ≤ usize_max)
exact_capacity_lem n m e = ground arith

abbrev pub exact : Alloc
exact = record { size_of = 8; vec_capacity = exact_capacity; vec_capacity_lem = exact_capacity_lem }

-- 8, then 9, round the end of the array.
abbrev pub wrapped : RingBuffer ℕ
wrapped = record { head = 2; len = 2; array = some 9 ∷ none ∷ some 8 ∷ [] }

pub wrapped_cells :
    (i x : ℕ)
    → get_elem? (8 ∷ 9 ∷ []) i ≡ some x
    → get_elem? wrapped.array ((2 + i) % 3) ≡ some (some x)
wrapped_cells zero x e = ap some e
wrapped_cells (suc zero) x e = ap some e
wrapped_cells (suc (suc i)) x e = absurd (ground arith)

pub wrapped-Represents : Represents wrapped (8 ∷ 9 ∷ [])
wrapped-Represents = record {
  bounded = omega arith;
  head_in = omega arith;
  len_eq = refl;
  len_in = omega arith;
  cells = wrapped_cells;
}

-- The same with 8 popped and 7 pushed through a shared borrow.
abbrev pub counted : FlipBuffer ℕ
counted = record {
  buffer = record { head = 2; len = 2; array = some 9 ∷ some 7 ∷ some 8 ∷ [] };
  popped = 1;
  pushed = 1;
}

pub counted_cells :
    (i x : ℕ)
    → get_elem? (8 ∷ 9 ∷ []) i ≡ some x
    → get_elem? counted.buffer.array ((2 + i) % 3) ≡ some (some x)
counted_cells zero x e = ap some e
counted_cells (suc zero) x e = ap some e
counted_cells (suc (suc i)) x e = absurd (ground arith)

pub staged_cells :
    (i x : ℕ)
    → get_elem? (7 ∷ []) i ≡ some x
    → get_elem? counted.buffer.array ((2 + (2 + i)) % 3) ≡ some (some x)
staged_cells zero x e = ap some e
staged_cells (suc i) x e = absurd (ground arith)

pub counted-Holds : Holds counted (8 ∷ 9 ∷ []) (7 ∷ [])
counted-Holds = record {
  rep = record {
    bounded = omega arith;
    head_in = omega arith;
    len_eq = refl;
    len_in = omega arith;
    cells = counted_cells;
  };
  staged_len = refl;
  cells = staged_cells;
}

-- ===== src/FlipQueue/Claims/Safety.antt =====
-- No two shared operations of src/flip_queue.rs touch the same memory, and what they do is what they would
-- do one after another in the order of their claims.
use amity.Prelude.{
  ℕ, ◌+◌, ◌%◌, ◌<◌, ◌≡◌, refl, sym, ap, ◌∙◌, subst, arith, List, ◌++◌, Option, none, some, inl, inr,
  length, get_elem?, word, dec_lt, Returns, ok, get_elem?_of_lt, ℕ_discrete,
}
use amity.RingBuffer.Position.{position-ne, ring_index-eq-mod}
use amity.FlipQueue.{FlipBuffer}
use amity.FlipQueue.Holds.{Holds}
use amity.FlipQueue.Claims.{
  Pc, outside, writing, reading, write_claimed, read_claimed, push_index, pop_index, System, Reach,
}
use amity.FlipQueue.Claims.Inv.{Inv, write_claim, read_claim, Fits}
use amity.FlipQueue.Claims.Write.{written_lem, push_index-slot, write_room}
use amity.FlipQueue.Claims.Serial.{Reach-After}

module _ {A : Type 0} where
  -- The index of the array that a caller is about to access.
  abbrev pub next_access : FlipBuffer A → Pc A → Option ℕ
  next_access fb outside = none
  next_access fb (writing v n) = some (push_index n fb)
  next_access fb (reading n) = some (pop_index n fb)

  -- How far behind the head that is.
  abbrev offset : FlipBuffer A → Pc A → Option ℕ
  offset fb outside = none
  offset fb (writing v n) = some (fb.buffer.len + n)
  offset fb (reading n) = some n

module _ {A : Type 0} {fb : FlipBuffer A} {pc : ℕ → Pc A} {xs staged : List A}
    (inv : Inv fb pc xs staged) where
  open fb.buffer use {head, len, array}
  open inv use {rep, fits}

  reading_lt : (c n : ℕ) → pc c ≡ reading n → n < len
  reading_lt c n e = let f = subst (Fits fb xs staged) e (fits c) in omega (arith, f.0, rep.len_eq)

  pop_index-eq-mod : (n : ℕ) → n < len → pop_index n fb ≡ (head + n) % length array
  pop_index-eq-mod n lt =
      ring_index-eq-mod head n (length array) (omega (arith, rep.head_in, rep.len_in))
        (omega (arith, rep.len_in)) (omega (arith, rep.bounded))

  abbrev Reached : ℕ → ℕ → Type 0
  Reached c m =
      (k : ℕ) × (offset fb (pc c) ≡ some k) × (k < length array) × (m ≡ (head + k) % length array)

  reached : (c m : ℕ) → next_access fb (pc c) ≡ some m → Reached c m
  reached c m e = at_pc (pc c) refl e
    where
      at_pc : (p : Pc A) → pc c ≡ p → next_access fb p ≡ some m → Reached c m
      at_pc outside h e' = absurd (ground arith)
      at_pc (writing v n) h e' = (
        len + n,
        ap (offset fb) h,
        omega (arith, write_room inv c n v h),
        ground (arith, push_index-slot inv c n v h),
      )
      at_pc (reading n) h e' = (
        n,
        ap (offset fb) h,
        omega (arith, reading_lt c n h, rep.len_in),
        ground (arith, pop_index-eq-mod n (reading_lt c n h)),
      )

  same_offset :
      (i j : ℕ)
      → i < length array
      → j < length array
      → (head + i) % length array ≡ (head + j) % length array
      → i ≡ j
  same_offset i j h g e = elim (ℕ_discrete i j) [
    | yes q ↦ q
    | no ne ↦ elim (dec_lt i j) [
      | yes p ↦ absurd (
          position-ne {head = head} {cap = length array} {i = i} {j = j}
            (omega (arith, rep.head_in)) p g e)
      | no p ↦ absurd (
          position-ne {head = head} {cap = length array} {i = j} {j = i}
            (omega (arith, rep.head_in)) (omega (arith, ne)) h (sym e))
    ]
  ]

  -- The callers at one offset are one.
  one_at :
      (c d k : ℕ) (p q : Pc A)
      → pc c ≡ p
      → pc d ≡ q
      → offset fb p ≡ some k
      → offset fb q ≡ some k
      → c ≡ d
  one_at c d k (writing v n) (writing w m) h g e e' =
      inv.writers c d n (ap write_claim h)
        (ap write_claim g ∙ ap some {x = m} {y = n} (ground arith))
  one_at c d k (reading n) (reading m) h g e e' =
      inv.readers c d n (ap read_claim h) (ap read_claim g ∙ ap some {x = m} {y = n} (ground arith))
  one_at c d k (writing v n) (reading m) h g e e' = absurd (ground (arith, reading_lt d m g))
  one_at c d k (reading n) (writing w m) h g e e' = absurd (ground (arith, reading_lt c n h))
  one_at c d k outside q h g e e' = absurd (ground arith)
  one_at c d k p outside h g e e' = absurd (ground arith)

  apart : (c d m : ℕ) → next_access fb (pc c) ≡ some m → next_access fb (pc d) ≡ some m → c ≡ d
  apart c d m e e' =
      let (k, o, lt, at_m) = reached c m e in
      let (k', o', lt', at_m') = reached d m e' in
      one_at c d k (pc c) (pc d) refl refl o
        (o' ∙ ap some (sym (same_offset k k' lt lt' (sym at_m ∙ at_m'))))

  settled_lem : ((c : ℕ) → write_claim (pc c) ≡ none) → Holds fb xs staged
  settled_lem quiet = record {
    rep = rep;
    staged_len = inv.staged_len;
    cells = λ i y e. elim (inv.cells i y e) [
      | inl found ↦ found
      | inr (c, w) ↦
          let q : none ≡ some i = sym (quiet c) ∙ ap write_claim w in absurd (ground arith)
    ];
  }

  read-ok : (n : ℕ) (x : A) → n < len → get_elem? xs n ≡ some x → read_claimed n fb ≡ ok x
  unfolding read_claimed
  read-ok n x lt e = ground (arith, pop_index-eq-mod n lt, rep.cells n x e)

  read_lem :
      (c n : ℕ) → pc c ≡ reading n → Returns (read_claimed n fb) (λ x. get_elem? xs n ≡ some x)
  read_lem c n h =
      let lt = reading_lt c n h in
      let (x, e) = get_elem?_of_lt xs n (omega (arith, rep.len_eq)) in rw (read-ok n x lt e) e

  write_lem :
      (c n : ℕ) (v : A) → pc c ≡ writing v n → Returns {0, 0} (write_claimed n v fb) (λ o. Unit)
  write_lem c n v h = rw (written_lem inv c n v h) tt

module _ {A : Type 0} (start : FlipBuffer A) (xs staged : List A) (holds : Holds start xs staged)
    {k : ℕ} {s : System A} (r : Reach start k s) (small_push : start.pushed + k < word)
    (small_pop : start.popped + k < word) where
  -- From a flip buffer that holds settled and staged values, whatever callers of `push_sync` and `pop_sync`
  -- do at once in a number of steps that overflows no count: no two callers are about to access the same
  -- place of the array.
  pub accesses_apart :
      (c d m : ℕ)
      → next_access s.buffer (s.pc c) ≡ some m
      → next_access s.buffer (s.pc d) ≡ some m
      → c ≡ d
  accesses_apart c d m = apart (Reach-After start xs staged holds r small_push small_pop).inv c d m

  -- From a flip buffer that holds settled and staged values, whatever callers of `push_sync` and `pop_sync`
  -- do at once in a number of steps that overflows no count: a caller that has the index of a pop reads
  -- the settled value of that index, and nothing that is not initialised; a caller that has the index of
  -- a push writes within bounds; and when no caller has a write to do, the buffer holds the settled
  -- values, and the staged ones followed by those of the pushes that got an index, in the order of their
  -- claims.
  pub claims_refine :
      ((c n : ℕ)
        → s.pc c ≡ reading n
        → Returns (read_claimed n s.buffer) (λ x. get_elem? xs n ≡ some x))
      × ((c n : ℕ) (v : A)
          → s.pc c ≡ writing v n
          → Returns {0, 0} (write_claimed n v s.buffer) (λ o. Unit))
      × (((c : ℕ) → write_claim (s.pc c) ≡ none) → Holds s.buffer xs (staged ++ s.put_in))
  claims_refine =
      let inv = (Reach-After start xs staged holds r small_push small_pop).inv in
      (read_lem inv, write_lem inv, settled_lem inv)

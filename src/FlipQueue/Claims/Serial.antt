-- ===== src/FlipQueue/Claims/Serial.antt =====
-- The shared operations of src/flip_queue.rs, claim and access, against the same operations one after another.
use amity.Prelude.{
  ℕ, suc, ◌+◌, ◌-◌, ◌≤◌, ◌<◌, ◌≡◌, refl, sym, subst, arith, List, [], ◌∷◌, ◌++◌, Option, none, some,
  inl, length, word, dec_lt, Returns, ok, ◌>>=◌, append-nil, append_assoc,
}
use amity.Threads.{at}
use amity.FlipQueue.{FlipBuffer, push_sync, pop_sync}
use amity.FlipQueue.Holds.{Holds}
use amity.FlipQueue.Claims.{
  Pc, outside, writing, reading, claim_push, claim_pop, write_claimed, read_claimed, System, Step,
  push, push_full, write, pop, pop_none, read, Reach, begin, later,
}
use amity.FlipQueue.Claims.Inv.{Inv}
use amity.FlipQueue.Claims.Access.{
  claim_push-some, claim_push-none, claim_pop-some, claim_pop-none, pushed_Inv, full_Inv,
  popped_Inv, none_Inv, read_Inv,
}
use amity.FlipQueue.Claims.Write.{written_lem, write_Inv}

module _ {A : Type 0} where
  -- `push_sync` and `pop_sync` are their claim, followed by their access where there is one.
  pub claim_then_access :
      (value : A) (fb : FlipBuffer A)
      → (push_sync value fb ≡ (elim (claim_push fb).0 [
        | some n ↦ write_claimed n value (claim_push fb).1 >>= λ o. ok (none, o)
        | none ↦ ok (some value, (claim_push fb).1)
      ]))
        × (pop_sync fb ≡ (elim (claim_pop fb).0 [
          | some n ↦ read_claimed n (claim_pop fb).1 >>= λ x. ok (some x, (claim_pop fb).1)
          | none ↦ ok (none, (claim_pop fb).1)
        ]))
  unfolding push_sync pop_sync claim_push claim_pop write_claimed read_claimed
  claim_then_access value fb = (ground arith, ground arith)

module _ {A : Type 0} (fb : FlipBuffer A) (pc : ℕ → Pc A) (xs staged : List A) where
  -- What a claim leaves behind.
  abbrev Pushes : ℕ → A → Option ℕ × FlipBuffer A → Type 0
  Pushes i v o =
      (elim o.0 [
        | some n ↦ Inv o.1 (at pc i (writing v n)) xs (staged ++ v ∷ [])
        | none ↦ Inv o.1 pc xs staged
      ])
      × (o.1.pushed ≡ fb.pushed + 1)
      × (o.1.popped ≡ fb.popped)

  abbrev Pops : ℕ → Option ℕ × FlipBuffer A → Type 0
  Pops i o =
      (elim o.0 [ some n ↦ Inv o.1 (at pc i (reading n)) xs staged | none ↦ Inv o.1 pc xs staged ])
      × (o.1.pushed ≡ fb.pushed)
      × (o.1.popped ≡ fb.popped + 1)

module _ {A : Type 0} (fb : FlipBuffer A) (pc : ℕ → Pc A) (xs staged : List A)
    (inv : Inv fb pc xs staged) (small_push : fb.pushed + 1 < word)
    (small_pop : fb.popped + 1 < word) where
  push_keeps : (i : ℕ) (v : A) → pc i ≡ outside → Pushes fb pc xs staged i v (claim_push fb)
  push_keeps i v here = elim (dec_lt fb.pushed (length fb.buffer.array - fb.buffer.len)) [
    | yes p ↦
        subst (Pushes fb pc xs staged i v) (sym (claim_push-some inv small_push small_pop p))
          (pushed_Inv inv i v here p, refl, refl)
    | no p ↦
        subst (Pushes fb pc xs staged i v)
          (sym (claim_push-none inv small_push small_pop (omega arith)))
          (full_Inv inv (omega arith), refl, refl)
  ]

  pop_keeps : (i : ℕ) → pc i ≡ outside → Pops fb pc xs staged i (claim_pop fb)
  pop_keeps i here = elim (dec_lt fb.popped fb.buffer.len) [
    | yes p ↦
        subst (Pops fb pc xs staged i) (sym (claim_pop-some inv small_push small_pop p))
          (popped_Inv inv i here p, refl, refl)
    | no p ↦
        subst (Pops fb pc xs staged i) (sym (claim_pop-none inv small_push small_pop (omega arith)))
          (none_Inv inv, refl, refl)
  ]

  write_keeps :
      (i n : ℕ) (v : A)
      → pc i ≡ writing v n
      → Returns
          (write_claimed n v fb)
          (λ o. Inv o (at pc i outside) xs staged × (o.pushed ≡ fb.pushed) × (o.popped ≡ fb.popped))
  write_keeps i n v here = rw (written_lem inv i n v here) (write_Inv inv i n v here, refl, refl)

-- After `k` steps from a buffer.
pub record After {A : Type 0} (start : FlipBuffer A) (xs staged : List A) (k : ℕ) (s : System A)
    : Type 0 where
  pub inv : Inv s.buffer s.pc xs (staged ++ s.put_in)
  pub pushed_in : s.buffer.pushed ≤ start.pushed + k
  pub popped_in : s.buffer.popped ≤ start.popped + k

module _ {A : Type 0} (start : FlipBuffer A) (xs staged : List A) where
  module _ (k : ℕ) (s : System A) (so_far : After start xs staged k s)
      (small_push : start.pushed + suc k < word) (small_pop : start.popped + suc k < word) where
    open so_far use {inv, pushed_in, popped_in}

    later_After :
        {fb : FlipBuffer A} {pc : ℕ → Pc A} {put_in : List A}
        → Inv fb pc xs (staged ++ put_in)
        → fb.pushed ≤ s.buffer.pushed + 1
        → fb.popped ≤ s.buffer.popped + 1
        → After start xs staged (suc k) (record { buffer = fb; pc = pc; put_in = put_in })
    later_After next pushed popped = record {
      inv = next;
      pushed_in = omega (arith, pushed_in);
      popped_in = omega (arith, popped_in);
    }

    pushes :
        (i : ℕ) (v : A)
        → s.pc i ≡ outside
        → Pushes s.buffer s.pc xs (staged ++ s.put_in) i v (claim_push s.buffer)
    pushes i v here =
        push_keeps s.buffer s.pc xs (staged ++ s.put_in) inv (omega (arith, pushed_in))
          (omega (arith, popped_in)) i v here

    pops :
        (i : ℕ)
        → s.pc i ≡ outside
        → Pops s.buffer s.pc xs (staged ++ s.put_in) i (claim_pop s.buffer)
    pops i here =
        pop_keeps s.buffer s.pc xs (staged ++ s.put_in) inv (omega (arith, pushed_in))
          (omega (arith, popped_in)) i here

    Step-After : {t : System A} → Step s t → After start xs staged (suc k) t
    Step-After (push {i = i} {n = n} {fb = fb} v here e) =
        let h = subst (Pushes s.buffer s.pc xs (staged ++ s.put_in) i v) e (pushes i v here) in
        later_After
          (subst (Inv fb (at s.pc i (writing v n)) xs) (append_assoc staged s.put_in (v ∷ [])) h.0)
          (omega (arith, h.1)) (omega (arith, h.2))
    Step-After (push_full {i = i} v here e) =
        let h = subst (Pushes s.buffer s.pc xs (staged ++ s.put_in) i v) e (pushes i v here) in
        later_After h.0 (omega (arith, h.1)) (omega (arith, h.2))
    Step-After (write {i = i} {n = n} {value = v} here e) =
        let h = rw e at (
          write_keeps s.buffer s.pc xs (staged ++ s.put_in) inv (omega (arith, pushed_in))
            (omega (arith, popped_in)) i n v here) in
        later_After h.0 (omega (arith, h.1)) (omega (arith, h.2))
    Step-After (pop {i = i} here e) =
        let h = subst (Pops s.buffer s.pc xs (staged ++ s.put_in) i) e (pops i here) in
        later_After h.0 (omega (arith, h.1)) (omega (arith, h.2))
    Step-After (pop_none {i = i} here e) =
        let h = subst (Pops s.buffer s.pc xs (staged ++ s.put_in) i) e (pops i here) in
        later_After h.0 (omega (arith, h.1)) (omega (arith, h.2))
    Step-After (read {i = i} {n = n} here e) =
        later_After (read_Inv inv i n here) (omega arith) (omega arith)

  pub Reach-After :
      {k : ℕ} {s : System A}
      → Holds start xs staged
      → Reach start k s
      → start.pushed + k < word
      → start.popped + k < word
      → After start xs staged k s
  Reach-After holds begin h g = record {
    inv = subst (Inv start (λ i. outside) xs) (sym (append-nil staged)) (record {
      rep = holds.rep;
      staged_len = holds.staged_len;
      cells = λ i y e. inl (holds.cells i y e);
      fits = λ c. tt;
      writers = λ c d n e e'. absurd (ground arith);
      readers = λ c d n e e'. absurd (ground arith);
    });
    pushed_in = omega arith;
    popped_in = omega arith;
  }
  Reach-After holds (later {k} {s} r st) h g =
      Step-After k s (Reach-After holds r (omega arith) (omega arith)) h g st

-- ===== src/FlipQueue/Shared/Kept.antt =====
-- What each section of a shared push or pop of src/flip_queue.rs keeps.
use amity.Prelude.{
  ℕ, zero, suc, ◌+◌, ◌≤◌, ◌<◌, ◌≡◌, ◌≢◌, refl, sym, ap, ◌∙◌, arith, List, [], ◌∷◌, ◌++◌, Option,
  none, some, ok, ltb, inl, inr, Bool-cases, length, get_elem?, drop, word, append_assoc,
  append-nil, drop_all, if◌then◌else◌, ◌==◌, ◌⊎◌,
}
use amity.Threads.{at}
use amity.RingBuffer.{Alloc}
use amity.FlipQueue.{FlipBuffer, push_sync, pop_sync, push, pop}
use amity.FlipQueue.Holds.{Holds, view}
use amity.FlipQueue.Sync.{push_sync_refines, pop_sync_refines}
use amity.FlipQueue.Owned.{flip_push_refines, flip_pop_refines}
use amity.FlipQueue.Shared.{Pc, idle, retrying, loading, System}

module _ {A : Type 0} where
  drop-found :
      (xs : List A) (n : ℕ) (x : A) → get_elem? xs n ≡ some x → x ∷ drop (suc n) xs ≡ drop n xs
  drop-found [] n x h = absurd (ground arith)
  drop-found (y ∷ xs) zero x h = ground arith
  drop-found (y ∷ xs) (suc n) x h = drop-found xs n x h

  pub missing : (xs : List A) (n : ℕ) → none ≡ get_elem? xs n → length xs ≤ n
  missing [] n h = omega arith
  missing (y ∷ xs) zero h = absurd (ground arith)
  missing (y ∷ xs) (suc n) h = omega (arith, missing xs n h)

  abbrev pub given : Option A → List A
  given (some x) = x ∷ []
  given none = []

  given-drop : (ys : List A) → given (get_elem? ys 0) ++ drop 1 ys ≡ ys
  given-drop [] = refl
  given-drop (y ∷ ys) = refl

  -- A caller that has moved elsewhere is not at the load.
  pub at-loading :
      (pc : ℕ → Pc A) (i j : ℕ) (p : Pc A) → p ≢ loading → at pc i p j ≡ loading → pc j ≡ loading
  at-loading pc i j p h e = elim (Bool-cases (i == j)) [
    | inl q ↦ absurd (h (sym (ap (λ b. if b then p else pc j) q) ∙ e))
    | inr q ↦ sym (ap (λ b. if b then p else pc j) q) ∙ e
  ]

  -- After `k` steps: the buffer holds what was put in and not handed out; a caller that is at the
  -- load has seen every settled value claimed; the counts are at most `k`.
  pub record Inv (k : ℕ) (s : System A) : Type 0 where
    pub settled : List A
    pub staged : List A
    pub holds : Holds s.buffer settled staged
    pub history : s.handed_out ++ view s.buffer settled staged ≡ s.put_in
    pub exhausted : (i : ℕ) → s.pc i ≡ loading → length settled ≤ s.buffer.popped
    pub popped_in : s.buffer.popped ≤ k
    pub pushed_in : s.buffer.pushed ≤ k

module _ {A : Type 0} (alloc : Alloc) (k : ℕ) (s : System A) (inv : Inv k s)
    (small : k + 1 < word) where
  open inv use {settled, staged, holds, history, exhausted, popped_in, pushed_in}

  -- The two ends of `push_sync`.
  pub pushed_lem :
      (v : A) (o : Option A) (fb : FlipBuffer A)
      → push_sync v s.buffer ≡ ok (o, fb)
      → (fb.popped ≡ s.buffer.popped)
        × (fb.pushed ≡ s.buffer.pushed + 1)
        × (((o ≡ none) × Holds fb settled (staged ++ v ∷ []))
            ⊎ ((o ≡ some v) × Holds fb settled staged))
  pushed_lem v o fb e =
      let h = push_sync_refines s.buffer settled staged holds v (omega (arith, pushed_in, small)) in
      elim (Bool-cases (ltb (length settled + length staged) (length s.buffer.buffer.array))) [
        | inl q ↦ let g = rw (q, e) at h in (g.2.0, g.2.1, inl (g.0, g.1))
        | inr q ↦ let g = rw (q, e) at h in (g.2.0, g.2.1, inr (g.0, g.1))
      ]

  pub popped_lem :
      (o : Option A) (fb : FlipBuffer A)
      → pop_sync s.buffer ≡ ok (o, fb)
      → (o ≡ get_elem? settled s.buffer.popped)
        × Holds fb settled staged
        × (fb.popped ≡ s.buffer.popped + 1)
        × (fb.pushed ≡ s.buffer.pushed)
  popped_lem o fb e =
      rw e at (pop_sync_refines s.buffer settled staged holds (omega (arith, popped_in, small)))

  -- A step that puts a value behind the queue.
  pub put_history :
      (v : A) (q : List A)
      → q ≡ view s.buffer settled staged ++ v ∷ []
      → s.handed_out ++ q ≡ s.put_in ++ v ∷ []
  put_history v q e =
      ap (λ t. s.handed_out ++ t) e
      ∙ sym (append_assoc s.handed_out (view s.buffer settled staged) (v ∷ []))
      ∙ ap (λ t. t ++ v ∷ []) history

  -- A step that hands out the front of the queue.
  pub take_history :
      (o : Option A) (q : List A)
      → given o ++ q ≡ view s.buffer settled staged
      → (s.handed_out ++ given o) ++ q ≡ s.put_in
  take_history o q e =
      append_assoc s.handed_out (given o) q ∙ ap (λ t. s.handed_out ++ t) e ∙ history

  pub put_sync_Inv :
      (v : A) (fb : FlipBuffer A)
      → push_sync v s.buffer ≡ ok (none, fb)
      → Inv (suc k) (record s { buffer = fb; put_in = s.put_in ++ v ∷ [] })
  put_sync_Inv v fb e =
      let (same, more, ends) = pushed_lem v none fb e in
      elim ends [
        | inl h ↦ record {
          settled = settled;
          staged = staged ++ v ∷ [];
          holds = h.1;
          history = put_history v _ (
              ap (λ n. drop n settled ++ (staged ++ v ∷ [])) same
              ∙ sym (append_assoc (drop s.buffer.popped settled) staged (v ∷ [])));
          exhausted = λ i q. omega (arith, exhausted i q, same);
          popped_in = omega (arith, popped_in, same);
          pushed_in = omega (arith, pushed_in, more);
        }
        | inr h ↦ absurd (ground arith)
      ]

  pub push_full_Inv :
      (v back : A) (i : ℕ) (fb : FlipBuffer A)
      → push_sync v s.buffer ≡ ok (some back, fb)
      → Inv (suc k) (record s { buffer = fb; pc = at s.pc i (retrying back) })
  push_full_Inv v back i fb e =
      let (same, more, ends) = pushed_lem v (some back) fb e in
      elim ends [
        | inl h ↦ absurd (ground arith)
        | inr h ↦ record {
          settled = settled;
          staged = staged;
          holds = h.1;
          history = ap (λ n. s.handed_out ++ (drop n settled ++ staged)) same ∙ history;
          exhausted = λ j q.
              omega (arith, exhausted j (at-loading s.pc i j (retrying back) (λ c. cc) q), same);
          popped_in = omega (arith, popped_in, same);
          pushed_in = omega (arith, pushed_in, more);
        }
      ]

  pub push_slow_Inv :
      (v : A) (i : ℕ) (fb : FlipBuffer A)
      → ((j : ℕ) → s.pc j ≢ loading)
      → push alloc v s.buffer ≡ ok fb
      → Inv (suc k) (record s { buffer = fb; pc = at s.pc i idle; put_in = s.put_in ++ v ∷ [] })
  push_slow_Inv v i fb alone e =
      let h = rw e at (flip_push_refines alloc v s.buffer settled staged holds) in
      record {
        settled = view s.buffer settled staged ++ v ∷ [];
        staged = [];
        holds = h.0;
        history = put_history v _ (
            ap (λ n. drop n (view s.buffer settled staged ++ v ∷ []) ++ []) h.1
            ∙ append-nil (view s.buffer settled staged ++ v ∷ []));
        exhausted = λ j q. absurd (alone j (at-loading s.pc i j idle (λ c. cc) q));
        popped_in = omega (arith, h.1);
        pushed_in = omega (arith, h.2);
      }

  pub try_pop_Inv :
      (x : A) (fb : FlipBuffer A)
      → pop_sync s.buffer ≡ ok (some x, fb)
      → Inv (suc k) (record s { buffer = fb; handed_out = s.handed_out ++ x ∷ [] })
  try_pop_Inv x fb e =
      let (found, keeps, more, same) = popped_lem (some x) fb e in
      record {
        settled = settled;
        staged = staged;
        holds = keeps;
        history = take_history (some x) _ (
            ap (λ n. x ∷ drop n settled ++ staged) {y = suc s.buffer.popped} (omega (arith, more))
            ∙ ap (λ t. t ++ staged) (drop-found settled s.buffer.popped x (sym found)));
        exhausted = λ i q. omega (arith, exhausted i q, more);
        popped_in = omega (arith, popped_in, more);
        pushed_in = omega (arith, pushed_in, same);
      }

  pub pop_miss_Inv :
      (i : ℕ) (fb : FlipBuffer A)
      → pop_sync s.buffer ≡ ok (none, fb)
      → Inv (suc k) (record s { buffer = fb; pc = at s.pc i loading })
  pop_miss_Inv i fb e =
      let (found, keeps, more, same) = popped_lem none fb e in
      let gone = missing settled s.buffer.popped found in
      record {
        settled = settled;
        staged = staged;
        holds = keeps;
        history =
            ap (λ t. s.handed_out ++ (t ++ staged))
              (drop_all fb.popped settled (omega (arith, gone, more))
                ∙ sym (drop_all s.buffer.popped settled gone))
            ∙ history;
        exhausted = λ j q. omega (arith, gone, more);
        popped_in = omega (arith, popped_in, more);
        pushed_in = omega (arith, pushed_in, same);
      }

  pub moved_Inv : (i : ℕ) (p : Pc A) → p ≢ loading → Inv (suc k) (record s { pc = at s.pc i p })
  moved_Inv i p h = record {
    settled = settled;
    staged = staged;
    holds = holds;
    history = history;
    exhausted = λ j q. exhausted j (at-loading s.pc i j p h q);
    popped_in = omega (arith, popped_in);
    pushed_in = omega (arith, pushed_in);
  }

  pub pop_slow_Inv :
      (o : Option A) (i : ℕ) (fb : FlipBuffer A)
      → ((j : ℕ) → s.pc j ≢ loading)
      → pop s.buffer ≡ ok (o, fb)
      → Inv
          (suc k)
          (record s { buffer = fb; pc = at s.pc i idle; handed_out = s.handed_out ++ given o })
  pop_slow_Inv o i fb alone e =
      let h = rw e at (flip_pop_refines s.buffer settled staged holds) in
      record {
        settled = drop 1 (view s.buffer settled staged);
        staged = [];
        holds = h.1;
        history = take_history o _ (
            ap (λ n. given o ++ (drop n (drop 1 (view s.buffer settled staged)) ++ [])) h.2
            ∙ ap (λ t. given o ++ t) (append-nil (drop 1 (view s.buffer settled staged)))
            ∙ ap (λ t. given t ++ drop 1 (view s.buffer settled staged)) h.0
            ∙ given-drop (view s.buffer settled staged));
        exhausted = λ j q. absurd (alone j (at-loading s.pc i j idle (λ c. cc) q));
        popped_in = omega (arith, h.2);
        pushed_in = omega (arith, h.3);
      }

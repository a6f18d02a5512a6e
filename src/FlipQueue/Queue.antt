-- ===== src/FlipQueue/Queue.antt =====
-- `FlipQueue` of src/flip_queue.rs: the shared operations with their slow paths under the write lock.
use amity.Prelude.{
  ℕ, ◌+◌, ◌<◌, ◌≤◌, ◌≡◌, refl, sym, ap, ◌∙◌, subst, arith, List, [], ◌∷◌, ◌++◌, some, Returns,
  Returns-bind, Returns-map, Returns-Ensures, Ensures, Ensures-map, length, get_elem?, drop, word,
  append-nil, append_assoc, dec_lt, lt→ltb, le→ltb, drop_all, drop-drop, length-drop,
  get_elem?-append_left, get_elem?-drop, get_elem?_of_le, get_elem?_of_lt, ℕ_discrete, eq→==, ne→==,
}
use amity.RingBuffer.{Alloc}
use amity.FlipQueue.{FlipBuffer, push_sync, pop_sync, push, pop, queue_push_sync, queue_pop_sync}
use amity.FlipQueue.Holds.{Holds, view}
use amity.FlipQueue.Sync.{push_sync_refines, pop_sync_refines}
use amity.FlipQueue.Owned.{flip_push_refines, flip_pop_refines}

-- The buffer is the queue `q`, whatever part of it is settled.
pub record IsQueue {A : Type 0} (fb : FlipBuffer A) (q : List A) : Type 0 where
  pub settled : List A
  pub staged : List A
  pub holds : Holds fb settled staged
  pub whole : view fb settled staged ≡ q

module _ {A : Type 0} where
  drop_one-append : (xs ys : List A) → 0 < length xs → drop 1 xs ++ ys ≡ drop 1 (xs ++ ys)
  drop_one-append [] ys h = absurd (omega arith)
  drop_one-append (x ∷ xs) ys h = refl

  pub length-zero : (xs : List A) → length xs ≡ 0 → xs ≡ []
  length-zero [] h = refl
  length-zero (x ∷ xs) h = absurd (omega arith)

  Holds-IsQueue : {fb : FlipBuffer A} {q : List A} → fb.popped ≡ 0 → Holds fb q [] → IsQueue fb q
  Holds-IsQueue {fb} {q} e h = record {
    settled = q;
    staged = [];
    holds = h;
    whole = rw e (append-nil q);
  }

module _ {A : Type 0} (alloc : Alloc) (v : A) (fb : FlipBuffer A) (q : List A)
    (is : IsQueue fb q) where
  open is use {settled, staged, holds, whole}

  -- From a flip buffer that is a queue, with its count of pushes not about to overflow and no
  -- other call between its two locked sections, `push_sync` that does not panic leaves the queue
  -- with the value at its end, whether the array had room for it or was grown. It is never
  -- undefined.
  pub queue_push_sync_refines :
      fb.pushed + 1 < word → Ensures (queue_push_sync alloc v fb) (λ o. IsQueue o (q ++ v ∷ []))
  unfolding queue_push_sync
  queue_push_sync_refines small =
      elim (dec_lt (length settled + length staged) (length fb.buffer.array)) [
        | yes p ↦
            Returns-Ensures (push_sync v fb) _ _ _
              (rw (lt→ltb (length settled + length staged) (length fb.buffer.array) p) at
                (push_sync_refines fb settled staged holds v small))
              λ (b, o) h. rw h.0 (record {
                settled = settled;
                staged = staged ++ v ∷ [];
                holds = h.1;
                whole =
                    ap (λ k. drop k settled ++ (staged ++ v ∷ [])) h.2.0
                    ∙ sym (append_assoc (drop fb.popped settled) staged (v ∷ []))
                    ∙ ap (λ t. t ++ v ∷ []) whole;
              })
        | no p ↦
            Returns-Ensures (push_sync v fb) _ _ _
              (rw (le→ltb (length settled + length staged) (length fb.buffer.array) (omega arith))
                at (push_sync_refines fb settled staged holds v small))
              λ (b, o) h. rw h.0 (
                Ensures-map (push alloc v o) _ _ (flip_push_refines alloc v o settled staged h.1)
                  λ o' k. Holds-IsQueue k.1 (
                    subst (λ t. Holds o' (t ++ v ∷ []) [])
                      (ap (λ n. drop n settled ++ staged) h.2.0 ∙ whole) k.0))
      ]

module _ {A : Type 0} (fb : FlipBuffer A) (q : List A) (is : IsQueue fb q) where
  open is use {settled, staged, holds, whole}

  first :
      (x : A)
      → fb.popped < length settled
      → get_elem? settled fb.popped ≡ some x
      → get_elem? q 0 ≡ some x
  first x p e =
      ap (λ t. get_elem? t 0) (sym whole)
      ∙ get_elem?-append_left (drop fb.popped settled) staged 0
          (omega (arith, length-drop fb.popped settled))
      ∙ get_elem?-drop fb.popped settled 0 fb.popped (omega arith)
      ∙ e

  rest : fb.popped < length settled → drop (fb.popped + 1) settled ++ staged ≡ drop 1 q
  rest p =
      ap (λ t. t ++ staged) (drop-drop fb.popped 1 settled)
      ∙ drop_one-append (drop fb.popped settled) staged
          (omega (arith, length-drop fb.popped settled))
      ∙ ap (drop 1) whole

  -- Where all settled values are claimed, the queue is what was staged.
  past : (k : ℕ) → length settled ≤ fb.popped → fb.popped ≤ k → drop k settled ++ staged ≡ q
  past k h g =
      ap (λ t. t ++ staged) (drop_all k settled (omega arith) ∙ sym (drop_all fb.popped settled h))
      ∙ whole

  empty : length settled ≤ fb.popped → fb.pushed ≡ 0 → q ≡ []
  empty h z =
      sym whole
      ∙ ap (λ t. t ++ staged) (drop_all fb.popped settled h)
      ∙ length-zero staged (omega (arith, holds.staged_len))

  -- From a flip buffer that is a queue, with its count of pops not about to overflow and no other
  -- call between its two locked sections, `pop_sync` returns the oldest value of the queue, if it
  -- has any, and leaves the rest, whichever of its three ways it goes. It neither panics nor is
  -- undefined.
  pub queue_pop_sync_refines :
      fb.popped + 1 < word
      → Returns (queue_pop_sync fb) (λ o. (o.0 ≡ get_elem? q 0) × IsQueue o.1 (drop 1 q))
  unfolding queue_pop_sync
  queue_pop_sync_refines small =
      Returns-bind (pop_sync fb) _ _ _ (pop_sync_refines fb settled staged holds small) λ (b, o) h.
        elim (dec_lt fb.popped (length settled)) [
          | yes p ↦
              let (x, e) = get_elem?_of_lt settled fb.popped p in
              rw (h.0 ∙ e) (
                sym (first x p e),
                record {
                  settled = settled;
                  staged = staged;
                  holds = h.1;
                  whole = ap (λ k. drop k settled ++ staged) h.2 ∙ rest p;
                },
              )
          | no p ↦
              rw (h.0 ∙ get_elem?_of_le settled fb.popped (omega arith))
                (elim (ℕ_discrete o.pushed 0) [
                  | yes z ↦
                      let nothing : q ≡ [] = empty (omega arith) (sym h.3 ∙ z) in
                      rw (eq→== o.pushed 0 z, nothing)
                        (
                          refl,
                          record {
                            settled = settled;
                            staged = staged;
                            holds = h.1;
                            whole =
                                ap (λ k. drop k settled ++ staged) h.2
                                ∙ past (fb.popped + 1) (omega arith) (omega arith)
                                ∙ nothing;
                          },
                        )
                  | no nz ↦
                      let same : view o settled staged ≡ q =
                        ap (λ k. drop k settled ++ staged) h.2
                        ∙ past (fb.popped + 1) (omega arith) (omega arith) in
                      rw (ne→== o.pushed 0 nz) (
                        Returns-map (pop o) _ _ (flip_pop_refines o settled staged h.1) λ w k. (
                          k.0 ∙ ap (λ t. get_elem? t 0) same,
                          Holds-IsQueue k.2 (subst (λ t. Holds w.1 (drop 1 t) []) same k.1),
                        ))
                ])
        ]

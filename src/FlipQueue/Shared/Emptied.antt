-- ===== src/FlipQueue/Shared/Emptied.antt =====
-- What the other sections of src/flip_queue.rs keep: a try that fails, a drain, a swap.
use amity.Prelude.{
  ap₂, subst, take-append-drop, ℕ, suc, ◌+◌, ◌<◌, ◌≡◌, ◌≢◌, sym, ap, ◌∙◌, arith, List, [], ◌++◌,
  none, some, ok, Returns, inl, inr, drop, word, append-nil, drop_all,
}
use amity.RingBuffer.{Alloc, RingBuffer, as_slices}
use amity.RingBuffer.Represents.{Represents}
use amity.FlipQueue.{FlipBuffer, push_sync, pop_sync, swap_buffer, drain, queue_drain_locking}
use amity.FlipQueue.Holds.{view}
use amity.FlipQueue.Owned.{
  of_buffer-Holds, flush_refines, swap_buffer-of_buffer, queue_drain_locking_refines,
}
use amity.FlipQueue.Shared.{loading, System}
use amity.RingBuffer.Slices.{as_slices_refines}
use amity.FlipQueue.Shared.Kept.{missing, Inv, pushed_lem, popped_lem}

module _ {A : Type 0} (alloc : Alloc) (k : ℕ) (s : System A) (inv : Inv k s)
    (small : k + 1 < word) where
  open inv use {settled, staged, holds, history, exhausted, popped_in, pushed_in}

  pub try_push_full-Inv :
      (v back : A) (fb : FlipBuffer A)
      → push_sync v s.buffer ≡ ok (some back, fb)
      → Inv (suc k) (record s { buffer = fb })
  try_push_full-Inv v back fb e =
      let (same, more, ends) = pushed_lem alloc k s inv small v (some back) fb e in
      elim ends [
        | inl h ↦ absurd (ground arith)
        | inr h ↦ record {
          settled = settled;
          staged = staged;
          holds = h.1;
          history = ap (λ n. s.handed_out ++ (drop n settled ++ staged)) same ∙ history;
          exhausted = λ j q. omega (arith, exhausted j q, same);
          popped_in = omega (arith, popped_in, same);
          pushed_in = omega (arith, pushed_in, more);
        }
      ]

  pub try_pop_none-Inv :
      (fb : FlipBuffer A)
      → pop_sync s.buffer ≡ ok (none, fb)
      → Inv (suc k) (record s { buffer = fb })
  try_pop_none-Inv fb e =
      let (found, keeps, more, same) = popped_lem alloc k s inv small none fb e in
      let gone = missing settled s.buffer.popped found in
      record {
        settled = settled;
        staged = staged;
        holds = keeps;
        history =
            ap (λ t. s.handed_out ++ (t ++ staged))
              (drop_all fb.popped settled (omega (arith, gone, more))
                ∙ sym (drop_all s.buffer.popped settled gone))
            ∙ history;
        exhausted = λ j q. omega (arith, gone, more);
        popped_in = omega (arith, popped_in, more);
        pushed_in = omega (arith, pushed_in, same);
      }

  pub drain_locking-Inv :
      (n : ℕ) (taken dropped : List A) (fb : FlipBuffer A)
      → ((j : ℕ) → s.pc j ≢ loading)
      → queue_drain_locking n s.buffer ≡ ok ((taken, dropped), fb)
      → Inv (suc k) (record s { buffer = fb; handed_out = s.handed_out ++ (taken ++ dropped) })
  drain_locking-Inv n taken dropped fb alone e =
      let h = rw e at (queue_drain_locking_refines n s.buffer settled staged holds) in
      record {
        settled = [];
        staged = [];
        holds = h.2;
        history =
            ap (λ m. (s.handed_out ++ (taken ++ dropped)) ++ (drop m [] ++ [])) h.3
            ∙ append-nil (s.handed_out ++ (taken ++ dropped))
            ∙ ap (λ t. s.handed_out ++ t)
                (ap₂ (λ a b. a ++ b) h.0 h.1 ∙ take-append-drop n (view s.buffer settled staged))
            ∙ history;
        exhausted = λ j q. omega arith;
        popped_in = omega (arith, h.3);
        pushed_in = omega (arith, h.4);
      }

  pub swap_locking-Inv :
      (ring : RingBuffer A) (q front back : List A)
      → ((j : ℕ) → s.pc j ≢ loading)
      → Represents ring q
      → as_slices (swap_buffer ring s.buffer).0 ≡ ok (front, back)
      → Inv (suc k) (record s {
        buffer = (swap_buffer ring s.buffer).1;
        put_in = s.put_in ++ q;
        handed_out = s.handed_out ++ (front ++ back);
      })
  swap_locking-Inv ring q front back alone rep e =
      let (_, drained, same) = flush_refines s.buffer settled staged holds in
      let split : Returns (as_slices (drain s.buffer))
          (λ p. p.0 ++ p.1 ≡ view s.buffer settled staged) =
        rw (as_slices_refines (drain s.buffer) (view s.buffer settled staged) drained)
          (take-append-drop _ (view s.buffer settled staged)) in
      let whole : front ++ back ≡ view s.buffer settled staged =
        subst (λ o. Returns o (λ p. p.0 ++ p.1 ≡ view s.buffer settled staged)) e
          (subst (λ r. Returns (as_slices r) (λ p. p.0 ++ p.1 ≡ view s.buffer settled staged))
            (sym (same ring)) split) in
      subst
        (λ fb. Inv (suc k) (record s {
          buffer = fb;
          put_in = s.put_in ++ q;
          handed_out = s.handed_out ++ (front ++ back);
        }))
        (sym (swap_buffer-of_buffer ring s.buffer settled staged holds))
        (record {
          settled = q;
          staged = [];
          holds = of_buffer-Holds rep;
          history =
              ap (λ t. (s.handed_out ++ t) ++ (q ++ [])) whole
              ∙ ap (λ t. (s.handed_out ++ view s.buffer settled staged) ++ t) (append-nil q)
              ∙ ap (λ t. t ++ q) history;
          exhausted = λ j at_load. absurd (alone j at_load);
          popped_in = omega arith;
          pushed_in = omega arith;
        })

-- ===== src/Broad/Shared/Stable.antt =====
-- The references that src/broad.rs hands to the closures of its receivers.
use amity.Prelude.{ℕ, ◌≡◌, ◌≢◌, inl, inr, true, false, arith, refl, sym, ap, ◌∙◌, Returns}
use amity.Triple.{Idx, publish}
use amity.Triple.Flags.{publish-flags}
use amity.Triple.Mailbox.{Mailbox}
use amity.Triple.Refine.{Shows, put_ne}
use amity.Broad.{Broadcast}
use amity.Broad.Versions.{Ready}
use amity.Broad.Shared.{
  Pc, consuming, System, writes, holds, Showing, Step, fills, publishes, check_consumed,
  check_pending, lock_write, lock_read, recheck_consumed, recheck_pending, consumes, asserts, shows,
  start, Reach, fill,
}
use amity.Broad.Shared.Lock.{Inv, Reach-Inv, start-Inv}
use amity.Broad.Shared.Recent.{Reach-Recent, start-Recent}

Showing-holds : (p : Pc) (n : ℕ) → Showing p n → holds p ≡ true
Showing-holds p n (inl e) = ap holds e
Showing-holds p n (inr e) = ap holds e

-- A receiver that consumes has the only guard.
other_consumes :
    {A : Type 0} {b : Broadcast A} {pc : ℕ → Pc} (inv : Inv b pc) (i j n m : ℕ)
    → pc j ≡ consuming m
    → ¬ Showing (pc i) n
other_consumes {pc = pc} inv i j n m e sh =
    let same : pc i ≡ consuming m =
      ap pc (sym (inv.alone j i (ap writes e) (Showing-holds (pc i) n sh))) ∙ e in
    elim sh [ inl q ↦ absurd (ground arith) | inr q ↦ absurd (ground arith) ]

module _ {A : Type 0} where
  -- What a receiver's reference points to, in two states.
  abbrev Same : System A → System A → Type 0
  Same s t =
      (t.channel.consumer ≡ s.channel.consumer)
      × (t.channel.buffer.elements t.channel.consumer
          ≡ s.channel.buffer.elements s.channel.consumer)

  publish-elements :
      (b : Broadcast A) (ready : Ready b) (p : Idx)
      → Returns (publish p b.buffer) (λ o. o.2.elements b.consumer ≡ b.buffer.elements b.consumer)
  publish-elements b ready p =
      rw (publish-flags b.buffer ready.middle ready.fresh ready.flags_eq p) refl

  fill-elements :
      (f : A → A) (p : Idx) (version : ℕ) (b : Broadcast A)
      → p ≢ b.consumer
      → (fill f p version b).1.buffer.elements b.consumer ≡ b.buffer.elements b.consumer
  unfolding fill
  fill-elements f p version b ne = put_ne b.buffer.elements p b.consumer _ ne

  Step-Same :
      {s t : System A} (i n : ℕ)
      → Inv s.channel s.pc
      → s.producer ≢ s.channel.consumer
      → Step s t
      → Showing (s.pc i) n
      → Same s t
  unfolding fill
  Step-Same {s} i n inv apart (fills f e) sh =
      (refl, fill-elements f s.producer s.version s.channel apart)
  Step-Same {s} i n inv apart (publishes f e) sh =
      (refl, rw e at (publish-elements s.channel inv.ready s.producer))
  Step-Same i n inv apart (consumes j e q) sh = absurd (other_consumes inv i j n _ e sh)
  Step-Same i n inv apart (asserts j e q) sh = absurd (other_consumes inv i j n _ e sh)
  Step-Same i n inv apart (check_consumed j e c) sh = (refl, refl)
  Step-Same i n inv apart (check_pending j e c) sh = (refl, refl)
  Step-Same i n inv apart (lock_write j e c) sh = (refl, refl)
  Step-Same i n inv apart (lock_read j e c) sh = (refl, refl)
  Step-Same i n inv apart (recheck_consumed j e c) sh = (refl, refl)
  Step-Same i n inv apart (recheck_pending j e c) sh = (refl, refl)
  Step-Same i n inv apart (shows j e) sh = (refl, refl)

  -- From a channel whose sender, receivers and flags hold three different indices, with nothing pending, in
  -- every state that is reached: a step of anybody, while a receiver has a reference, leaves the
  -- consumer's index and the element that the reference points to as they are. The channel that
  -- `Broadcast::new` makes is such a one with `Two` for the sender's index, and is not with `Zero`, which it
  -- gives out.
  pub reference_stable :
      (b : Broadcast A) (p : Idx) (version : ℕ) (seen : ℕ → ℕ) (m : Mailbox (A × ℕ))
      → Shows b.buffer p b.consumer m
      → m.fresh ≡ false
      → {s t : System A} → Reach (start b p version seen) s
      → Step s t
      → (i n : ℕ) → Showing (s.pc i) n
      → (t.channel.consumer ≡ s.channel.consumer)
        × (t.channel.buffer.elements t.channel.consumer
            ≡ s.channel.buffer.elements s.channel.consumer)
  reference_stable b p version seen m sh old r st i n at_i =
      let ready : Ready b = record {
        middle = sh.middle;
        fresh = m.fresh;
        flags_eq = sh.flags_eq;
      } in
      let started = start-Inv b p version seen ready in
      Step-Same i n (Reach-Inv r started)
        (Reach-Recent r started (start-Recent b p version seen m sh old)).shown.sides_apart st at_i

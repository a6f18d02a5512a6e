-- ===== src/Broad/Shared/Lock.antt =====
-- The guards of src/broad.rs: who holds the write lock is alone, and comes to consume only what is pending.
use amity.Prelude.{
  ℕ, ◌≡◌, ◌≢◌, Bool, true, false, not, refl, sym, ap, ◌∙◌, subst, arith, Returns, Returns-map,
}
use amity.Threads.{at, at-all}
use amity.Triple.{Idx, consumed, consume, publish}
use amity.Triple.Flags.{flags_of, publish-flags, consume-flags, consumed-pending}
use amity.Broad.{Broadcast}
use amity.Broad.Versions.{Ready}
use amity.Broad.Shared.{
  Pc, consuming, showing_write, panicked, System, writes, holds, Step, fills, publishes,
  check_consumed, check_pending, lock_write, lock_read, recheck_consumed, recheck_pending, consumes,
  asserts, shows, start, Reach, here, later, fill,
}

abbrev pub Alone : (ℕ → Pc) → Type 0
Alone pc = (c d : ℕ) → writes (pc c) ≡ true → holds (pc d) ≡ true → c ≡ d

-- A caller moves on without a guard that it did not have.
less_Alone :
    (pc : ℕ → Pc) (i : ℕ) (p : Pc)
    → (writes p ≡ true → writes (pc i) ≡ true)
    → (holds p ≡ true → holds (pc i) ≡ true)
    → Alone pc
    → Alone (at pc i p)
less_Alone pc i p w h alone c d e e' =
    alone c d (at-all (λ c q. writes q ≡ true → writes (pc c) ≡ true) pc i p w (λ c ne x. x) c e)
      (at-all (λ d q. holds q ≡ true → holds (pc d) ≡ true) pc i p h (λ d ne x. x) d e')

clash : {B : Type 0} (b : Bool) → b ≡ true → b ≡ false → B
clash b e e' = ground arith

writes-holds : (p : Pc) → writes p ≡ true → holds p ≡ true
writes-holds p e = ground arith

write_Alone : (pc : ℕ → Pc) (i : ℕ) (p : Pc) → ((j : ℕ) → holds (pc j) ≡ false) → Alone (at pc i p)
write_Alone pc i p free c d e e' = sym (only c (writes-holds (at pc i p c) e)) ∙ only d e'
  where
    only : (c : ℕ) → holds (at pc i p c) ≡ true → i ≡ c
    only c =
        at-all (λ c q. holds q ≡ true → i ≡ c) pc i p (λ x. refl)
          (λ c ne x. clash (holds (pc c)) x (free c)) c

read_Alone :
    (pc : ℕ → Pc) (i : ℕ) (p : Pc)
    → writes p ≡ false
    → ((j : ℕ) → writes (pc j) ≡ false)
    → Alone (at pc i p)
read_Alone pc i p own free c d e e' =
    at-all (λ c q. writes q ≡ true → c ≡ d) pc i p (λ x. clash (writes p) x own)
      (λ c ne x. clash (writes (pc c)) x (free c)) c e

pub record Inv {A : Type 0} (b : Broadcast A) (pc : ℕ → Pc) : Type 0 where
  pub ready : Ready b
  pub alone : Alone pc
  pub pending : (c n : ℕ) → pc c ≡ consuming n → consumed b.buffer ≡ false
  pub no_panic : (c : ℕ) → pc c ≢ panicked

module _ {A : Type 0} {b : Broadcast A} {pc : ℕ → Pc} (inv : Inv b pc) where
  open inv use {ready}

  consumed_eq : consumed b.buffer ≡ not ready.fresh
  consumed_eq = (consumed-pending b.buffer ready.middle ready.fresh ready.flags_eq).0

  -- A step of a receiver that leaves the channel as it is.
  moved_Inv :
      (i : ℕ) (p : Pc)
      → Alone (at pc i p)
      → ((n : ℕ) → p ≡ consuming n → consumed b.buffer ≡ false)
      → p ≢ panicked
      → Inv b (at pc i p)
  moved_Inv i p alone due calm = record {
    ready = ready;
    alone = alone;
    pending = λ c n.
        at-all (λ c q. q ≡ consuming n → consumed b.buffer ≡ false) pc i p (due n)
          (λ c ne. inv.pending c n) c;
    no_panic = at-all (λ c q. q ≢ panicked) pc i p calm λ c ne. inv.no_panic c;
  }

  -- A step of the sender.
  sent_Inv :
      (b' : Broadcast A)
      → Ready b'
      → (consumed b.buffer ≡ false → consumed b'.buffer ≡ false)
      → Inv b' pc
  sent_Inv b' ready' keeps = record {
    ready = ready';
    alone = inv.alone;
    pending = λ c n e. keeps (inv.pending c n e);
    no_panic = inv.no_panic;
  }

  not_consuming : (n m : ℕ) → showing_write n ≢ consuming m
  not_consuming n m e = ground arith

  fresh_lem : (i n : ℕ) → pc i ≡ consuming n → ready.fresh ≡ true
  fresh_lem i n at_i = let e = inv.pending i n at_i in ground (arith, consumed_eq)

  publish-Inv : (p : Idx) → Returns (publish p b.buffer) (λ o. Inv (record b { buffer = o.2 }) pc)
  publish-Inv p = rw (publish-flags b.buffer ready.middle ready.fresh ready.flags_eq p) (
      sent_Inv (record b { buffer = record b.buffer { flags = flags_of p true } })
        (record { middle = p; fresh = true; flags_eq = refl })
        (λ e. (consumed-pending (record b.buffer { flags = flags_of p true }) p true refl).0))

  -- The caller that comes to consume takes what was published.
  pub consume-Inv :
      (i n : ℕ)
      → pc i ≡ consuming n
      → Returns (consume b.consumer b.buffer) (λ o.
        (o.1 ≡ true) × Inv (record { buffer = o.2; consumer = o.0 }) (at pc i (showing_write n)))
  consume-Inv i n at_i =
      rw (consume-flags b.buffer ready.middle ready.fresh ready.flags_eq b.consumer) (
        fresh_lem i n at_i,
        record {
          ready = record { middle = b.consumer; fresh = false; flags_eq = refl };
          alone =
              less_Alone pc i (showing_write n) (λ x. ap writes at_i) (λ x. ap holds at_i)
                inv.alone;
          pending = λ c m.
              at-all
                (λ c q.
                  q ≡ consuming m
                  → consumed (record b.buffer { flags = flags_of b.consumer false }) ≡ false)
                pc i (showing_write n) (λ e. absurd (not_consuming n m e))
                (λ c ne e. absurd (ne (sym (inv.alone c i (ap writes e) (ap holds at_i))))) c;
          no_panic =
              at-all (λ c q. q ≢ panicked) pc i (showing_write n) (λ e. cc) λ c ne. inv.no_panic c;
        },
      )

module _ {A : Type 0} where
  filled_Inv :
      {b : Broadcast A} {pc : ℕ → Pc} (f : A → A) (p : Idx) (version : ℕ)
      → Inv b pc
      → Inv (fill f p version b).1 pc
  unfolding fill consumed
  filled_Inv f p version inv =
      sent_Inv inv _
        (record {
          middle = inv.ready.middle;
          fresh = inv.ready.fresh;
          flags_eq = inv.ready.flags_eq;
        })
        (λ e. e)

  Step-Inv : {s t : System A} → Step s t → Inv s.channel s.pc → Inv t.channel t.pc
  Step-Inv {s} (fills f e) inv = filled_Inv f s.producer s.version inv
  Step-Inv {s} (publishes f e) inv = rw e at (publish-Inv inv s.producer)
  Step-Inv {s} (check_consumed i e c) inv =
      moved_Inv inv i _
        (less_Alone s.pc i _ (λ x. absurd (ground arith)) (λ x. absurd (ground arith)) inv.alone)
        (λ n x. absurd (ground arith)) (λ x. cc)
  Step-Inv {s} (check_pending i e c) inv =
      moved_Inv inv i _
        (less_Alone s.pc i _ (λ x. absurd (ground arith)) (λ x. absurd (ground arith)) inv.alone)
        (λ n x. absurd (ground arith)) (λ x. cc)
  Step-Inv {s} (lock_write i e free) inv =
      moved_Inv inv i _ (write_Alone s.pc i _ free) (λ n x. absurd (ground arith)) (λ x. cc)
  Step-Inv {s} (lock_read i e free) inv =
      moved_Inv inv i _ (read_Alone s.pc i _ refl free) (λ n x. absurd (ground arith)) (λ x. cc)
  Step-Inv {s} (recheck_consumed i e c) inv =
      moved_Inv inv i _ (less_Alone s.pc i _ (λ x. ap writes e) (λ x. ap holds e) inv.alone)
        (λ n x. absurd (ground arith)) (λ x. cc)
  Step-Inv {s} (recheck_pending i e c) inv =
      moved_Inv inv i _ (less_Alone s.pc i _ (λ x. ap writes e) (λ x. ap holds e) inv.alone)
        (λ n x. c) (λ x. cc)
  Step-Inv {s} (consumes i {n} {c} {t} e q) inv =
      (subst
        (λ o. Returns o (λ o.
          (o.1 ≡ true)
          × Inv (record { buffer = o.2; consumer = o.0 }) (at s.pc i (showing_write n))))
        q (consume-Inv inv i n e)).1
  Step-Inv {s} (asserts i {n} e q) inv =
      let h = rw q at (consume-Inv inv i n e) in absurd (ground arith)
  Step-Inv {s} (shows i sh) inv =
      moved_Inv inv i _
        (less_Alone s.pc i _ (λ x. absurd (ground arith)) (λ x. absurd (ground arith)) inv.alone)
        (λ n x. absurd (ground arith)) (λ x. cc)

  pub start-Inv :
      (b : Broadcast A) (p : Idx) (version : ℕ) (seen : ℕ → ℕ)
      → Ready b
      → Inv b (start b p version seen).pc
  start-Inv b p version seen ready = record {
    ready = ready;
    alone = λ c d e e'. absurd (ground arith);
    pending = λ c n e. absurd (ground arith);
    no_panic = λ c e. cc;
  }

  pub Reach-Inv : {s t : System A} → Reach s t → Inv s.channel s.pc → Inv t.channel t.pc
  Reach-Inv here inv = inv
  Reach-Inv (later r st) inv = Step-Inv st (Reach-Inv r inv)

  -- From a channel whose flags hold one of the three indices, as a new one's do, whatever the sender and any
  -- number of receivers do at once: no receiver panics; one that is about to consume takes an element
  -- that was published since the last time, so that its `assert!` will hold; and while one has the
  -- write guard, no other one has any guard.
  pub assert_holds :
      (b : Broadcast A) (p : Idx) (version : ℕ) (seen : ℕ → ℕ)
      → Ready b
      → {s : System A} → Reach (start b p version seen) s
      → ((c : ℕ) → s.pc c ≢ panicked)
        × ((c n : ℕ)
            → s.pc c ≡ consuming n
            → Returns (consume s.channel.consumer s.channel.buffer) (λ o. o.1 ≡ true))
        × ((c d : ℕ) → writes (s.pc c) ≡ true → holds (s.pc d) ≡ true → c ≡ d)
  assert_holds b p version seen ready {s} r =
      let inv = Reach-Inv r (start-Inv b p version seen ready) in
      (
        inv.no_panic,
        λ c n e.
            Returns-map (consume s.channel.consumer s.channel.buffer) _ _ (consume-Inv inv c n e)
              λ o h. h.0,
        inv.alone,
      )

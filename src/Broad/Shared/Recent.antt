-- ===== src/Broad/Shared/Recent.antt =====
-- What a receiver of src/broad.rs reads, where the sender and the receiving side hold different indices.
use amity.Prelude.{
  ℕ, ◌+◌, ◌≤◌, ◌≡◌, ◌≢◌, inl, inr, true, false, not, refl, sym, ◌∙◌, subst, arith, Returns,
  Returns-map, ne→==,
}
use amity.Threads.{at, at-all, at_self}
use amity.Triple.{Idx, consumed, consume, publish}
use amity.Triple.Flags.{consumed-pending}
use amity.Triple.Mailbox.{Mailbox, post, take}
use amity.Triple.Refine.{Shows, publish_refines, consume_refines, set_producer}
use amity.Broad.{Broadcast}
use amity.Broad.Shared.{
  Pc, idle, wants_write, wants_read, checking, consuming, showing_write, showing_read, panicked,
  System, Showing, Step, fills, publishes, check_consumed, check_pending, lock_write, lock_read,
  recheck_consumed, recheck_pending, consumes, asserts, shows, start, Reach, here, later, fill,
}
use amity.Broad.Shared.Lock.{Inv, Reach-Inv, start-Inv, consume-Inv}

-- A caller that is past the check has seen nothing that is newer than what the consumer's element is.
abbrev pub Past : (published taken : ℕ) → Pc → Type 0
Past published taken idle = Unit
Past published taken (wants_write n) = n ≤ published
Past published taken (checking n) = n ≤ published
Past published taken (consuming n) = n ≤ published
Past published taken (wants_read n) = n ≤ taken
Past published taken (showing_read n) = n ≤ taken
Past published taken (showing_write n) = n ≤ taken
Past published taken panicked = Unit

later_Past : (k l k' l' : ℕ) (p : Pc) → k ≤ k' → l ≤ l' → Past k l p → Past k' l' p
later_Past k l k' l' idle h g e = tt
later_Past k l k' l' panicked h g e = tt
later_Past k l k' l' (wants_write n) h g e = omega arith
later_Past k l k' l' (checking n) h g e = omega arith
later_Past k l k' l' (consuming n) h g e = omega arith
later_Past k l k' l' (wants_read n) h g e = omega arith
later_Past k l k' l' (showing_read n) h g e = omega arith
later_Past k l k' l' (showing_write n) h g e = omega arith

-- The elements are publications: the consumer's is the one that was taken last, and what is pending is
-- the newest one.
pub record Recent {A : Type 0} (s : System A) : Type 0 where
  pub mailbox : Mailbox (A × ℕ)
  pub shown : Shows s.channel.buffer s.producer s.channel.consumer mailbox
  pub reading_eq : mailbox.reading ≡ s.sent s.taken
  pub posted_eq : mailbox.fresh ≡ true → mailbox.posted ≡ s.sent s.published
  pub taken_eq : mailbox.fresh ≡ false → s.taken ≡ s.published
  pub taken_in : s.taken ≤ s.published
  pub past : (c : ℕ) → Past s.published s.taken (s.pc c)

module _ {A : Type 0} (s : System A) (rec : Recent s) where
  open rec use {mailbox, shown}

  consumed_eq : consumed s.channel.buffer ≡ not mailbox.fresh
  consumed_eq = (consumed-pending s.channel.buffer shown.middle mailbox.fresh shown.flags_eq).0

  stale : consumed s.channel.buffer ≡ true → s.taken ≡ s.published
  stale e = rec.taken_eq (ground (arith, consumed_eq))

  moved_Recent :
      (i : ℕ) (p : Pc) (seen : ℕ → ℕ)
      → Past s.published s.taken p
      → Recent (record s { pc = at s.pc i p; seen = seen })
  moved_Recent i p seen h = record {
    mailbox = mailbox;
    shown = shown;
    reading_eq = rec.reading_eq;
    posted_eq = rec.posted_eq;
    taken_eq = rec.taken_eq;
    taken_in = rec.taken_in;
    past = at-all (λ c q. Past s.published s.taken q) s.pc i p h λ c ne. rec.past c;
  }

  fill-Recent :
      (f : A → A)
      → Recent (record s {
        channel = (fill f s.producer s.version s.channel).1;
        version = (fill f s.producer s.version s.channel).0;
        filled = true;
      })
  unfolding fill
  fill-Recent f = record {
    mailbox = record mailbox { writing = _ };
    shown = set_producer _ s.channel.buffer s.producer s.channel.consumer mailbox shown;
    reading_eq = rec.reading_eq;
    posted_eq = rec.posted_eq;
    taken_eq = rec.taken_eq;
    taken_in = rec.taken_in;
    past = rec.past;
  }

  publish-Recent : Returns (publish s.producer s.channel.buffer) (λ o. Recent (record s {
    channel = record s.channel { buffer = o.2 };
    producer = o.0;
    filled = false;
    published = s.published + 1;
    sent = at s.sent (s.published + 1) (s.channel.buffer.elements s.producer);
  }))
  publish-Recent =
      Returns-map (publish s.producer s.channel.buffer) _ _
        (publish_refines s.channel.buffer s.producer s.channel.consumer mailbox shown)
        λ o h. record {
          mailbox = post mailbox;
          shown = h.1;
          reading_eq = rec.reading_eq ∙ sym (ne→at s.taken (omega (arith, rec.taken_in)));
          posted_eq = λ e. sym shown.writing_eq ∙ sym (at_self s.sent (s.published + 1) _);
          taken_eq = λ e. absurd (ground arith);
          taken_in = omega (arith, rec.taken_in);
          past = λ c.
              later_Past s.published s.taken (s.published + 1) s.taken (s.pc c) (omega arith)
                (omega arith) (rec.past c);
        }
    where
      ne→at :
          (k : ℕ)
          → s.published + 1 ≢ k
          → at s.sent (s.published + 1) (s.channel.buffer.elements s.producer) k ≡ s.sent k
      ne→at k ne = rw (ne→== (s.published + 1) k ne)

  consume-Recent :
      (i n : ℕ)
      → s.pc i ≡ consuming n
      → Returns (consume s.channel.consumer s.channel.buffer) (λ o.
        o.1 ≡ true
        → Recent (record s {
          channel = record { buffer = o.2; consumer = o.0 };
          pc = at s.pc i (showing_write n);
          taken = s.published;
        }))
  consume-Recent i n at_i =
      Returns-map (consume s.channel.consumer s.channel.buffer) _ _
        (consume_refines s.channel.buffer s.producer s.channel.consumer mailbox shown)
        λ o h e. record {
          mailbox = take mailbox;
          shown = h.1;
          reading_eq = rec.posted_eq (sym h.0 ∙ e);
          posted_eq = λ x. absurd (ground arith);
          taken_eq = λ x. refl;
          taken_in = omega arith;
          past =
              at-all (λ c q. Past s.published s.published q) s.pc i (showing_write n)
                (subst (Past s.published s.taken) at_i (rec.past i))
                λ c ne.
                  later_Past s.published s.taken s.published s.published (s.pc c) (omega arith)
                    (omega (arith, rec.taken_in)) (rec.past c);
        }

module _ {A : Type 0} where
  Step-Recent : {s t : System A} → Inv s.channel s.pc → Step s t → Recent s → Recent t
  Step-Recent {s} inv (fills f e) rec = fill-Recent s rec f
  Step-Recent {s} inv (publishes f e) rec = rw e at (publish-Recent s rec)
  Step-Recent {s} inv (check_consumed i e c) rec =
      moved_Recent s rec i _ s.seen (omega (arith, stale s rec c))
  Step-Recent {s} inv (check_pending i e c) rec = moved_Recent s rec i _ s.seen (omega arith)
  Step-Recent {s} inv (lock_write i e free) rec =
      moved_Recent s rec i _ s.seen (subst (Past s.published s.taken) e (rec.past i))
  Step-Recent {s} inv (lock_read i e free) rec =
      moved_Recent s rec i _ s.seen (subst (Past s.published s.taken) e (rec.past i))
  Step-Recent {s} inv (recheck_consumed i {n} e c) rec = moved_Recent s rec i _ s.seen (
      let h : n ≤ s.published = subst (Past s.published s.taken) e (rec.past i) in
      omega (arith, stale s rec c))
  Step-Recent {s} inv (recheck_pending i e c) rec =
      moved_Recent s rec i _ s.seen (subst (Past s.published s.taken) e (rec.past i))
  Step-Recent {s} inv (consumes i {n} e q) rec =
      (subst
          (λ o. Returns o (λ o.
            o.1 ≡ true
            → Recent (record s {
              channel = record { buffer = o.2; consumer = o.0 };
              pc = at s.pc i (showing_write n);
              taken = s.published;
            })))
          q (consume-Recent s rec i n e))
        refl
  Step-Recent {s} inv (asserts i {n} e q) rec =
      let h = rw q at (consume-Inv inv i n e) in absurd (ground arith)
  Step-Recent {s} inv (shows i sh) rec = moved_Recent s rec i _ _ tt

  pub Reach-Recent : {s t : System A} → Reach s t → Inv s.channel s.pc → Recent s → Recent t
  Reach-Recent here inv rec = rec
  Reach-Recent (later r st) inv rec = Step-Recent (Reach-Inv r inv) st (Reach-Recent r inv rec)

  pub start-Recent :
      (b : Broadcast A) (p : Idx) (version : ℕ) (seen : ℕ → ℕ) (m : Mailbox (A × ℕ))
      → Shows b.buffer p b.consumer m
      → m.fresh ≡ false
      → Recent (start b p version seen)
  start-Recent b p version seen m sh old = record {
    mailbox = m;
    shown = sh;
    reading_eq = sym sh.reading_eq;
    posted_eq = λ e. absurd (ground arith);
    taken_eq = λ e. refl;
    taken_in = omega arith;
    past = λ c. tt;
  }

  -- From a channel whose sender, receivers and flags hold three different indices, with nothing pending (that
  -- of `Broadcast::new` with `Two` for the sender's index, and not with the one that it gives out),
  -- whatever the sender and any number of receivers do at once: where a receiver has a reference, the
  -- element is a publication, and no older than the newest one at the time when that receiver began to
  -- read; and the sender's index is another one.
  pub read_recent :
      (b : Broadcast A) (p : Idx) (version : ℕ) (seen : ℕ → ℕ) (m : Mailbox (A × ℕ))
      → Shows b.buffer p b.consumer m
      → m.fresh ≡ false
      → {s : System A} → Reach (start b p version seen) s
      → (i n : ℕ) → Showing (s.pc i) n
      → (s.channel.buffer.elements s.channel.consumer ≡ s.sent s.taken)
        × (n ≤ s.taken)
        × (s.taken ≤ s.published)
        × (s.producer ≢ s.channel.consumer)
  read_recent b p version seen m sh old {s} r i n at_i =
      let rec =
        Reach-Recent r
          (start-Inv b p version seen
            (record { middle = sh.middle; fresh = m.fresh; flags_eq = sh.flags_eq }))
          (start-Recent b p version seen m sh old) in
      (
        rec.shown.reading_eq ∙ rec.reading_eq,
        (elim at_i [
          | inl e ↦ subst (Past s.published s.taken) e (rec.past i)
          | inr e ↦ subst (Past s.published s.taken) e (rec.past i)
        ]),
        rec.taken_in,
        rec.shown.sides_apart,
      )

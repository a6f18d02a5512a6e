-- ===== src/Broad/Shared/Tests.antt =====
-- src/broad.rs with a receiver that has consumed the first value that was sent.
use amity.Prelude.{ℕ, ◌+◌, ◌≤◌, ◌≡◌, ◌≢◌, inl, true, false, refl, Returns}
use amity.Threads.{at, at-all}
use amity.Triple
use amity.Triple.{Idx, TripleBuffer, consumed, consume, publish, set, other, from_bits_unchecked}
use amity.Triple.Mailbox.{Mailbox}
use amity.Triple.Refine.{Shows}
use amity.Broad.{Broadcast, Sender, new}
use amity.Broad.Handles.{into_sender}
use amity.Broad.Versions.{Ready}
use amity.Broad.Shared.{
  idle, wants_write, checking, consuming, showing_write, panicked, System, Showing, writes, holds,
  fills, publishes, check_pending, lock_write, recheck_pending, consumes, start, Reach, here, later,
  fill,
}
use amity.Broad.Shared.Lock.{assert_holds}
use amity.Broad.Shared.Recent.{read_recent}
use amity.Broad.Shared.Stable.{reference_stable}
use amity.Broad.Shared.Race.{new_races}

abbrev none_seen : ℕ → ℕ
none_seen i = 0

abbrev first : ℕ
first = 3

new-Ready : Ready (new first).0
unfolding new Triple.new
new-Ready = record { middle = Idx.zero; fresh = false; flags_eq = refl }

assert_holds_example :
    ((c : ℕ) → (start (new first).0 Idx.zero 0 none_seen).pc c ≢ panicked)
    × ((c n : ℕ)
        → (start (new first).0 Idx.zero 0 none_seen).pc c ≡ consuming n
        → Returns (consume (new first).0.consumer (new first).0.buffer) (λ o. o.1 ≡ true))
    × ((c d : ℕ)
        → writes ((start (new first).0 Idx.zero 0 none_seen).pc c) ≡ true
        → holds ((start (new first).0 Idx.zero 0 none_seen).pc d) ≡ true
        → c ≡ d)
assert_holds_example = assert_holds (new first).0 Idx.zero 0 none_seen new-Ready here

-- The channel that `Broadcast::new` makes; its sender gets the index that neither side has, by
-- `into_sender`.
abbrev apart : Broadcast ℕ
apart = (new first).0

abbrev sender : Sender
sender = into_sender Idx.two 0

abbrev old : Mailbox (ℕ × ℕ)
old = record { writing = (3, 0); posted = (3, 0); reading = (3, 0); fresh = false }

apart-Shows : Shows apart.buffer sender.producer apart.consumer old
unfolding new Triple.new other
apart-Shows = record {
  middle = Idx.zero;
  flags_eq = refl;
  sides_apart = λ e. cc;
  producer_apart = λ e. cc;
  consumer_apart = λ e. cc;
  writing_eq = refl;
  posted_eq = refl;
  reading_eq = refl;
}

-- The receiver waits for the element that was sent.
abbrev sent_one : System ℕ
sent_one = record {
  channel = record {
    buffer = record {
      elements = (fill (λ x. x + 1) sender.producer 0 apart).1.buffer.elements;
      flags = 6;
    };
    consumer = Idx.one;
  };
  producer = Idx.zero;
  version = (fill (λ x. x + 1) sender.producer 0 apart).0;
  filled = false;
  pc = λ i. idle;
  seen = none_seen;
  published = 1;
  sent = at (λ k. (3, 0)) 1 ((fill (λ x. x + 1) sender.producer 0 apart).1.buffer.elements Idx.two);
  taken = 0;
}

sent_one-Reach : Reach (start apart sender.producer sender.version none_seen) sent_one
unfolding publish from_bits_unchecked fill set new Triple.new other
sent_one-Reach = later (later here (fills (λ x. x + 1) refl)) (publishes refl refl)

abbrev read_one : System ℕ
read_one = record sent_one {
  channel = record { buffer = record sent_one.channel.buffer { flags = 1 }; consumer = Idx.two };
  pc =
      at (at (at (at sent_one.pc 4 (wants_write 1)) 4 (checking 1)) 4 (consuming 1)) 4
        (showing_write 1);
  taken = 1;
}

read_one-Reach : Reach (start apart sender.producer sender.version none_seen) read_one
unfolding consume consumed from_bits_unchecked fill set new Triple.new other
read_one-Reach =
    later
      (later
        (later (later sent_one-Reach (check_pending 4 refl refl)) (
          lock_write 4 refl
            (at-all (λ j p. holds p ≡ false) (λ i. idle) 4 (wants_write 1) refl (λ k ne. refl))))
        (recheck_pending 4 refl refl))
      (consumes 4 refl refl)

shown_runs : read_one.channel.buffer.elements read_one.channel.consumer ≡ (4, 1)
unfolding fill set new Triple.new
shown_runs = refl

read_recent_example :
    (read_one.channel.buffer.elements read_one.channel.consumer ≡ read_one.sent 1)
    × (1 ≤ 1)
    × (1 ≤ 1)
    × (Idx.zero ≢ Idx.two)
read_recent_example =
    read_recent apart sender.producer sender.version none_seen old apart-Shows refl read_one-Reach 4
      1 (inl refl)

reference_stable_example :
    (Idx.two ≡ read_one.channel.consumer)
    × ((fill (λ x. x + 5) Idx.zero 1 read_one.channel).1.buffer.elements Idx.two
        ≡ read_one.channel.buffer.elements Idx.two)
unfolding fill set new Triple.new other
reference_stable_example =
    reference_stable apart sender.producer sender.version none_seen old apart-Shows refl
      read_one-Reach (fills (λ x. x + 5) refl) 4 1 (inl refl)

new_races_example :
    (s : System ℕ) × Reach (start (new first).0 (new first).2 (new first).1 (λ i. 0)) s
    × Showing (s.pc 0) 1
    × (s.filled ≡ false)
    × (s.producer ≡ s.channel.consumer)
    × ((g : ℕ → ℕ)
        → ((fill g s.producer s.version s.channel).1.buffer.elements s.channel.consumer).0
          ≡ g (s.channel.buffer.elements s.channel.consumer).0)
new_races_example = new_races first (λ x. x + 1)

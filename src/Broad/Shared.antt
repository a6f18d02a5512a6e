-- ===== src/Broad/Shared.antt =====
-- src/broad.rs with one sender and any number of receivers at work on one channel. A step of a receiver is
-- one access of the flags, or the grant of the lock, or the closure that `read` calls and the end of the
-- guard. A step of the sender fills its element, or publishes it. A caller that asks for the lock waits
-- until it is granted.
pub mod Lock
pub mod Stable
pub mod Recent
pub mod Race
mod Tests
use amity.Prelude.{ℕ, ◌+◌, ◌≡◌, ◌⊎◌, Bool, true, false, ok, Outcome, ◌>>=◌, add_word}
use amity.Threads.{at}
use amity.Triple.{Idx, TripleBuffer, consumed, consume, publish, set}
use amity.Broad.{Broadcast, report}

-- Where a receiver stands in `read`; `began` counts the publications at the time of its first check.
pub data Pc : Type 0 where
  idle : Pc
  -- after the first check, before the lock
  wants_write : (began : ℕ) → Pc
  wants_read : (began : ℕ) → Pc
  -- under the write lock, before and after the second check
  checking : (began : ℕ) → Pc
  consuming : (began : ℕ) → Pc
  -- under either lock, with a reference to the consumer's element
  showing_write : (began : ℕ) → Pc
  showing_read : (began : ℕ) → Pc
  -- the `assert!` that what was consumed was published
  panicked : Pc

-- The channel, the sender's index and version, whether its element is filled and not published yet, and the
-- receivers with their versions. Beside them: how often the sender has published, what, and which of
-- these the consumer's element is.
pub record System (A : Type 0) : Type 0 where
  pub channel : Broadcast A
  pub producer : Idx
  pub version : ℕ
  pub filled : Bool
  pub pc : ℕ → Pc
  pub seen : ℕ → ℕ
  pub published : ℕ
  pub sent : ℕ → A × ℕ
  pub taken : ℕ

-- The guards that a caller holds: the write lock's, and any.
abbrev pub writes : Pc → Bool
writes (checking n) = true
writes (consuming n) = true
writes (showing_write n) = true
writes _ = false

abbrev pub holds : Pc → Bool
holds (checking n) = true
holds (consuming n) = true
holds (showing_write n) = true
holds (showing_read n) = true
holds _ = false

-- A receiver has a reference to the consumer's element.
abbrev pub Showing : Pc → ℕ → Type 0
Showing p n = (p ≡ showing_write n) ⊎ (p ≡ showing_read n)

module _ {A : Type 0} where
  -- `write`, up to `publish`.
  pub fill : (A → A) → Idx → ℕ → Broadcast A → ℕ × Broadcast A
  unfolding set
  fill f producer current b =
      let (value, version) = b.buffer.elements producer in
      let bumped = add_word current 1 in
      (bumped, record b { buffer = set producer (f value, add_word version bumped) b.buffer })

  pub data Step (s : System A) : System A → Type 0 where
    fills :
        (f : A → A)
        → s.filled ≡ false
        → Step s (record s {
          channel = (fill f s.producer s.version s.channel).1;
          version = (fill f s.producer s.version s.channel).0;
          filled = true;
        })
    publishes :
        {i : Idx} {b : Bool} {t : TripleBuffer (A × ℕ)}
        → s.filled ≡ true
        → publish s.producer s.channel.buffer ≡ ok (i, b, t)
        → Step s (record s {
          channel = record s.channel { buffer = t };
          producer = i;
          filled = false;
          published = s.published + 1;
          sent = at s.sent (s.published + 1) (s.channel.buffer.elements s.producer);
        })
    check_consumed :
        (i : ℕ)
        → s.pc i ≡ idle
        → consumed s.channel.buffer ≡ true
        → Step s (record s { pc = at s.pc i (wants_read s.published) })
    check_pending :
        (i : ℕ)
        → s.pc i ≡ idle
        → consumed s.channel.buffer ≡ false
        → Step s (record s { pc = at s.pc i (wants_write s.published) })
    lock_write :
        (i : ℕ) {n : ℕ}
        → s.pc i ≡ wants_write n
        → ((j : ℕ) → holds (s.pc j) ≡ false)
        → Step s (record s { pc = at s.pc i (checking n) })
    lock_read :
        (i : ℕ) {n : ℕ}
        → s.pc i ≡ wants_read n
        → ((j : ℕ) → writes (s.pc j) ≡ false)
        → Step s (record s { pc = at s.pc i (showing_read n) })
    recheck_consumed :
        (i : ℕ) {n : ℕ}
        → s.pc i ≡ checking n
        → consumed s.channel.buffer ≡ true
        → Step s (record s { pc = at s.pc i (showing_write n) })
    recheck_pending :
        (i : ℕ) {n : ℕ}
        → s.pc i ≡ checking n
        → consumed s.channel.buffer ≡ false
        → Step s (record s { pc = at s.pc i (consuming n) })
    consumes :
        (i : ℕ) {n : ℕ} {c : Idx} {t : TripleBuffer (A × ℕ)}
        → s.pc i ≡ consuming n
        → consume s.channel.consumer s.channel.buffer ≡ ok (c, true, t)
        → Step s (record s {
          channel = record { buffer = t; consumer = c };
          pc = at s.pc i (showing_write n);
          taken = s.published;
        })
    asserts :
        (i : ℕ) {n : ℕ} {c : Idx} {t : TripleBuffer (A × ℕ)}
        → s.pc i ≡ consuming n
        → consume s.channel.consumer s.channel.buffer ≡ ok (c, false, t)
        → Step s (record s { channel = record s.channel { buffer = t }; pc = at s.pc i panicked })
    shows :
        (i : ℕ) {n : ℕ}
        → Showing (s.pc i) n
        → Step s (record s {
          pc = at s.pc i idle;
          seen = at s.seen i (report (s.seen i) s.channel).current;
        })

  -- A channel on which no receiver is at work. The consumer's element counts as the publication 0.
  abbrev pub start : Broadcast A → Idx → ℕ → (ℕ → ℕ) → System A
  start channel producer version seen = record {
    channel = channel;
    producer = producer;
    version = version;
    filled = false;
    pc = λ i. idle;
    seen = seen;
    published = 0;
    sent = λ k. channel.buffer.elements channel.consumer;
    taken = 0;
  }

  pub data Reach (s : System A) : System A → Type 0 where
    here : Reach s s
    later : {t u : System A} → Reach s t → Step t u → Reach s u

-- ===== src/Broad.antt =====
-- src/broad.rs: the broadcasting channel over a triple buffer of values with their versions. Here the
-- read-write lock round the consumer's index is taken at once: a call of `read` finds the state as it
-- is when the lock is granted. The closure that `write` calls is a function on the value, and what
-- `read` calls its closure with is the result.
pub mod Versions
pub mod Start
pub mod Shared
pub mod Handles
mod Tests
use amity.Prelude.{
  ℕ, Bool, true, false, not, Option, none, some, Outcome, ok, panic, ◌>>=◌, if◌then◌else◌, ltb,
  add_word,
}
use amity.Triple
use amity.Triple.{Idx, zero, TripleBuffer, consumed, consume, publish, get_unchecked, set, other}

pub record Broadcast {ℓ} (A : Type ℓ) : Type ℓ where
  pub buffer : TripleBuffer (A × ℕ)
  pub consumer : Idx

-- What `read` hands to its closure, the caller's version after it, and the channel.
pub record Seen {ℓ} (A : Type ℓ) : Type ℓ where
  pub value : A
  pub updated : Bool
  pub current : ℕ
  pub after : Broadcast A

-- What `write` leaves: the producer's index and version, and the channel.
pub record Written {ℓ} (A : Type ℓ) : Type ℓ where
  pub producer : Idx
  pub current : ℕ
  pub after : Broadcast A

module _ {ℓ} {A : Type ℓ} where
  -- The body of the write lock's section: the check is made again there.
  pub update_consumer : Broadcast A → Outcome (Broadcast A)
  update_consumer b =
      if not (consumed b.buffer)
      then (do
        (new_consumer, published, t) ← consume b.consumer b.buffer
        if published then ok (record { buffer = t; consumer = new_consumer }) else panic)
      else ok b

  pub report : ℕ → Broadcast A → Seen A
  report current b =
      let (value, version) = get_unchecked b.buffer b.consumer in
      if ltb current version
      then record { value = value; updated = true; current = version; after = b }
      else record { value = value; updated = false; current = current; after = b }

  pub read : ℕ → Broadcast A → Outcome (Seen A)
  unfolding report
  read current b =
      if not (consumed b.buffer)
      then (update_consumer b >>= λ b'. ok (report current b'))
      else ok (report current b)

  pub recv : ℕ → Broadcast A → Outcome (Option A × ℕ × Broadcast A)
  recv current b = do
    seen ← read current b
    ok (if seen.updated then some seen.value else none, seen.current, seen.after)

  -- The last component is what `value` refers to afterwards.
  pub recv_into : ℕ → A → Broadcast A → Outcome (Bool × ℕ × Broadcast A × A)
  recv_into current value b = do
    seen ← read current b
    ok (seen.updated, seen.current, seen.after, if seen.updated then seen.value else value)

  pub last : ℕ → Broadcast A → Outcome (A × ℕ × Broadcast A)
  last current b = do seen ← read current b; ok (seen.value, seen.current, seen.after)

  pub write : (A → A) → Idx → ℕ → Broadcast A → Outcome (Written A)
  write f producer current b = do
    let (value, version) = get_unchecked b.buffer producer
    let bumped = add_word current 1
    let filled = set producer (f value, add_word version bumped) b.buffer
    (new_producer, _, t) ← publish producer filled
    ok (record { producer = new_producer; current = bumped; after = record b { buffer = t } })

  pub send : A → Idx → ℕ → Broadcast A → Outcome (Written A)
  unfolding write
  send value producer current b = write (λ _. value) producer current b

  pub new : A → Broadcast A × ℕ × Idx
  new initial =
      let producer = zero in
      let consumer = other producer in
      (
        record { buffer = Triple.new (initial, 0) (initial, 0) (initial, 0); consumer = consumer },
        0,
        producer,
      )

-- A sender and a receiver share the channel, which is passed along; each keeps its version.
pub record Sender : Type 0 where
  pub producer : Idx
  pub version : ℕ

pub record Receiver : Type 0 where
  pub version : ℕ

pub record Cached {ℓ} (A : Type ℓ) : Type ℓ where
  pub get : Receiver
  pub local : A

abbrev pub receiver : Sender → Receiver
receiver s = record { version = 0 }

module _ {ℓ} {A : Type ℓ} where
  pub sender_send : A → Sender → Broadcast A → Outcome (Sender × Broadcast A)
  unfolding send
  sender_send value s b = do
    w ← send value s.producer s.version b
    ok (record { producer = w.producer; version = w.current }, w.after)

  pub receiver_recv : Receiver → Broadcast A → Outcome (Option A × Receiver × Broadcast A)
  unfolding recv
  receiver_recv r b = do
    (value, version, after) ← recv r.version b
    ok (value, record { version = version }, after)

  pub cached_new : Receiver → Broadcast A → Outcome (Cached A × Broadcast A)
  unfolding last
  cached_new r b = do
    (value, version, after) ← last r.version b
    ok (record { get = record { version = version }; local = value }, after)

  pub cached_update : Cached A → Broadcast A → Outcome (Bool × Cached A × Broadcast A)
  unfolding recv_into
  cached_update c b = do
    (updated, version, after, local) ← recv_into c.get.version c.local b
    ok (updated, record { get = record { version = version }; local = local }, after)

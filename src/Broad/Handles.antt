-- ===== src/Broad/Handles.antt =====
-- The handles of src/broad.rs: the methods that call those of the channel with the version that the
-- handle keeps. A handle's copy shares the channel.
mod Tests
use amity.Prelude.{Bool, Outcome, ok, ◌>>=◌, ℕ}
use amity.Triple.{Idx}
use amity.Broad.{
  Broadcast, Seen, read, recv_into, last, write, Sender, Receiver, Cached, receiver, cached_new,
}

-- `into_sender`.
abbrev pub into_sender : Idx → ℕ → Sender
into_sender producer version = record { producer = producer; version = version }

abbrev pub receiver_clone : Receiver → Receiver
receiver_clone r = record { version = r.version }

module _ {ℓ} {A : Type ℓ} where
  -- What the closure is called with, the handle and the channel.
  pub receiver_read : Receiver → Broadcast A → Outcome ((A × Bool) × Receiver × Broadcast A)
  receiver_read r b = do
    seen ← read r.version b
    ok ((seen.value, seen.updated), record { version = seen.current }, seen.after)

  pub receiver_recv_into :
      A → Receiver → Broadcast A → Outcome ((Bool × A) × Receiver × Broadcast A)
  receiver_recv_into value r b = do
    (updated, version, after, into) ← recv_into r.version value b
    ok ((updated, into), record { version = version }, after)

  pub receiver_last : Receiver → Broadcast A → Outcome (A × Receiver × Broadcast A)
  receiver_last r b = do
    (value, version, after) ← last r.version b
    ok (value, record { version = version }, after)

  pub sender_write : (A → A) → Sender → Broadcast A → Outcome (Sender × Broadcast A)
  sender_write f s b = do
    w ← write f s.producer s.version b
    ok (record { producer = w.producer; version = w.current }, w.after)

  pub cached : Sender → Broadcast A → Outcome (Cached A × Broadcast A)
  cached s b = cached_new (receiver s) b

  abbrev pub cached_clone : Cached A → Cached A
  cached_clone c = record { get = receiver_clone c.get; local = c.local }

  abbrev pub cached_get : Cached A → A
  cached_get c = c.local

  -- `From<Receiver>`.
  pub cached_from : Receiver → Broadcast A → Outcome (Cached A × Broadcast A)
  cached_from r b = cached_new r b

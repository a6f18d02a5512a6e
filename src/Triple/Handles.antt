-- ===== src/Triple/Handles.antt =====
-- `TripleBufferProducer` and `TripleBufferConsumer` of src/triple.rs, and the two `split` methods: a
-- handle is an index, and the buffer that both share is passed along.
mod Tests
use amity.Prelude.{Bool, true, not, Option, Outcome, ok, ◌>>=◌}
use amity.Triple.{
  Idx, TripleBuffer, other, pending, consumed, publish, consume, set, read, recv, recv_into,
  get_unchecked,
}

pub record Producer : Type 0 where
  pub producer : Idx
  pub last_consumed : Bool

pub record Consumer : Type 0 where
  pub consumer : Idx

module _ {ℓ} {A : Type ℓ} where
  -- `split_arc` and `split_mut`.
  pub split : TripleBuffer A → Outcome (Producer × Consumer)
  unfolding pending other
  split t = do
    i ← pending t
    let producer = other i
    let consumer = other producer
    ok (record { producer = producer; last_consumed = true }, record { consumer = consumer })

  pub producer_get : Producer → TripleBuffer A → A
  producer_get h t = get_unchecked t h.producer

  pub producer_set : A → Producer → TripleBuffer A → TripleBuffer A
  unfolding set
  producer_set value h t = set h.producer value t

  pub producer_publish : Producer → TripleBuffer A → Outcome (Bool × Producer × TripleBuffer A)
  unfolding publish
  producer_publish h t = do
    (new_producer, was_consumed, after) ← publish h.producer t
    ok (was_consumed, record { producer = new_producer; last_consumed = was_consumed }, after)

  pub producer_send : A → Producer → TripleBuffer A → Outcome (Bool × Producer × TripleBuffer A)
  unfolding producer_set producer_publish
  producer_send value h t = producer_publish h (producer_set value h t)

  pub consumer_get : Consumer → TripleBuffer A → A
  consumer_get h t = get_unchecked t h.consumer

  pub consumer_read : Consumer → TripleBuffer A → A
  consumer_read h t = read h.consumer t

  pub consumer_recv : A → Consumer → TripleBuffer A → Outcome (Option A × Consumer × TripleBuffer A)
  unfolding recv
  consumer_recv default h t = do
    (consumer, value, after) ← recv default h.consumer t
    ok (value, record { consumer = consumer }, after)

  pub consumer_recv_into :
      A → Consumer → TripleBuffer A → Outcome (Bool × Consumer × TripleBuffer A × A)
  unfolding recv_into
  consumer_recv_into value h t = do
    (consumer, produced, after, into) ← recv_into h.consumer value t
    ok (produced, record { consumer = consumer }, after, into)

  pub consumer_consume : Consumer → TripleBuffer A → Outcome (Bool × Consumer × TripleBuffer A)
  unfolding consume
  consumer_consume h t = do
    (new_consumer, published, after) ← consume h.consumer t
    ok (published, record { consumer = new_consumer }, after)

  pub published : TripleBuffer A → Bool
  unfolding consumed
  published t = not (consumed t)

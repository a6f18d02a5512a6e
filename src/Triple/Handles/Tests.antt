-- ===== src/Triple/Handles/Tests.antt =====
-- The handles of src/triple.rs on a small buffer.
use amity.Prelude.{ℕ, ◌≡◌, refl, true, false, Option, some, Outcome, ok, ◌>>=◌}
use amity.Triple.{
  one, two, TripleBuffer, new, set, publish, consume, consumed, from_bits_unchecked, pending, other,
  recv, recv_into,
}
use amity.Triple.Handles.{
  Consumer, split, producer_get, producer_set, producer_publish, producer_send, consumer_get,
  consumer_read, consumer_recv, consumer_recv_into, consumer_consume, published,
}

abbrev started : TripleBuffer ℕ
started = new 10 20 30

split_runs :
    split started ≡ ok (record { producer = one; last_consumed = true }, record { consumer = two })
unfolding split new pending from_bits_unchecked other
split_runs = refl

-- Before anything is sent, the producer has the second element and the consumer the third.
get_runs :
    (producer_get (record { producer = one; last_consumed = true }) started ≡ 20)
    × (consumer_get (record { consumer = two }) started ≡ 30)
    × (published started ≡ false)
unfolding producer_get consumer_get published new consumed
get_runs = (refl, refl, refl)

-- The value that a consumer gets after 5 is sent: through `consume` and `read`, and through `recv` and
-- `recv_into`.
sent_through : (Consumer → TripleBuffer ℕ → Outcome (Option ℕ)) → Outcome (Option ℕ)
sent_through get = do (p, c) ← split started; (_, _, t) ← producer_send 5 p started; get c t

abbrev consume_then_read : Consumer → TripleBuffer ℕ → Outcome (Option ℕ)
consume_then_read c t = do (_, c, t) ← consumer_consume c t; ok (some (consumer_read c t))

sent_runs :
    (sent_through consume_then_read ≡ ok (some 5))
    × (sent_through (λ c t. consumer_recv 0 c t >>= λ o. ok o.0) ≡ ok (some 30))
    × (sent_through (λ c t. consumer_recv_into 0 c t >>= λ o. ok (some o.3)) ≡ ok (some 30))
unfolding sent_through split new pending from_bits_unchecked other producer_send producer_set
    producer_publish set publish consume consumer_consume consumer_read consumer_recv
    consumer_recv_into recv recv_into
sent_runs = (refl, refl, refl)

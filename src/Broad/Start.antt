-- ===== src/Broad/Start.antt =====
-- The broadcasting channel of src/broad.rs from `Broadcast::new` on: the indices that it gives out, and
-- what a receiver gets that calls after each value that is sent.
use amity.Prelude.{
  ℕ, ◌≡◌, refl, List, [], ◌∷◌, Option, some, none, Outcome, ok, Returns, ◌>>=◌, Bool-cases, inl,
  inr, ltb,
}
use amity.Triple
use amity.Triple.{
  Idx, pending, consumed, publish, consume, from_bits_unchecked, other, get_unchecked, set,
}
use amity.Broad.{
  Broadcast, Sender, Receiver, new, receiver, update_consumer, report, read, recv, write, send,
  sender_send, receiver_recv,
}

module _ {A : Type 0} where
  -- `Sender::new`.
  pub sender_new : A → Sender × Broadcast A
  unfolding new
  sender_new initial =
      let (b, version, producer) = new initial in
      (record { producer = producer; version = version }, b)

  -- The producer's index in a new channel is the one that is pending. After any first `write` and
  -- a `read`, the producer and the receiving side hold one index: whatever the producer then
  -- stores in its element, without publishing, is what the receiving side's element is.
  pub new_aliases :
      (initial : A) (f : A → A) (seen : ℕ)
      → (pending (new initial).0.buffer ≡ ok (new initial).2)
        × Returns {A = Idx × Broadcast A}
            (write f (new initial).2 (new initial).1 (new initial).0 >>= λ w.
              read seen w.after >>= λ o. ok (w.producer, o.after))
            (λ o.
              (o.0 ≡ o.1.consumer)
              × ((x : A × ℕ) → get_unchecked (set o.0 x o.1.buffer) o.1.consumer ≡ x))
  unfolding new write read update_consumer report pending Triple.new publish consume consumed
      from_bits_unchecked set other
  new_aliases initial f seen = (
    refl,
    elim (Bool-cases (ltb seen 1)) [
      | inl e ↦ rw e (refl, λ x. refl)
      | inr e ↦ rw e (refl, λ x. refl)
    ],
  )

  -- A receiver that calls `recv` after each of some values is sent: what it gets.
  pub alternate : Sender → Receiver → Broadcast A → List A → Outcome (List (Option A))
  alternate s r b [] = ok []
  alternate s r b (v ∷ vs) = sender_send v s b >>= λ o.
      receiver_recv r o.1 >>= λ w. alternate o.0 w.1 w.2 vs >>= λ got. ok (w.0 ∷ got)

  -- A new channel's receiver that calls `recv` after each of three sends gets the first value and
  -- the second one, and does not get the third.
  pub third_lost :
      (initial v1 v2 v3 : A)
      → alternate
          (sender_new initial).0
          (receiver (sender_new initial).0)
          (sender_new initial).1
          (v1 ∷ v2 ∷ v3 ∷ [])
        ≡ ok (some v1 ∷ some v2 ∷ none ∷ [])
  unfolding sender_new alternate new sender_send receiver_recv send recv write read update_consumer
      report Triple.new publish consume consumed from_bits_unchecked set other
  third_lost initial v1 v2 v3 = refl

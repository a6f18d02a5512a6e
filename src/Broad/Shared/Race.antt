-- ===== src/Broad/Shared/Race.antt =====
-- A new channel of src/broad.rs, whose sender and receivers come to hold one index.
use amity.Prelude.{◌≡◌, inl, false, refl}
use amity.Threads.{at-all}
use amity.Triple
use amity.Triple.{Idx, consumed, consume, publish, set, other, from_bits_unchecked}
use amity.Broad.{new}
use amity.Broad.Shared.{
  idle, wants_write, System, Showing, holds, fills, publishes, check_pending, lock_write,
  recheck_pending, consumes, start, Reach, here, later, fill,
}

module _ {A : Type 0} where
  -- From a new channel, after a first value that the sender writes, a state is reached in which a receiver has a
  -- reference to the consumer's element, the sender may write again, and it holds the same index: whatever
  -- function it writes with then changes the element under the receiver's reference.
  pub new_races :
      (initial : A) (f : A → A)
      → (s : System A) × Reach (start (new initial).0 (new initial).2 (new initial).1 (λ i. 0)) s
        × Showing (s.pc 0) 1
        × (s.filled ≡ false)
        × (s.producer ≡ s.channel.consumer)
        × ((g : A → A)
            → ((fill g s.producer s.version s.channel).1.buffer.elements s.channel.consumer).0
              ≡ g (s.channel.buffer.elements s.channel.consumer).0)
  unfolding new fill Triple.new publish consume consumed from_bits_unchecked set other
  new_races initial f = (
    _,
    later
        (later
          (later
            (later (later (later here (fills f refl)) (publishes refl refl))
              (check_pending 0 refl refl))
            (lock_write 0 refl
              (at-all (λ j p. holds p ≡ false) (λ i. idle) 0 (wants_write 1) refl (λ k ne. refl))))
          (recheck_pending 0 refl refl))
        (consumes 0 refl refl),
    inl refl,
    refl,
    refl,
    λ g. refl,
  )

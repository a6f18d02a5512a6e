-- ===== src/Triple/Recv.antt =====
-- What `recv` and `recv_into` of src/triple.rs hand to the consumer.
use amity.Prelude.{
  false, ◌≡◌, refl, some, none, Returns, if◌then◌else◌, ◌∙◌, sym, Bool-cases, inl, inr, ap,
}
use amity.Triple.{Idx, TripleBuffer, recv, recv_into, set}
use amity.Triple.Flags.{flags_of}
use amity.Triple.Mailbox.{Mailbox, take}
use amity.Triple.Refine.{Shows, taken-Shows, consume_lem, put_self, put_ne}

module _ {A : Type 0} (t : TripleBuffer A) (p c : Idx) (m : Mailbox A) (shows : Shows t p c m) where
  open shows use {middle}

  -- The buffer after `consume`.
  abbrev after : TripleBuffer A
  after = record t { flags = flags_of c false }

  module _ (default : A) where
    reset-Shows : Shows (set c default after) p middle (record (take m) { posted = default })
    unfolding set
    reset-Shows = record {
      middle = c;
      flags_eq = refl;
      sides_apart = shows.producer_apart;
      producer_apart = shows.sides_apart;
      consumer_apart = λ e. shows.consumer_apart (sym e);
      writing_eq =
          put_ne t.elements c p default (λ e. shows.sides_apart (sym e)) ∙ shows.writing_eq;
      posted_eq = put_self t.elements c default;
      reading_eq = put_ne t.elements c middle default shows.consumer_apart ∙ shows.posted_eq;
    }

    -- On a buffer that shows a mailbox, `recv` takes the posted element. Where that was news, the
    -- value that it returns is the one that the consumer had before the call, not the one that was
    -- posted, and the default goes into the element that is posted from then on. Otherwise it
    -- returns nothing.
    pub recv_stale : Returns (recv default c t) (λ o.
        (o.1 ≡ (if m.fresh then some m.reading else none))
        × Shows o.2 p o.0 (if m.fresh then record (take m) { posted = default } else take m))
    unfolding recv
    recv_stale = elim (Bool-cases m.fresh) [
      | inl news ↦ rw (consume_lem t p c m shows) (rw news (ap some shows.reading_eq, reset-Shows))
      | inr old ↦ rw (consume_lem t p c m shows) (rw old (refl, taken-Shows t p c m shows))
    ]

  -- On a buffer that shows a mailbox, `recv_into` takes the posted element, and returns whether it
  -- was news. If so, it copies out the value that the consumer had before the call; else it leaves
  -- its target alone.
  pub recv_into_stale :
      (value : A)
      → Returns (recv_into c value t) (λ o.
        (o.1 ≡ m.fresh) × Shows o.2 p o.0 (take m) × (o.3 ≡ (if m.fresh then m.reading else value)))
  unfolding recv_into
  recv_into_stale value =
      rw (consume_lem t p c m shows, shows.reading_eq) (refl, taken-Shows t p c m shows, refl)

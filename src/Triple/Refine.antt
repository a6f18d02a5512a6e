-- ===== src/Triple/Refine.antt =====
-- The operations of src/triple.rs implement the mailbox.
use amity.Prelude.{true, false, not, ◌≡◌, ◌≢◌, refl, sym, ◌∙◌, ok, Returns, arith, ne→==}
use amity.Triple.{Idx, zero, one, two, TripleBuffer, index, publish, consume, set, send, put}
use amity.Triple.Flags.{flags_of, publish-flags, consume-flags}
use amity.Triple.Mailbox.{Mailbox, post, take}

-- The buffer, with the indices that the two sides hold, is the mailbox. The three indices differ, so
-- no two sides ever reach one element.
pub record Shows {A : Type 0} (t : TripleBuffer A) (p c : Idx) (m : Mailbox A) : Type 0 where
  pub middle : Idx
  pub flags_eq : t.flags ≡ flags_of middle m.fresh
  pub sides_apart : p ≢ c
  pub producer_apart : p ≢ middle
  pub consumer_apart : c ≢ middle
  pub writing_eq : t.elements p ≡ m.writing
  pub posted_eq : t.elements middle ≡ m.posted
  pub reading_eq : t.elements c ≡ m.reading

module _ {A : Type 0} (t : TripleBuffer A) (p c : Idx) (m : Mailbox A) (shows : Shows t p c m) where
  open shows use {middle, flags_eq}

  publish_lem : publish p t ≡ ok (middle, not m.fresh, record t { flags = flags_of p true })
  publish_lem = publish-flags t middle m.fresh flags_eq p

  pub consume_lem : consume c t ≡ ok (middle, m.fresh, record t { flags = flags_of c false })
  consume_lem = consume-flags t middle m.fresh flags_eq c

  -- `publish` posts the producer's value and hands the producer the element that was posted before.
  -- It returns whether that one had been consumed. The index that it decodes is one of the three.
  pub publish_refines : Returns (publish p t) (λ o. (o.1 ≡ not m.fresh) × Shows o.2 o.0 c (post m))
  publish_refines = rw publish_lem (refl, posted)
    where
      posted : Shows (record t { flags = flags_of p true }) middle c (post m)
      posted = record {
        middle = p;
        flags_eq = refl;
        sides_apart = λ e. shows.consumer_apart (sym e);
        producer_apart = λ e. shows.producer_apart (sym e);
        consumer_apart = λ e. shows.sides_apart (sym e);
        writing_eq = shows.posted_eq;
        posted_eq = shows.writing_eq;
        reading_eq = shows.reading_eq;
      }

  pub taken-Shows : Shows (record t { flags = flags_of c false }) p middle (take m)
  taken-Shows = record {
    middle = c;
    flags_eq = refl;
    sides_apart = shows.producer_apart;
    producer_apart = shows.sides_apart;
    consumer_apart = λ e. shows.consumer_apart (sym e);
    writing_eq = shows.writing_eq;
    posted_eq = shows.reading_eq;
    reading_eq = shows.posted_eq;
  }

  -- `consume` hands the consumer the posted element and posts the one that the consumer had. It
  -- returns whether the element had been published since the last call.
  pub consume_refines : Returns (consume c t) (λ o. (o.1 ≡ m.fresh) × Shows o.2 p o.0 (take m))
  consume_refines = rw consume_lem (refl, taken-Shows)

index-injective : (i j : Idx) → index i ≡ index j → i ≡ j
index-injective zero zero e = refl
index-injective one one e = refl
index-injective two two e = refl
index-injective zero one e = absurd (omega arith)
index-injective zero two e = absurd (omega arith)
index-injective one zero e = absurd (omega arith)
index-injective one two e = absurd (omega arith)
index-injective two zero e = absurd (omega arith)
index-injective two one e = absurd (omega arith)

pub put_self : {A : Type 0} (e : Idx → A) (i : Idx) (v : A) → put e i v i ≡ v
put_self e zero v = refl
put_self e one v = refl
put_self e two v = refl

pub put_ne : {A : Type 0} (e : Idx → A) (i j : Idx) (v : A) → i ≢ j → put e i v j ≡ e j
put_ne e i j v h = rw (ne→== (index i) (index j) (λ q. h (index-injective i j q)))

module _ {A : Type 0} (v : A) (t : TripleBuffer A) (p c : Idx) (m : Mailbox A)
    (shows : Shows t p c m) where
  open shows use {middle}

  -- A write through the producer's index changes the producer's value alone.
  pub set_producer : Shows (set p v t) p c (record m { writing = v })
  unfolding set
  set_producer = record {
    middle = middle;
    flags_eq = shows.flags_eq;
    sides_apart = shows.sides_apart;
    producer_apart = shows.producer_apart;
    consumer_apart = shows.consumer_apart;
    writing_eq = put_self t.elements p v;
    posted_eq = put_ne t.elements p middle v shows.producer_apart ∙ shows.posted_eq;
    reading_eq = put_ne t.elements p c v shows.sides_apart ∙ shows.reading_eq;
  }

  -- A write through the consumer's index changes the consumer's value alone.
  pub set_consumer : Shows (set c v t) p c (record m { reading = v })
  unfolding set
  set_consumer = record {
    middle = middle;
    flags_eq = shows.flags_eq;
    sides_apart = shows.sides_apart;
    producer_apart = shows.producer_apart;
    consumer_apart = shows.consumer_apart;
    writing_eq = put_ne t.elements c p v (λ e. shows.sides_apart (sym e)) ∙ shows.writing_eq;
    posted_eq = put_ne t.elements c middle v shows.consumer_apart ∙ shows.posted_eq;
    reading_eq = put_self t.elements c v;
  }

module _ {A : Type 0} (v : A) (t : TripleBuffer A) (p c : Idx) (m : Mailbox A)
    (shows : Shows t p c m) where
  -- `send` posts the value that it is given.
  pub send_refines :
      Returns
        (send p v t)
        (λ o. (o.1 ≡ not m.fresh) × Shows o.2 o.0 c (post (record m { writing = v })))
  unfolding send
  send_refines =
      publish_refines (set p v t) p c (record m { writing = v }) (set_producer v t p c m shows)

-- ===== src/Triple/System.antt =====
-- The two sides of the triple buffer of src/triple.rs at work, in any interleaving. Each step is one
-- access to the flags, or a write through an index that the side owns.
use amity.Prelude.{
  Bool, true, false, not, ◌≡◌, ◌≢◌, refl, ok, Returns, subst, sym, ◌∙◌, Returns-map,
}
use amity.Triple.{Idx, zero, one, two, TripleBuffer, new, publish, consume, set}
use amity.Triple.Mailbox.{Mailbox, post, take}
use amity.Triple.Refine.{Shows, publish_refines, consume_refines, set_producer, set_consumer}

pub record System (A : Type 0) : Type 0 where
  pub buffer : TripleBuffer A
  pub producer : Idx
  pub consumer : Idx

module _ {A : Type 0} where
  pub data Step (s : System A) : System A → Type 0 where
    write : (v : A) → Step s (record s { buffer = set s.producer v s.buffer })
    edit : (v : A) → Step s (record s { buffer = set s.consumer v s.buffer })
    publishes :
        {i : Idx} {b : Bool} {t : TripleBuffer A}
        → publish s.producer s.buffer ≡ ok (i, b, t)
        → Step s (record s { buffer = t; producer = i })
    consumes :
        {i : Idx} {b : Bool} {t : TripleBuffer A}
        → consume s.consumer s.buffer ≡ ok (i, b, t)
        → Step s (record s { buffer = t; consumer = i })

  -- The two sides as `split` makes them of a new buffer.
  abbrev pub initial : A → A → A → System A
  initial a b c = record { buffer = new a b c; producer = one; consumer = two }

  pub data Reach (s : System A) : System A → Type 0 where
    here : Reach s s
    later : {t u : System A} → Reach s t → Step t u → Reach s u

  -- The moves of the mailbox.
  pub data Move (m : Mailbox A) : Mailbox A → Type 0 where
    writes : (v : A) → Move m (record m { writing = v })
    edits : (v : A) → Move m (record m { reading = v })
    posts : Move m (post m)
    takes : Move m (take m)

  pub data Moves (m : Mailbox A) : Mailbox A → Type 0 where
    stay : Moves m m
    move : {n o : Mailbox A} → Moves m n → Move n o → Moves m o

  abbrev pub Simulates : System A → Mailbox A → Type 0
  Simulates s m = Shows s.buffer s.producer s.consumer m

  initial-Simulates :
      (a b c : A)
      → Simulates (initial a b c) (record { writing = b; posted = a; reading = c; fresh = false })
  unfolding new
  initial-Simulates a b c = record {
    middle = zero;
    flags_eq = refl;
    sides_apart = λ e. cc;
    producer_apart = λ e. cc;
    consumer_apart = λ e. cc;
    writing_eq = refl;
    posted_eq = refl;
    reading_eq = refl;
  }

  -- What `publish_refines` and `consume_refines` say of the result.
  abbrev pub Posted : System A → Mailbox A → Idx × Bool × TripleBuffer A → Type 0
  Posted s m o = (o.1 ≡ not m.fresh) × Shows o.2 o.0 s.consumer (post m)

  abbrev pub Taken : System A → Mailbox A → Idx × Bool × TripleBuffer A → Type 0
  Taken s m o = (o.1 ≡ m.fresh) × Shows o.2 s.producer o.0 (take m)

  Step-Move :
      {s t : System A} (m : Mailbox A)
      → Step s t
      → Simulates s m
      → (n : Mailbox A) × Move m n × Simulates t n
  Step-Move {s} m (write v) h = (_, writes v, set_producer v s.buffer s.producer s.consumer m h)
  Step-Move {s} m (edit v) h = (_, edits v, set_consumer v s.buffer s.producer s.consumer m h)
  Step-Move {s} m (publishes e) h = (
    _,
    posts,
    (subst (λ o. Returns o (Posted s m)) e (publish_refines s.buffer s.producer s.consumer m h)).1,
  )
  Step-Move {s} m (consumes e) h = (
    _,
    takes,
    (subst (λ o. Returns o (Taken s m)) e (consume_refines s.buffer s.producer s.consumer m h)).1,
  )

  Reach-Moves :
      {s t : System A} (m : Mailbox A)
      → Reach s t
      → Simulates s m
      → (n : Mailbox A) × Moves m n × Simulates t n
  Reach-Moves m here h = (m, stay, h)
  Reach-Moves m (later r st) h =
      let (n, ms, k) = Reach-Moves m r h in let (o, mv, l) = Step-Move n st k in (o, move ms mv, l)

  -- Whatever the two sides do, in any interleaving, from a new buffer with the indices that
  -- `split` gives out: each state that they reach shows a mailbox that the mailbox's moves reach.
  -- The two sides never hold one index, and `publish` and `consume` then do what posting and
  -- taking do, without ever decoding an index that is not one of the three.
  pub Reach-refines :
      (a b c : A) {s : System A}
      → Reach (initial a b c) s
      → (m : Mailbox A) × Moves (record { writing = b; posted = a; reading = c; fresh = false }) m
        × Simulates s m
        × (s.producer ≢ s.consumer)
        × Returns (publish s.producer s.buffer) (Posted s m)
        × Returns (consume s.consumer s.buffer) (Taken s m)
  Reach-refines a b c {s} r =
      let (m, ms, h) = Reach-Moves _ r (initial-Simulates a b c) in
      (
        m,
        ms,
        h,
        h.sides_apart,
        publish_refines s.buffer s.producer s.consumer m h,
        consume_refines s.buffer s.producer s.consumer m h,
      )

  -- The two sides write through their own indices, and neither publishes nor consumes.
  pub data Quiet (s : System A) : System A → Type 0 where
    rest : Quiet s s
    write_on :
        {t : System A} (v : A)
        → Quiet s t
        → Quiet s (record t { buffer = set t.producer v t.buffer })
    edit_on :
        {t : System A} (v : A)
        → Quiet s t
        → Quiet s (record t { buffer = set t.consumer v t.buffer })

  Quiet-keeps :
      {s t : System A} (m : Mailbox A)
      → Quiet s t
      → Simulates s m
      → (n : Mailbox A) × Simulates t n × (n.posted ≡ m.posted) × (n.fresh ≡ m.fresh)
  Quiet-keeps m rest h = (m, h, refl, refl)
  Quiet-keeps m (write_on {t} v q) h =
      let (n, k, e, f) = Quiet-keeps m q h in
      (record n { writing = v }, set_producer v t.buffer t.producer t.consumer n k, e, f)
  Quiet-keeps m (edit_on {t} v q) h =
      let (n, k, e, f) = Quiet-keeps m q h in
      (record n { reading = v }, set_consumer v t.buffer t.producer t.consumer n k, e, f)

  -- A value that was published is delivered: in any state that the two sides of a new buffer
  -- reach, once the producer publishes its element, and whatever both sides then write through
  -- their own indices, the next `consume` says that there is news, and the consumer's element is
  -- the value that was published.
  pub delivery :
      (a b c : A) {s : System A}
      → Reach (initial a b c) s
      → {i : Idx} {done : Bool} {t : TripleBuffer A} → publish s.producer s.buffer ≡ ok (i, done, t)
      → {u : System A} → Quiet (record s { buffer = t; producer = i }) u
      → Returns
          (consume u.consumer u.buffer)
          (λ o. (o.1 ≡ true) × (o.2.elements o.0 ≡ s.buffer.elements s.producer))
  delivery a b c {s} r e {u} q =
      let (m, ms, h) = Reach-Moves _ r (initial-Simulates a b c) in
      let k =
        (subst (λ o. Returns o (Posted s m)) e
          (publish_refines s.buffer s.producer s.consumer m h)).1 in
      let (n, l, p, f) = Quiet-keeps (post m) q k in
      Returns-map (consume u.consumer u.buffer) _ _
        (consume_refines u.buffer u.producer u.consumer n l)
        λ o w. (w.0 ∙ f, w.1.reading_eq ∙ p ∙ sym h.writing_eq)

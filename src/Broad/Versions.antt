-- ===== src/Broad/Versions.antt =====
-- The reads and writes of the broadcasting channel of src/broad.rs, and what its versions let through.
-- Nothing is asked here of the indices that the producer and the receiving side hold.
use amity.Prelude.{
  ℕ, ◌+◌, ◌<◌, ◌≡◌, Bool, true, false, refl, sym, ap, ◌∙◌, ok, arith, Returns, Returns-map, ◌>>=◌,
  if◌then◌else◌, ltb, le→ltb, lt→ltb, word, add_word_lem, max, dec_lt,
}
use amity.Triple.{Idx, set, put}
use amity.Triple.Flags.{flags_of, publish-flags, consume-flags, consumed-pending}
use amity.Triple.Refine.{put_self}
use amity.Broad.{Broadcast, Seen, update_consumer, report, read, write}

-- The flags hold an index, and a mark that says whether it was published since the last `consume`.
pub record Ready {A : Type 0} (b : Broadcast A) : Type 0 where
  pub middle : Idx
  pub fresh : Bool
  pub flags_eq : b.buffer.flags ≡ flags_of middle fresh

-- The channel after a call of `read`: an element that is news is taken.
abbrev pub after_read : {A : Type 0} (b : Broadcast A) → Ready b → Broadcast A
after_read b ready =
    if ready.fresh
    then record {
      buffer = record b.buffer { flags = flags_of b.consumer false };
      consumer = ready.middle;
    }
    else b

-- The element, a value with its version, that the receiving side has then.
abbrev pub shown : {A : Type 0} (b : Broadcast A) → Ready b → A × ℕ
shown b ready = (after_read b ready).buffer.elements (after_read b ready).consumer

-- What `read` reports of an element to a caller whose version is `current`.
pub record Reports {A : Type 0} (element : A × ℕ) (after : Broadcast A) (current : ℕ) (o : Seen A)
    : Type 0 where
  pub value_eq : o.value ≡ element.0
  pub updated_eq : o.updated ≡ ltb current element.1
  pub current_eq : o.current ≡ max current element.1
  pub after_eq : o.after ≡ after

report_lem :
    {A : Type 0} (b : Broadcast A) (current : ℕ)
    → Reports (b.buffer.elements b.consumer) b current (report current b)
unfolding report
report_lem b current = elim (dec_lt current (b.buffer.elements b.consumer).1) [
  | yes h ↦ simp (lt→ltb current (b.buffer.elements b.consumer).1 h) (record {
    value_eq = refl;
    updated_eq = sym (lt→ltb current (b.buffer.elements b.consumer).1 h);
    current_eq = omega arith;
    after_eq = refl;
  })
  | no h ↦ simp (le→ltb current (b.buffer.elements b.consumer).1 (omega arith)) (record {
    value_eq = refl;
    updated_eq = sym (le→ltb current (b.buffer.elements b.consumer).1 (omega arith));
    current_eq = omega arith;
    after_eq = refl;
  })
]

read_lem :
    {A : Type 0} (b : Broadcast A) (middle : Idx) (fresh : Bool)
    → (e : b.buffer.flags ≡ flags_of middle fresh) → (current : ℕ)
    → read current b
      ≡ ok (report current (after_read b (record { middle = middle; fresh = fresh; flags_eq = e })))
unfolding read update_consumer
read_lem b middle true e current =
    rw
      ((consumed-pending b.buffer middle true e).0, consume-flags b.buffer middle true e b.consumer)
read_lem b middle false e current = rw ((consumed-pending b.buffer middle false e).0)

module _ {A : Type 0} (b : Broadcast A) (ready : Ready b) where
  -- While the flags hold an index, `read` never fails its assertion. It takes an element that is news,
  -- and shows the element that the receiving side then has; it says that the value is new to the
  -- caller exactly if its version is above the caller's, which is raised to it.
  pub read_refines :
      (current : ℕ)
      → Returns (read current b) (Reports (shown b ready) (after_read b ready) current)
  read_refines current =
      rw (read_lem b ready.middle ready.fresh ready.flags_eq current)
        (report_lem (after_read b ready) current)

module _ {A : Type 0} (b : Broadcast A) (p : Idx) (ready : Ready b) (f : A → A) (current : ℕ)
    (small : (b.buffer.elements p).1 + (current + 1) < word) where
  -- The element that `write` leaves: the closure applied to the value, with the raised version of the
  -- producer added to the version that the element had.
  abbrev pub filled : A × ℕ
  filled = (f (b.buffer.elements p).0, (b.buffer.elements p).1 + (current + 1))

  abbrev pub after_write : Broadcast A
  after_write = record b { buffer = record (set p filled b.buffer) { flags = flags_of p true } }

  pub write_lem :
      write f p current b
      ≡ ok (record { producer = ready.middle; current = current + 1; after = after_write })
  unfolding write set
  write_lem = rw (
    add_word_lem current 1 (omega arith),
    add_word_lem (b.buffer.elements p).1 (current + 1) small,
    publish-flags (record b.buffer { elements = put b.buffer.elements p filled }) ready.middle
        ready.fresh ready.flags_eq p,
  )

  abbrev after_write-Ready : Ready after_write
  after_write-Ready = record { middle = p; fresh = true; flags_eq = refl }

  -- While the flags hold an index, and unless the sum of the versions overflows, a `read` that follows a
  -- `write` shows the value that was written, whichever indices the two sides hold. It says that the
  -- value is new exactly if the caller's version is below the sum of the version that the written element
  -- had and the raised version of the producer.
  pub read-write :
      (seen : ℕ)
      → Returns (write f p current b >>= λ w. read seen w.after) (λ o.
        (o.value ≡ f (b.buffer.elements p).0)
        × (o.updated ≡ ltb seen ((b.buffer.elements p).1 + (current + 1))))
  unfolding set
  read-write seen = rw (write_lem) (
      Returns-map (read seen after_write) _ _ (read_refines after_write after_write-Ready seen)
        λ o k. (
          k.value_eq ∙ ap (λ e. e.0) (put_self b.buffer.elements p filled),
          k.updated_eq ∙ ap (λ e. ltb seen e.1) (put_self b.buffer.elements p filled),
        ))

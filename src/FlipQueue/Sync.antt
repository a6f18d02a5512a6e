-- ===== src/FlipQueue/Sync.antt =====
-- `push_sync` and `pop_sync` of src/flip_queue.rs: the claims through a shared borrow.
use amity.Prelude.{
  ℕ, ◌+◌, ◌%◌, ◌≤◌, ◌<◌, ◌≡◌, refl, sym, ap, ◌∙◌, arith, List, [], ◌∷◌, ◌++◌, some, none, ok,
  Returns, length, get_elem?, set, word, dec_lt, if◌then◌else◌, ltb, lt→ltb, le→ltb, length-set,
  length-append, get_elem?-set_self, get_elem?-set_ne, get_elem?-append_left,
  get_elem?-append_right, lt_of_get_elem?, get_elem?_of_lt, get_elem?_of_le,
}
use amity.RingBuffer.Position.{ring_index-eq-mod, position-ne}
use amity.RingBuffer.Window.{written-Represents}
use amity.FlipQueue.{FlipBuffer, push_sync, pop_sync}
use amity.FlipQueue.Holds.{Holds}

module _ {A : Type 0} (fb : FlipBuffer A) (xs staged : List A) (holds : Holds fb xs staged) where
  open fb use {buffer}
  open buffer use {head, len, array}
  open holds use {rep, staged_len}

  module _ (v : A) (room : length xs + length staged < length array) where
    slot : ℕ
    slot = (head + (len + fb.pushed)) % length array

    written : FlipBuffer A
    unfolding slot
    written = record fb {
      pushed = fb.pushed + 1;
      buffer = record buffer { array = set array slot (some v) };
    }

    cells :
        (i : ℕ) (y : A)
        → get_elem? (staged ++ v ∷ []) i ≡ some y
        → get_elem? (set array slot (some v)) ((head + (len + i)) % length array) ≡ some (some y)
    unfolding slot
    cells i y e = elim (dec_lt i (length staged)) [
      | yes p ↦
          get_elem?-set_ne array slot ((head + (len + i)) % length array) (some v) (λ clash.
            position-ne {head = head} {cap = length array} {i = len + i} {j = len + fb.pushed}
              (omega (arith, rep.head_in)) (omega (arith, staged_len, rep.len_eq))
              (omega (arith, staged_len, rep.len_eq)) (sym clash))
          ∙ holds.cells i y (sym (get_elem?-append_left staged (v ∷ []) i p) ∙ e)
      | no p ↦
          let last : i ≡ length staged =
            omega
              (arith, lt_of_get_elem? (staged ++ v ∷ []) i y e, length-append staged (v ∷ [])) in
          ap (λ k. get_elem? (set array slot (some v)) ((head + (len + k)) % length array))
            (omega (arith, staged_len, rep.len_eq))
          ∙ get_elem?-set_self array slot (some v) (omega (arith, rep.head_in))
          ∙ ap some (sym (get_elem?-append_right staged (v ∷ []) 0 i (omega arith)) ∙ e)
    ]

    written-Holds : Holds written xs (staged ++ v ∷ [])
    unfolding slot written
    written-Holds =
        let same = length-set array slot (some v) in
        record {
          rep =
              written-Represents buffer xs rep (len + fb.pushed) v (omega arith)
                (omega (arith, staged_len, rep.len_eq));
          staged_len = omega (arith, same, length-append staged (v ∷ []), staged_len, rep.len_eq);
          cells = λ i y e.
              ap (λ n. get_elem? (set array slot (some v)) ((head + (len + i)) % n)) same
              ∙ cells i y e;
        }

    push_sync_lem : fb.pushed + 1 < word → push_sync v fb ≡ ok (none, written)
    unfolding push_sync slot written
    push_sync_lem small =
        ground (arith, rep, staged_len, ring_index-eq-mod head (len + fb.pushed) (length array))

  module _ (v : A) (small : fb.pushed + 1 < word) where
    full-Holds :
        length array ≤ length xs + length staged
        → Holds (record fb { pushed = fb.pushed + 1 }) xs staged
    full-Holds full = record {
      rep = rep;
      staged_len = omega (arith, staged_len, rep.len_eq);
      cells = holds.cells;
    }

    push_sync_full :
        length array ≤ length xs + length staged
        → push_sync v fb ≡ ok (some v, record fb { pushed = fb.pushed + 1 })
    unfolding push_sync
    push_sync_full full = ground (arith, rep, staged_len)

    -- What a push does to the counts.
    abbrev pub Counted : FlipBuffer A → Type 0
    Counted o = (o.popped ≡ fb.popped) × (o.pushed ≡ fb.pushed + 1)

    -- From a flip buffer that holds settled and staged values, with its count of pushes not about
    -- to overflow: `push_sync` puts its value behind the staged ones where the array has room for
    -- it, and returns it otherwise. It neither panics nor reaches memory out of bounds, and no
    -- value of the queue is overwritten.
    pub push_sync_refines : Returns (push_sync v fb) (λ o.
        if ltb (length xs + length staged) (length array)
        then (o.0 ≡ none) × Holds o.1 xs (staged ++ v ∷ []) × Counted o.1
        else (o.0 ≡ some v) × Holds o.1 xs staged × Counted o.1)
    unfolding written
    push_sync_refines = elim (dec_lt (length xs + length staged) (length array)) [
      | yes p ↦
          rw (lt→ltb (length xs + length staged) (length array) p, push_sync_lem v p small)
            (refl, written-Holds v p, (refl, refl))
      | no p ↦
          rw
            (
              le→ltb (length xs + length staged) (length array) (omega arith),
              push_sync_full (omega arith),
            )
            (refl, full-Holds (omega arith), (refl, refl))
    ]

  module _ (small : fb.popped + 1 < word) where
    counted : FlipBuffer A
    counted = record fb { popped = fb.popped + 1 }

    pop_sync-some : (x : A) → get_elem? xs fb.popped ≡ some x → pop_sync fb ≡ ok (some x, counted)
    unfolding pop_sync counted
    pop_sync-some x e = ground (
      arith,
      rep,
      lt_of_get_elem? xs fb.popped x e,
      rep.cells fb.popped x e,
      ring_index-eq-mod head fb.popped (length array),
    )

    pop_sync-none : length xs ≤ fb.popped → pop_sync fb ≡ ok (none, counted)
    unfolding pop_sync counted
    pop_sync-none h = ground (arith, rep)

    -- From a flip buffer that holds settled and staged values, with its count of pops not about to
    -- overflow: `pop_sync` returns the oldest settled value that no call has claimed yet, and
    -- nothing where all are claimed; what was staged is not seen before it is flushed. It neither
    -- panics nor reads memory that is not initialised.
    pub pop_sync_refines : Returns (pop_sync fb) (λ o.
        (o.0 ≡ get_elem? xs fb.popped)
        × Holds o.1 xs staged
        × (o.1.popped ≡ fb.popped + 1)
        × (o.1.pushed ≡ fb.pushed))
    unfolding counted
    pop_sync_refines = elim (dec_lt fb.popped (length xs)) [
      | yes p ↦
          let (x, e) = get_elem?_of_lt xs fb.popped p in
          rw (pop_sync-some x e) (sym e, same, refl, refl)
      | no p ↦
          rw (pop_sync-none (omega arith))
            (sym (get_elem?_of_le xs fb.popped (omega arith)), same, refl, refl)
    ]
      where
        same : Holds (record fb { popped = fb.popped + 1 }) xs staged
        same = record { rep = rep; staged_len = staged_len; cells = holds.cells }

-- ===== src/RingBuffer/IterMut/Step/Fold.antt =====
-- The loops of the mutable iterator of src/ring_buffer.rs that carry a state.
use amity.Prelude.{
  ℕ, ◌+◌, ◌%◌, ◌≡◌, refl, sym, ap, ap₂, ◌∙◌, subst, arith, List, [], ◌∷◌, ◌++◌, Option, some,
  length, set, Outcome, ok, panic, undefined, ◌>>=◌, Returns, Returns-map, length-set,
  length-append, append_assoc, append-nil,
}
use amity.RingBuffer.{RingBuffer, read_slot}
use amity.RingBuffer.Represents.{Represents}
use amity.RingBuffer.IterMut.{iter_mut}
use amity.RingBuffer.IterMut.Places.{places, items_lem}
use amity.RingBuffer.IterMut.Update.{rewritten-Represents, read_middle, set-middle}
use amity.RingBuffer.IterMut.Step.{fold_slice, fold}

-- The fold over a list of values, with the values that it leaves.
abbrev pub accumulated : {A B : Type 0} → (B → A → B × A) → B → List A → B × List A
accumulated f state [] = (state, [])
accumulated f state (x ∷ xs) =
    let rest = accumulated f (f state x).0 xs in (rest.0, (f state x).1 ∷ rest.1)

module _ {A B : Type 0} (f : B → A → B × A) where
  runs_on :
      {C D : Type 0} (m : Outcome C) (k g : C → Outcome D) (h : D → Outcome D)
      → ((x : C) → k x ≡ (g x >>= h))
      → (m >>= k) ≡ ((m >>= g) >>= h)
  runs_on (ok x) k g h e = e x
  runs_on panic k g h e = refl
  runs_on undefined k g h e = refl

  pub fold_slice-append :
      (ps qs : List ℕ) (state : B) (array : List (Option A))
      → fold_slice f state (ps ++ qs) array
        ≡ (fold_slice f state ps array >>= λ o. fold_slice f o.0 qs o.1)
  fold_slice-append [] qs state array = refl
  fold_slice-append (p ∷ ps) qs state array =
      runs_on (read_slot array p) _ _ _
        λ x. fold_slice-append ps qs (f state x).0 (set array p (some (f state x).1))

  -- What a loop over a window of the queue leaves.
  abbrev pub Window : RingBuffer A → List A → B → List A → List A → B × List (Option A) → Type 0
  Window r done state mid more o =
      (o.0 ≡ (accumulated f state mid).0)
      × (length o.1 ≡ length r.array)
      × Represents (record r { array = o.1 }) (done ++ ((accumulated f state mid).1 ++ more))

  pub fold_slice-Window :
      (r : RingBuffer A) (state : B) (done mid more : List A)
      → Represents r (done ++ (mid ++ more))
      → Returns
          (fold_slice f state (places r.head (length r.array) (length done) (length mid)) r.array)
          (Window r done state mid more)
  fold_slice-Window r state done [] more rep = (refl, refl, rep)
  fold_slice-Window r state done (x ∷ mid) more rep = rw (read_middle r done (mid ++ more) x rep) (
      Returns-map _ _ (Window r done state (x ∷ mid) more)
        (subst
          (λ ps.
            Returns (fold_slice f (f state x).0 ps rewritten.array)
              (Window rewritten (done ++ y ∷ []) (f state x).0 mid more))
          (ap₂ (λ c k. places r.head c k (length mid))
            (length-set r.array ((r.head + length done) % length r.array) (some y)) behind)
          (fold_slice-Window rewritten (f state x).0 (done ++ y ∷ []) mid more rep'))
        λ o h. (
          h.0,
          h.1 ∙ length-set r.array ((r.head + length done) % length r.array) (some y),
          subst (Represents (record r { array = o.1 }))
              (append_assoc done (y ∷ []) ((accumulated f (f state x).0 mid).1 ++ more)) h.2,
        ))
    where
      y : A
      y = (f state x).1

      rewritten : RingBuffer A
      rewritten = record r {
        array = set r.array ((r.head + length done) % length r.array) (some y);
      }

      behind : length (done ++ y ∷ []) ≡ length done + 1
      behind = omega (arith, length-append done (y ∷ []))

      rep' : Represents rewritten ((done ++ y ∷ []) ++ (mid ++ more))
      rep' =
          subst (Represents rewritten)
            (set-middle done (mid ++ more) x y ∙ sym (append_assoc done (y ∷ []) (mid ++ more)))
            (rewritten-Represents r (done ++ x ∷ (mid ++ more)) (length done) y rep
              (omega (arith, length-append done (x ∷ (mid ++ more)))))

  -- From a buffer that holds a queue, `fold` of the mutable iterator, with a closure that writes through its
  -- references, ends with the state of the fold over the values in their order, leaves the buffer
  -- holding what the closure left of each, and reads initialised memory only.
  pub fold_refines :
      (init : B) (r : RingBuffer A) (xs : List A)
      → Represents r xs
      → Returns (fold f init (iter_mut r) r.array) (λ o.
        (o.0 ≡ (accumulated f init xs).0)
        × Represents (record r { array = o.1 }) (accumulated f init xs).1)
  unfolding fold
  fold_refines init r xs rep =
      subst
        (λ m. Returns m (λ o.
          (o.0 ≡ (accumulated f init xs).0)
          × Represents (record r { array = o.1 }) (accumulated f init xs).1))
        (ap (λ ps. fold_slice f init ps r.array)
            (ap (places r.head (length r.array) 0) (sym rep.len_eq) ∙ sym (items_lem r xs rep))
          ∙ fold_slice-append (iter_mut r).front (iter_mut r).back init r.array)
        (Returns-map _ _
          (λ o.
            (o.0 ≡ (accumulated f init xs).0)
            × Represents (record r { array = o.1 }) (accumulated f init xs).1)
          (fold_slice-Window r init [] xs [] (subst (Represents r) (sym (append-nil xs)) rep))
          λ o h. (
            h.0,
            subst (Represents (record r { array = o.1 })) (append-nil (accumulated f init xs).1)
                h.2,
          ))

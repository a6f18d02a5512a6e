-- ===== src/RingBuffer/IterMut/Step/Skips.antt =====
-- What a loop over `next` of the mutable iterator of src/ring_buffer.rs does to the queue.
use amity.Prelude.{
  ℕ, ◌+◌, ◌-◌, ◌<◌, min, ◌≡◌, refl, sym, ap, ap₂, ◌∙◌, subst, arith, List, [], ◌∷◌, ◌++◌, Option,
  length, take, drop, length-take, length-drop, length-append, take-append-drop, drop-drop,
  append-nil, append_assoc, ◌>>=◌, Returns, Returns-bind, Returns-map, dec_lt,
}
use amity.RingBuffer.{RingBuffer}
use amity.RingBuffer.Represents.{Represents}
use amity.RingBuffer.IterMut.{iter_mut}
use amity.RingBuffer.IterMut.Places.{places, places-length, iter_mut_lem}
use amity.RingBuffer.IterMut.Step.{next_loop, fold_slice}
use amity.RingBuffer.IterMut.Step.Fold.{accumulated, fold_slice-append, Window, fold_slice-Window}
use amity.RingBuffer.IterMut.Step.Next.{drop-places, next_loop-fold}

module _ {A B : Type 0} (f : B → A → B × A) where
  accumulated-length : (state : B) (xs : List A) → length (accumulated f state xs).1 ≡ length xs
  accumulated-length state [] = refl
  accumulated-length state (x ∷ xs) = omega (arith, accumulated-length (f state x).0 xs)

  -- The values of the first slice, those that are skipped, and the rest.
  module _ (r : RingBuffer A) (xs : List A) (rep : Represents r xs) (init : B) where
    abbrev pub first : ℕ
    first = min r.len (length r.array - r.head)

    abbrev done_first : B × List A
    done_first = accumulated f init (take first xs)

    abbrev done_rest : B × List A
    done_rest = accumulated f done_first.0 (drop (first + first) xs)

    abbrev skipped : List A
    skipped = take first (drop first xs)

    parted : take first xs ++ (skipped ++ drop (first + first) xs) ≡ xs
    parted =
        ap (λ t. take first xs ++ (skipped ++ t)) (drop-drop first first xs)
        ∙ ap (λ t. take first xs ++ t) (take-append-drop first (drop first xs))
        ∙ take-append-drop first xs

    first_in : length (take first xs) ≡ first
    first_in = omega (arith, length-take first xs, rep.len_eq)

    second_places :
        places r.head (length r.array) (first + first) (r.len - first - first)
        ≡ places r.head
            (length r.array)
            (length (done_first.1 ++ skipped))
            (length (drop (first + first) xs))
    second_places = elim (dec_lt r.len (first + first)) [
      | yes p ↦
          let none_left : r.len - first - first ≡ 0 = omega arith in
          let none_left' : length (drop (first + first) xs) ≡ 0 =
            omega (arith, length-drop (first + first) xs, rep.len_eq) in
          ap (places r.head (length r.array) (first + first)) none_left
          ∙ sym (ap (places r.head (length r.array) (length (done_first.1 ++ skipped))) none_left')
      | no p ↦
          ap₂ (places r.head (length r.array)) (starts p)
            (omega (arith, length-drop (first + first) xs, rep.len_eq))
    ]
      where
        starts : ¬ (r.len < first + first) → first + first ≡ length (done_first.1 ++ skipped)
        starts p = omega (
          arith,
          length-append done_first.1 skipped,
          accumulated-length init (take first xs),
          first_in,
          length-take first (drop first xs),
          length-drop first xs,
          rep.len_eq,
          p,
        )

    loop_places :
        (iter_mut r).front ++ drop (length (iter_mut r).front) (iter_mut r).back
        ≡ places r.head (length r.array) 0 (length (take first xs))
          ++ places r.head
              (length r.array)
              (length (done_first.1 ++ skipped))
              (length (drop (first + first) xs))
    loop_places =
        let (fronts, backs) = iter_mut_lem r xs rep in
        ap₂ (λ a b. a ++ drop (length a) b) fronts backs
        ∙ ap (λ t. places r.head (length r.array) 0 first ++ t)
            (ap (λ k. drop k (places r.head (length r.array) first (r.len - first)))
                (places-length r.head (length r.array) 0 first)
              ∙ drop-places r.head (length r.array) first (r.len - first) first
              ∙ second_places)
        ∙ ap
            (λ k.
              places r.head (length r.array) 0 k
              ++ places r.head (length r.array) (length (done_first.1 ++ skipped))
                  (length (drop (first + first) xs)))
            (sym first_in)

    abbrev Left : B × List (Option A) → Type 0
    Left o =
        (o.0 ≡ done_rest.0)
        × Represents (record r { array = o.1 }) (done_first.1 ++ (skipped ++ done_rest.1))

    second :
        (o : B × List (Option A))
        → Window f r [] init (take first xs) (skipped ++ drop (first + first) xs) o
        → Returns
            (fold_slice f o.0
              (places r.head
                (length r.array)
                (length (done_first.1 ++ skipped))
                (length (drop (first + first) xs)))
              o.1)
            Left
    second o h =
        Returns-map _
          (Window f later_buffer (done_first.1 ++ skipped) o.0 (drop (first + first) xs) []) Left
          (subst
            (λ c.
              Returns
                (fold_slice f o.0
                  (places r.head c (length (done_first.1 ++ skipped))
                    (length (drop (first + first) xs)))
                  o.1)
                (Window f later_buffer (done_first.1 ++ skipped) o.0 (drop (first + first) xs) []))
            h.1
            (fold_slice-Window f later_buffer o.0 (done_first.1 ++ skipped)
              (drop (first + first) xs) [] rep'))
          λ u k. (
            k.0 ∙ ap (λ b. (accumulated f b (drop (first + first) xs)).0) h.0,
            subst (Represents (record r { array = u.1 })) (left u) k.2,
          )
      where
        later_buffer : RingBuffer A
        later_buffer = record r { array = o.1 }

        rep' :
            Represents later_buffer ((done_first.1 ++ skipped) ++ (drop (first + first) xs ++ []))
        rep' =
            subst (Represents later_buffer)
              (sym (append_assoc done_first.1 skipped (drop (first + first) xs))
                ∙ ap (λ t. (done_first.1 ++ skipped) ++ t)
                    (sym (append-nil (drop (first + first) xs))))
              h.2

        left :
            B × List (Option A)
            → (done_first.1 ++ skipped) ++ ((accumulated f o.0 (drop (first + first) xs)).1 ++ [])
              ≡ done_first.1 ++ (skipped ++ done_rest.1)
        left u =
            ap (λ t. (done_first.1 ++ skipped) ++ t)
              (append-nil (accumulated f o.0 (drop (first + first) xs)).1
                ∙ ap (λ b. (accumulated f b (drop (first + first) xs)).1) h.0)
            ∙ append_assoc done_first.1 skipped done_rest.1

    -- From a buffer that holds a queue, a loop over `next` of the mutable iterator, with fuel for every value, does
    -- not do what `fold` does: it applies the closure to the values of the first slice, passes over
    -- as many values of the second slice and leaves them as they were, and goes on with the rest.
    pub next_loop_skips :
        (fuel : ℕ)
        → length xs < fuel
        → Returns (next_loop fuel f init (iter_mut r) r.array) (λ o.
          (o.0 ≡ (accumulated f (accumulated f init (take first xs)).0 (drop (first + first) xs)).0)
          × Represents
              (record r { array = o.1 })
              ((accumulated f init (take first xs)).1
                ++ (take first (drop first xs)
                    ++ (accumulated f
                        (accumulated f init (take first xs)).0
                        (drop (first + first) xs)).1)))
    next_loop_skips fuel h =
        subst (λ m. Returns m Left) (sym same_loop)
          (Returns-bind _ _ _ Left
            (fold_slice-Window f r init [] (take first xs) (skipped ++ drop (first + first) xs)
              (subst (Represents r) (sym parted) rep))
            second)
      where
        enough : length (iter_mut r).front + length (iter_mut r).back < fuel
        enough =
            let (fronts, backs) = iter_mut_lem r xs rep in
            omega (
              arith,
              ap length fronts,
              ap length backs,
              places-length r.head (length r.array) 0 first,
              places-length r.head (length r.array) first (r.len - first),
              h,
              rep.len_eq,
            )

        same_loop : next_loop fuel f init (iter_mut r) r.array ≡ (
            fold_slice f init (places r.head (length r.array) 0 (length (take first xs))) r.array
            >>= λ o.
                fold_slice f o.0
                  (places r.head
                    (length r.array)
                    (length (done_first.1 ++ skipped))
                    (length (drop (first + first) xs)))
                  o.1)
        same_loop =
            next_loop-fold f fuel (iter_mut r).front (iter_mut r).back enough init r.array
            ∙ ap (λ ps. fold_slice f init ps r.array) loop_places
            ∙ fold_slice-append f _ _ init r.array

-- ===== src/RingBuffer/IterMut/Update.antt =====
-- A loop of the mutable iterator of src/ring_buffer.rs writes each element once.
use amity.Prelude.{
  ℕ, ◌+◌, ◌%◌, ◌<◌, ◌≡◌, ◌≢◌, refl, sym, ap, ap₂, ◌∙◌, subst, arith, List, [], ◌∷◌, ◌++◌, Option,
  some, length, get_elem?, set, map, dec_lt, ℕ_discrete, Outcome, ok, panic, undefined, ◌>>=◌,
  Returns, Returns-bind, Returns-map, length-set, length-append, get_elem?-set_self,
  get_elem?-set_ne, get_elem?-append_right, lt_of_get_elem?, append_assoc,
}
use amity.RingBuffer.{RingBuffer, read_slot}
use amity.RingBuffer.Represents.{Represents}
use amity.RingBuffer.Position.{position-ne}
use amity.RingBuffer.IterMut.{iter_mut, for_each_slice, for_each}
use amity.RingBuffer.IterMut.Places.{places, items_lem}

module _ {A : Type 0} where
  two_runs :
      {B : Type 0} (m : Outcome B) (f : B → Outcome (List (Option A)))
      (g : B → Outcome (List (Option A))) (next : List (Option A) → Outcome (List (Option A)))
      → ((x : B) → f x ≡ (g x >>= next))
      → (m >>= f) ≡ ((m >>= g) >>= next)
  two_runs (ok x) f g next e = e x
  two_runs panic f g next e = refl
  two_runs undefined f g next e = refl

  for_each_slice-append :
      (f : A → A) (ps qs : List ℕ) (array : List (Option A))
      → for_each_slice f (ps ++ qs) array
        ≡ (for_each_slice f ps array >>= λ one. for_each_slice f qs one)
  for_each_slice-append f [] qs array = refl
  for_each_slice-append f (p ∷ ps) qs array =
      two_runs (read_slot array p) _ _ _
        λ x. for_each_slice-append f ps qs (set array p (some (f x)))

  pub set-middle :
      (done rest : List A) (x v : A) → set (done ++ x ∷ rest) (length done) v ≡ done ++ v ∷ rest
  set-middle [] rest x v = refl
  set-middle (y ∷ done) rest x v = ap (λ t. y ∷ t) (set-middle done rest x v)

  -- A write into the window.
  pub rewritten-Represents :
      (r : RingBuffer A) (ys : List A) (k : ℕ) (v : A)
      → Represents r ys
      → k < length ys
      → Represents
          (record r { array = set r.array ((r.head + k) % length r.array) (some v) })
          (set ys k v)
  rewritten-Represents r ys k v rep lt =
      let same = length-set r.array ((r.head + k) % length r.array) (some v) in
      record {
        bounded = omega (arith, same, rep.bounded);
        head_in = omega (arith, same, rep.head_in);
        len_eq = rep.len_eq ∙ sym (length-set ys k v);
        len_in = omega (arith, same, rep.len_in);
        cells = λ i x e.
            ap
              (λ n.
                get_elem? (set r.array ((r.head + k) % length r.array) (some v)) ((r.head + i) % n))
              same
            ∙ (elim (ℕ_discrete k i) [
              | yes q ↦
                  ap
                    (λ m.
                      get_elem? (set r.array ((r.head + k) % length r.array) (some v))
                        ((r.head + m) % length r.array))
                    (sym q)
                  ∙ get_elem?-set_self r.array ((r.head + k) % length r.array) (some v)
                      (omega (arith, rep.len_eq, rep.len_in))
                  ∙ ap some (sym (get_elem?-set_self ys k v lt) ∙ ap (get_elem? (set ys k v)) q ∙ e)
              | no ne ↦
                  let found : get_elem? ys i ≡ some x = sym (get_elem?-set_ne ys k i v ne) ∙ e in
                  get_elem?-set_ne r.array ((r.head + k) % length r.array)
                    ((r.head + i) % length r.array) (some v)
                    (apart i ne (omega (arith, lt_of_get_elem? ys i x found)))
                  ∙ rep.cells i x found
            ]);
      }
    where
      apart :
          (i : ℕ)
          → k ≢ i
          → i < length ys
          → (r.head + k) % length r.array ≢ (r.head + i) % length r.array
      apart i ne h clash = elim (dec_lt k i) [
        | yes p ↦
            position-ne {head = r.head} {cap = length r.array} {i = k} {j = i}
              (omega (arith, rep.head_in, rep.len_in, rep.len_eq)) p
              (omega (arith, rep.len_in, rep.len_eq)) clash
        | no p ↦
            position-ne {head = r.head} {cap = length r.array} {i = i} {j = k}
              (omega (arith, rep.head_in, rep.len_in, rep.len_eq)) (omega (arith, ne))
              (omega (arith, rep.len_in, rep.len_eq)) (sym clash)
      ]

  pub read_middle :
      (r : RingBuffer A) (done rest : List A) (x : A)
      → Represents r (done ++ x ∷ rest)
      → read_slot r.array ((r.head + length done) % length r.array) ≡ ok x
  read_middle r done rest x rep = rw (
      rep.cells (length done) x
        (get_elem?-append_right done (x ∷ rest) 0 (length done) (omega arith)))

  loop :
      (f : A → A) (r : RingBuffer A) (done rest : List A)
      → Represents r (done ++ rest)
      → Returns
          (for_each_slice f (places r.head (length r.array) (length done) (length rest)) r.array)
          (λ array. Represents (record r { array = array }) (done ++ map f rest))
  loop f r done [] rep = rep
  loop f r done (x ∷ rest) rep = rw (read_middle r done rest x rep) (
      Returns-map _ _ _
        (subst
          (λ ps.
            Returns (for_each_slice f ps rewritten.array)
              (λ a. Represents (record r { array = a }) ((done ++ f x ∷ []) ++ map f rest)))
          (ap₂ (λ c k. places r.head c k (length rest))
            (length-set r.array ((r.head + length done) % length r.array) (some (f x)))
            (omega (arith, length-append done (f x ∷ []))))
          (loop f rewritten (done ++ f x ∷ []) rest rep'))
        λ a h.
          subst (Represents (record r { array = a })) (append_assoc done (f x ∷ []) (map f rest)) h)
    where
      rewritten : RingBuffer A
      rewritten = record r {
        array = set r.array ((r.head + length done) % length r.array) (some (f x));
      }

      rep' : Represents rewritten ((done ++ f x ∷ []) ++ rest)
      rep' =
          subst (Represents rewritten)
            (set-middle done rest x (f x) ∙ sym (append_assoc done (f x ∷ []) rest))
            (rewritten-Represents r (done ++ x ∷ rest) (length done) (f x) rep
              (omega (arith, length-append done (x ∷ rest))))

  -- A run in two parts, and the value that is made of its result.
  then_ok :
      {B : Type 0} (m : Outcome (List (Option A))) (g : List (Option A) → Outcome (List (Option A)))
      (k : List (Option A) → B) (P : B → Type 0)
      → Returns (m >>= g) (λ a. P (k a))
      → Returns (m >>= λ a. g a >>= λ b. ok (k b)) P
  then_ok (ok a) g k P h = Returns-bind (g a) (λ b. ok (k b)) (λ b. P (k b)) P h λ b q. q
  then_ok panic g k P h = h
  then_ok undefined g k P h = h

  -- From a buffer that holds a queue, `for_each` of the mutable iterator with a function that writes through
  -- its reference leaves the buffer holding the queue with that function applied to each value once, and
  -- reads initialised memory only.
  pub for_each_refines :
      (f : A → A) (r : RingBuffer A) (xs : List A)
      → Represents r xs
      → Returns (for_each f r) (λ o. Represents o (map f xs))
  unfolding for_each
  for_each_refines f r xs rep =
      then_ok (for_each_slice f (iter_mut r).front r.array) (for_each_slice f (iter_mut r).back)
        (λ array. record r { array = array }) (λ o. Represents o (map f xs))
        (subst (λ m. Returns m (λ a. Represents (record r { array = a }) (map f xs)))
          (ap (λ ps. for_each_slice f ps r.array)
              (ap (places r.head (length r.array) 0) (sym rep.len_eq) ∙ sym (items_lem r xs rep))
            ∙ for_each_slice-append f (iter_mut r).front (iter_mut r).back r.array)
          (loop f r [] xs rep))

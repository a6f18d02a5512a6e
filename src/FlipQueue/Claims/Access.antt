-- ===== src/FlipQueue/Claims/Access.antt =====
-- Each step of a shared push or pop of src/flip_queue.rs keeps the claims in order.
use amity.Prelude.{
  ℕ, ◌+◌, ◌-◌, ◌≤◌, ◌<◌, ◌≡◌, refl, sym, ap, ap₂, ◌∙◌, arith, List, [], ◌∷◌, ◌++◌, none, some, ◌⊎◌,
  inl, inr, length, get_elem?, word, dec_lt, length-append, get_elem?-append_left,
  get_elem?-append_right, lt_of_get_elem?,
}
use amity.Threads.{at, at-all, at_self}
use amity.FlipQueue.{FlipBuffer}
use amity.FlipQueue.Claims.{Pc, outside, writing, reading, claim_push, claim_pop}
use amity.FlipQueue.Claims.Inv.{
  Inv, Fits, Distinct-none, Distinct-fresh, write_claim, read_claim, staged_cell,
}

module _ {A : Type 0} where
  pub more-Fits :
      (fb fb' : FlipBuffer A) (xs staged staged' : List A) (p : Pc A)
      → ((n : ℕ) (v : A) → get_elem? staged n ≡ some v → get_elem? staged' n ≡ some v)
      → fb.popped ≤ fb'.popped
      → fb.pushed ≤ fb'.pushed
      → Fits fb xs staged p
      → Fits fb' xs staged' p
  more-Fits fb fb' xs staged staged' outside grow h g f = tt
  more-Fits fb fb' xs staged staged' (writing v n) grow h g f = (grow n v f.0, omega (arith, f.1))
  more-Fits fb fb' xs staged staged' (reading n) grow h g f = (f.0, omega (arith, f.1))

  write_below :
      (fb : FlipBuffer A) (xs staged : List A) (p : Pc A) (n : ℕ)
      → Fits fb xs staged p
      → write_claim p ≡ some n
      → n < fb.pushed
  write_below fb xs staged (writing v m) n f e = ground (arith, f.1)
  write_below fb xs staged outside n f e = absurd (ground arith)
  write_below fb xs staged (reading m) n f e = absurd (ground arith)

  read_below :
      (fb : FlipBuffer A) (xs staged : List A) (p : Pc A) (n : ℕ)
      → Fits fb xs staged p
      → read_claim p ≡ some n
      → n < fb.popped
  read_below fb xs staged (reading m) n f e = ground (arith, f.1)
  read_below fb xs staged outside n f e = absurd (ground arith)
  read_below fb xs staged (writing v m) n f e = absurd (ground arith)

module _ {A : Type 0} {fb : FlipBuffer A} {pc : ℕ → Pc A} {xs staged : List A}
    (inv : Inv fb pc xs staged) where
  open fb use {buffer}
  open buffer use {head, len, array}
  open inv use {rep, staged_len, fits}

  -- A caller that has no write to do may go elsewhere.
  waits :
      (i : ℕ) (p : Pc A)
      → write_claim (pc i) ≡ none
      → (j : ℕ) (y : A) → (staged_cell fb j ≡ some (some y)) ⊎ ((c : ℕ) × (pc c ≡ writing y j))
      → (staged_cell fb j ≡ some (some y)) ⊎ ((c : ℕ) × (at pc i p c ≡ writing y j))
  waits i p idle j y (inl e) = inl e
  waits i p idle j y (inr (c, e)) = inr (
    c,
    at-all (λ c q. pc c ≡ writing y j → q ≡ writing y j) pc i p
        (λ e'. absurd (busy (sym idle ∙ ap write_claim e'))) (λ c ne e'. e') c e,
  )
    where
      busy : none ≡ some j → ⊥
      busy e' = ground arith

  module _ (small_push : fb.pushed + 1 < word) (small_pop : fb.popped + 1 < word) where
    pub claim_push-some :
        fb.pushed < length array - len
        → claim_push fb ≡ (some fb.pushed, record fb { pushed = fb.pushed + 1 })
    unfolding claim_push
    claim_push-some room = ground (arith, rep)

    pub claim_push-none :
        length array - len ≤ fb.pushed
        → claim_push fb ≡ (none, record fb { pushed = fb.pushed + 1 })
    unfolding claim_push
    claim_push-none full = ground (arith, rep)

    pub claim_pop-some :
        fb.popped < len → claim_pop fb ≡ (some fb.popped, record fb { popped = fb.popped + 1 })
    unfolding claim_pop
    claim_pop-some lt = ground (arith, rep)

    pub claim_pop-none :
        len ≤ fb.popped → claim_pop fb ≡ (none, record fb { popped = fb.popped + 1 })
    unfolding claim_pop
    claim_pop-none le = ground (arith, rep)

  some_value : {x y : A} → some x ≡ some y → x ≡ y
  some_value e = cc

  pub pushed_Inv :
      (i : ℕ) (v : A)
      → pc i ≡ outside
      → fb.pushed < length array - len
      → Inv
          (record fb { pushed = fb.pushed + 1 })
          (at pc i (writing v fb.pushed))
          xs
          (staged ++ v ∷ [])
  pushed_Inv i v here room = record {
    rep = rep;
    staged_len = omega (arith, staged_len, length-append staged (v ∷ []));
    cells = λ j y e. elim (dec_lt j (length staged)) [
      | yes p ↦
          waits i (writing v fb.pushed) (ap write_claim here) j y
            (inv.cells j y (sym (get_elem?-append_left staged (v ∷ []) j p) ∙ e))
      | no p ↦
          let last : j ≡ length staged =
            omega
              (arith, lt_of_get_elem? (staged ++ v ∷ []) j y e, length-append staged (v ∷ [])) in
          let value : some v ≡ some y =
            sym (get_elem?-append_right staged (v ∷ []) 0 j (omega arith)) ∙ e in
          inr (
            i,
            at_self pc i (writing v fb.pushed)
                ∙ ap₂ writing (some_value value) (omega (arith, last, staged_len)),
          )
    ];
    fits =
        at-all (λ c q. Fits (record fb { pushed = fb.pushed + 1 }) xs (staged ++ v ∷ []) q) pc i
          (writing v fb.pushed)
          (
            get_elem?-append_right staged (v ∷ []) 0 fb.pushed (omega (arith, staged_len)),
            omega arith,
          )
          λ c ne.
            more-Fits fb (record fb { pushed = fb.pushed + 1 }) xs staged (staged ++ v ∷ []) (pc c)
              (λ n w e. get_elem?-append_left staged (v ∷ []) n (lt_of_get_elem? staged n w e) ∙ e)
              (omega arith) (omega arith) (fits c);
    writers =
        Distinct-fresh write_claim pc i fb.pushed (writing v fb.pushed) refl
          (λ c n. write_below fb xs staged (pc c) n (fits c)) inv.writers;
    readers = Distinct-none read_claim pc i (writing v fb.pushed) refl inv.readers;
  }

  pub full_Inv :
      length array - len ≤ fb.pushed → Inv (record fb { pushed = fb.pushed + 1 }) pc xs staged
  full_Inv full = record {
    rep = rep;
    staged_len = omega (arith, staged_len);
    cells = inv.cells;
    fits = λ c.
        more-Fits fb (record fb { pushed = fb.pushed + 1 }) xs staged staged (pc c) (λ n v e. e)
          (omega arith) (omega arith) (fits c);
    writers = inv.writers;
    readers = inv.readers;
  }

  pub popped_Inv :
      (i : ℕ)
      → pc i ≡ outside
      → fb.popped < len
      → Inv (record fb { popped = fb.popped + 1 }) (at pc i (reading fb.popped)) xs staged
  popped_Inv i here lt = record {
    rep = rep;
    staged_len = staged_len;
    cells = λ j y e. waits i (reading fb.popped) (ap write_claim here) j y (inv.cells j y e);
    fits =
        at-all (λ c q. Fits (record fb { popped = fb.popped + 1 }) xs staged q) pc i
          (reading fb.popped) (omega (arith, rep.len_eq), omega arith)
          λ c ne.
            more-Fits fb (record fb { popped = fb.popped + 1 }) xs staged staged (pc c) (λ n v e. e)
              (omega arith) (omega arith) (fits c);
    writers = Distinct-none write_claim pc i (reading fb.popped) refl inv.writers;
    readers =
        Distinct-fresh read_claim pc i fb.popped (reading fb.popped) refl
          (λ c n. read_below fb xs staged (pc c) n (fits c)) inv.readers;
  }

  pub none_Inv : Inv (record fb { popped = fb.popped + 1 }) pc xs staged
  none_Inv = record {
    rep = rep;
    staged_len = staged_len;
    cells = inv.cells;
    fits = λ c.
        more-Fits fb (record fb { popped = fb.popped + 1 }) xs staged staged (pc c) (λ n v e. e)
          (omega arith) (omega arith) (fits c);
    writers = inv.writers;
    readers = inv.readers;
  }

  pub read_Inv : (i n : ℕ) → pc i ≡ reading n → Inv fb (at pc i outside) xs staged
  read_Inv i n here = record {
    rep = rep;
    staged_len = staged_len;
    cells = λ j y e. waits i outside (ap write_claim here) j y (inv.cells j y e);
    fits = at-all (λ c q. Fits fb xs staged q) pc i outside tt λ c ne. fits c;
    writers = Distinct-none write_claim pc i outside refl inv.writers;
    readers = Distinct-none read_claim pc i outside refl inv.readers;
  }

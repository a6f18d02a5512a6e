-- ===== src/Arena/Laws.antt =====
-- What src/arena.rs promises: a value stays under the number that `insert` gave until it is removed.
use amity.Prelude.{
  ℕ, ◌+◌, ◌≤◌, ◌<◌, ◌≡◌, ◌≢◌, refl, sym, ap, ◌∙◌, subst, arith, List, [], ◌∷◌, ◌++◌, Bool, true,
  false, not, Option, none, some, ◌==◌, if◌then◌else◌, length, get_elem?, set, count, length-append,
  get_elem?-set_ne, get_elem?-set_self, get_elem?-append_left, get_elem?-append_right,
  get_elem?_of_lt, get_elem?_of_le, lt_of_get_elem?, ℕ_discrete, eq→==, ne→==, lt→ltb, le→ltb, ok,
  panic, undefined, Returns, usize_max, dec_lt,
}
use amity.Arena.{
  Slot, Arena, debug_assert, new, make_occupied, occupied_ref, occupied_read, vacant, get, insert,
  remove,
}
use amity.Arena.Slots.{Free, empty, vacancy, held, lookup, Inv, Free-le, Free-set, vacancy-le}

assert_lem :
    (debug : Bool) (n : ℕ) → n < usize_max → debug_assert debug (not (n == usize_max)) ≡ ok tt
assert_lem true n h = rw (ne→== n usize_max (λ e. omega (arith, h, e)))
assert_lem false n h = refl

module _ {A : Type 0} where
  pub new-Inv : Inv (new {A = A})
  unfolding new
  new-Inv = record { free = []; chain = refl; vacancies = λ i. refl }

  lookup-some :
      (o : Option (Slot A)) (value : A)
      → held o ≡ some value
      → (slot : Slot A) × (o ≡ some slot) × (slot.value ≡ some value)
  lookup-some none value h = absurd (ground arith)
  lookup-some (some slot) value h = (slot, refl, h)

  empty_value : (o : Option A) → empty o ≡ 1 → o ≡ none
  empty_value none h = refl
  empty_value (some value) h = absurd (ground arith)

  module _ (a : Arena A) (inv : Inv a) where
    once : (i : ℕ) → count i inv.free ≤ 1
    once i = omega (arith, inv.vacancies i, vacancy-le (get_elem? a.slots i))

    -- A slot takes another value, and the free list with it.
    set-Inv :
        (i next : ℕ) (slot old : Slot A) (free : List ℕ)
        → get_elem? a.slots i ≡ some old
        → Free (set a.slots i slot) next free
        → ((j : ℕ) → i ≢ j → count j free ≡ count j inv.free)
        → count i free ≡ empty slot.value
        → Inv (record { slots = set a.slots i slot; next = next })
    set-Inv i next slot old free at_i chain others own = record {
      free = free;
      chain = chain;
      vacancies = λ j. elim (ℕ_discrete i j) [
        | yes e ↦
            subst (λ k. count k free ≡ vacancy (get_elem? (set a.slots i slot) k)) e
              (own
                ∙ sym (
                    ap vacancy
                      (get_elem?-set_self a.slots i slot (lt_of_get_elem? a.slots i old at_i))))
        | no ne ↦
            others j ne ∙ inv.vacancies j ∙ sym (ap vacancy (get_elem?-set_ne a.slots i j slot ne))
      ];
    }

  -- A number that `insert` gives, and what it makes of the arena.
  abbrev pub Inserted : Arena A → A → ℕ × Arena A → Type 0
  Inserted a value o =
      (lookup a o.0 ≡ none)
      × Inv o.1
      × (lookup o.1 o.0 ≡ some value)
      × ((j : ℕ) → o.0 ≢ j → lookup o.1 j ≡ lookup a j)

  module _ (debug : Bool) (a : Arena A) (inv : Inv a) (small : length a.slots < usize_max) where
    -- With room on the free list.
    insert_vacant :
        (value : A) (i : ℕ) (rest : List ℕ) (slot : Slot A)
        → inv.free ≡ i ∷ rest
        → a.next ≡ i
        → get_elem? a.slots i ≡ some slot
        → Free a.slots slot.next rest
        → Returns (insert debug value a) (Inserted a value)
    unfolding insert vacant make_occupied
    insert_vacant value i rest slot shape here found chain =
        rw
          (
            here,
            lt→ltb i (length a.slots) lt,
            found,
            assert_lem debug slot.next (omega (arith, small, Free-le a.slots slot.next rest chain)),
          )
          (
            ap held found
                ∙ empty_value slot.value
                    (omega (arith, ap vacancy found, inv.vacancies i, counts i, own, once a inv i)),
            set-Inv a inv i slot.next (make_occupied value) slot rest found
                (Free-set a.slots slot.next i (make_occupied value) rest lone chain)
                (λ j ne. others j ne) lone,
            ap held (get_elem?-set_self a.slots i (make_occupied value) lt),
            λ j ne. ap held (get_elem?-set_ne a.slots i j (make_occupied value) ne),
          )
      where
        lt : i < length a.slots
        lt = lt_of_get_elem? a.slots i slot found

        counts : (j : ℕ) → count j inv.free ≡ (if i == j then 1 else 0) + count j rest
        counts j = ap (count j) shape

        own : ◌≡◌ {A = ℕ} (if i == i then 1 else 0) 1
        own = ground (arith, eq→== i i refl)

        lone : count i rest ≡ 0
        lone = omega (arith, counts i, own, once a inv i)

        others : (j : ℕ) → i ≢ j → count j rest ≡ count j inv.free
        others j ne = ground (arith, counts j, ne→== i j ne)

    -- Without.
    insert_grow :
        (value : A)
        → inv.free ≡ []
        → a.next ≡ length a.slots
        → Returns (insert debug value a) (Inserted a value)
    unfolding insert
    insert_grow value shape here =
        rw (here, le→ltb (length a.slots) (length a.slots) (omega arith))
          (
            ap held (get_elem?_of_le a.slots (length a.slots) (omega arith)),
            record { free = []; chain = refl; vacancies = λ j. full j },
            ap held (at_end pushed),
            λ j ne. ap held (kept j ne),
          )
      where
        pushed : Slot A
        pushed = record { value = some value; next = 0 }

        at_end : (slot : Slot A) → get_elem? (a.slots ++ slot ∷ []) (length a.slots) ≡ some slot
        at_end slot = get_elem?-append_right a.slots (slot ∷ []) 0 (length a.slots) (omega arith)

        kept :
            (j : ℕ)
            → length a.slots ≢ j
            → get_elem? (a.slots ++ pushed ∷ []) j ≡ get_elem? a.slots j
        kept j ne = elim (dec_lt j (length a.slots)) [
          | yes p ↦ get_elem?-append_left a.slots (pushed ∷ []) j p
          | no p ↦
              get_elem?_of_le (a.slots ++ pushed ∷ []) j
                (omega (arith, length-append a.slots (pushed ∷ []), ne))
              ∙ sym (get_elem?_of_le a.slots j (omega arith))
        ]

        full : (j : ℕ) → 0 ≡ vacancy (get_elem? (a.slots ++ pushed ∷ []) j)
        full j = elim (ℕ_discrete (length a.slots) j) [
          | yes e ↦ sym (
              ap (λ k. vacancy (get_elem? (a.slots ++ pushed ∷ []) k)) (sym e)
              ∙ ap vacancy (at_end pushed))
          | no ne ↦ sym (ap (count j) shape) ∙ inv.vacancies j ∙ sym (ap vacancy (kept j ne))
        ]

    -- In an arena in order with fewer than the greatest number of slots, `insert` returns a number that no
    -- value has and leaves the arena in order, with the value under that number and every other value
    -- where it was.
    pub insert_refines : (value : A) → Returns (insert debug value a) (Inserted a value)
    insert_refines value = at_list inv.free refl inv.chain
      where
        at_list :
            (free : List ℕ)
            → inv.free ≡ free
            → Free a.slots a.next free
            → Returns (insert debug value a) (Inserted a value)
        at_list [] shape chain = insert_grow value shape chain
        at_list (i ∷ rest) shape chain =
            insert_vacant value i rest chain.1.0 shape chain.0 chain.1.1 chain.1.2

    -- In an arena in order with fewer than the greatest number of slots, `remove` of a number with a value
    -- returns the value and leaves the arena in order, with no value under that number and every other
    -- value where it was.
    pub remove_refines :
        (idx : ℕ) (value : A)
        → lookup a idx ≡ some value
        → Returns (remove debug idx a) (λ o.
          (o.0 ≡ value)
          × Inv o.1
          × (lookup o.1 idx ≡ none)
          × ((j : ℕ) → idx ≢ j → lookup o.1 j ≡ lookup a j))
    unfolding remove occupied_read
    remove_refines idx value h =
        let (slot, found, holds) = lookup-some (get_elem? a.slots idx) value h in
        let lt = lt_of_get_elem? a.slots idx slot found in
        let lone : count idx inv.free ≡ 0 = inv.vacancies idx ∙ ap vacancy found ∙ ap empty holds in
        let freed : Slot A = record { value = none; next = a.next } in
        let found' = get_elem?-set_self a.slots idx freed lt in
        rw
          (
            found,
            holds,
            assert_lem debug a.next
                (omega (arith, small, Free-le a.slots a.next inv.free inv.chain)),
          )
          (
            refl,
            set-Inv a inv idx idx freed slot (idx ∷ inv.free) found
                (refl, (freed, found', Free-set a.slots a.next idx freed inv.free lone inv.chain))
                (λ j ne. ground (arith, ne→== idx j ne)) (ground (arith, eq→== idx idx refl, lone)),
            ap held found',
            λ j ne. ap held (get_elem?-set_ne a.slots idx j freed ne),
          )

  -- `get` returns the value that the arena holds under a number; where the slot is vacant it reads memory
  -- that is not initialised, and beyond the slots it panics.
  pub get_lem :
      (a : Arena A) (idx : ℕ)
      → ((value : A) → lookup a idx ≡ some value → get idx a ≡ ok value)
        × (lookup a idx ≡ none → idx < length a.slots → get idx a ≡ undefined)
        × (length a.slots ≤ idx → get idx a ≡ panic)
  unfolding get occupied_ref
  get_lem a idx = (
    λ value h.
        let (slot, found, holds) = lookup-some (get_elem? a.slots idx) value h in rw (found, holds),
    λ h lt.
        let (slot, found) = get_elem?_of_lt a.slots idx lt in
        let holds : slot.value ≡ none = sym (ap held found) ∙ h in rw (found, holds),
    λ le. rw (get_elem?_of_le a.slots idx le),
  )

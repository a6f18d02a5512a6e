-- ===== src/Arena/Tests.antt =====
-- src/arena.rs on small arenas: two values go in, the first one is removed, and another takes its slot.
use amity.Prelude.{
  ℕ, ◌≡◌, ◌≢◌, refl, arith, [], ◌∷◌, true, false, none, some, ok, panic, undefined, Returns,
  usize_max,
}
use amity.Arena.{
  Slot, Arena, new, make_occupied, vacant, occupied_read, occupied_drop, occupied_ref, get, insert,
  remove, drop,
}
use amity.Arena.Slots.{lookup, Inv}
use amity.Arena.Laws.{Inserted, insert_refines, remove_refines}

abbrev pushed : ℕ → Slot ℕ
pushed value = record { value = some value; next = 0 }

abbrev two : Arena ℕ
two = record { slots = pushed 5 ∷ pushed 6 ∷ []; next = 2 }

abbrev hole : Arena ℕ
hole = record { slots = record { value = none; next = 2 } ∷ pushed 6 ∷ []; next = 0 }

arena_runs :
    (insert true 5 new ≡ ok (0, record { slots = pushed 5 ∷ []; next = 1 }))
    × (insert true 6 (record { slots = pushed 5 ∷ []; next = 1 }) ≡ ok (1, two))
    × (remove true 0 two ≡ ok (5, hole))
    × (insert true 7 hole
        ≡ ok (
          0,
          record { slots = record { value = some 7; next = usize_max } ∷ pushed 6 ∷ []; next = 2 },
        ))
    × (get 1 hole ≡ ok 6)
    × (get 0 hole ≡ undefined)
    × (get 2 hole ≡ panic)
unfolding new insert remove get vacant make_occupied occupied_read occupied_ref
arena_runs = (refl, refl, refl, refl, refl, refl, refl)

two-Inv : Inv two
two-Inv = record { free = []; chain = refl; vacancies = λ i. ground arith }

hole-Inv : Inv hole
hole-Inv = record {
  free = 0 ∷ [];
  chain = (refl, (record { value = none; next = 2 }, refl, refl));
  vacancies = λ i. ground arith;
}

insert_refines_example : Returns (insert true 7 hole) (Inserted hole 7)
insert_refines_example = insert_refines true hole hole-Inv (omega arith) 7

remove_refines_example : Returns (remove true 0 two) (λ o.
    (o.0 ≡ 5) × Inv o.1 × (lookup o.1 0 ≡ none) × ((j : ℕ) → 0 ≢ j → lookup o.1 j ≡ lookup two j))
remove_refines_example = remove_refines true two two-Inv (omega arith) 0 5 refl

-- The value 7 stands in a slot that was reused.
abbrev reused : Arena ℕ
reused = record { slots = record { value = some 7; next = usize_max } ∷ pushed 6 ∷ []; next = 2 }

drop_runs :
    (drop false false 1 two
      ≡ ok (6, record { slots = pushed 5 ∷ record { value = none; next = 0 } ∷ []; next = 0 }))
    × (drop true true 0 reused ≡ panic)
    × (drop false true 0 reused ≡ undefined)
unfolding drop vacant occupied_drop occupied_read
drop_runs = (refl, refl, refl)

-- ===== src/Arena/Slots.antt =====
-- The free list of src/arena.rs: the vacant slots, linked by their numbers and ended by the number of slots.
use amity.Prelude.{
  ℕ, ◌≤◌, ◌≡◌, sym, ◌∙◌, arith, List, [], ◌∷◌, Option, none, some, ◌==◌, if◌then◌else◌, length,
  get_elem?, set, count, length-set, get_elem?-set_ne, lt_of_get_elem?, eq→==,
}
use amity.Arena.{Slot, Arena}

module _ {A : Type 0} where
  -- The slots that are free from a number on.
  abbrev pub Free : List (Slot A) → ℕ → List ℕ → Type 0
  Free slots next [] = next ≡ length slots
  Free slots next (i ∷ rest) =
      (next ≡ i) × ((slot : Slot A) × (get_elem? slots i ≡ some slot) × Free slots slot.next rest)

  abbrev pub empty : Option A → ℕ
  empty none = 1
  empty (some value) = 0

  -- 1 for a slot of the arena without a value.
  abbrev pub vacancy : Option (Slot A) → ℕ
  vacancy none = 0
  vacancy (some slot) = empty slot.value

  -- The value that the slot of a number holds, if there is one.
  abbrev pub held : Option (Slot A) → Option A
  held none = none
  held (some slot) = slot.value

  abbrev pub lookup : Arena A → ℕ → Option A
  lookup a i = held (get_elem? a.slots i)

  pub record Inv (a : Arena A) : Type 0 where
    pub free : List ℕ
    pub chain : Free a.slots a.next free
    pub vacancies : (i : ℕ) → count i free ≡ vacancy (get_elem? a.slots i)

  pub Free-le :
      (slots : List (Slot A)) (next : ℕ) (list : List ℕ)
      → Free slots next list
      → next ≤ length slots
  Free-le slots next [] f = omega (arith, f)
  Free-le slots next (i ∷ rest) f = omega (arith, f.0, lt_of_get_elem? slots i f.1.0 f.1.1)

  -- A slot that is not free may change.
  pub Free-set :
      (slots : List (Slot A)) (next i : ℕ) (slot : Slot A) (list : List ℕ)
      → count i list ≡ 0
      → Free slots next list
      → Free (set slots i slot) next list
  Free-set slots next i slot [] h f = f ∙ sym (length-set slots i slot)
  Free-set slots next i slot (j ∷ rest) h f = (
    f.0,
    (
      f.1.0,
      get_elem?-set_ne slots i j slot (λ e. omega (arith, h, own e)) ∙ f.1.1,
      Free-set slots f.1.0.next i slot rest (omega (arith, h)) f.1.2,
    ),
  )
    where
      own : i ≡ j → ◌≡◌ {A = ℕ} (if j == i then 1 else 0) 1
      own e = ground (arith, eq→== j i (sym e))

  pub empty-le : (o : Option A) → empty o ≤ 1
  empty-le none = omega arith
  empty-le (some value) = omega arith

  pub vacancy-le : (o : Option (Slot A)) → vacancy o ≤ 1
  vacancy-le none = omega arith
  vacancy-le (some slot) = empty-le slot.value

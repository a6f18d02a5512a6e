-- ===== src/Arena.antt =====
-- src/arena.rs: the arena of slots. A `MaybeUninit<T>` is `none` where no value is in it that may be read,
-- because none was written, or the value was moved out or destroyed. The boxed slice of slots, on
-- which the source calls `push`, is a list that grows. `debug` says whether the debug assertions are compiled
-- in, and `destructor` whether the type of the values has one: to drop a value of a type without
-- a destructor leaves it as it was.
pub mod Slots
pub mod Laws
mod Tests
use amity.Prelude.{
  ℕ, suc, ◌+◌, List, [], ◌∷◌, ◌++◌, Bool, true, false, not, ◌&&◌, ◌==◌, if◌then◌else◌, Option, none,
  some, ltb, length, get_elem?, set, Outcome, ok, panic, ◌>>=◌, ◌>>◌, or_panic, required, usize_max,
}

pub record Slot (A : Type 0) : Type 0 where
  pub value : Option A
  pub next : ℕ

pub record Arena (A : Type 0) : Type 0 where
  pub slots : List (Slot A)
  pub next : ℕ

abbrev pub debug_assert : Bool → Bool → Outcome (Unit {0})
debug_assert debug holds = if debug && not holds then panic else ok tt

module _ {A : Type 0} where
  pub new : Arena A
  new = record { slots = []; next = 0 }

  pub make_occupied : A → Slot A
  make_occupied value = record { value = some value; next = usize_max }

  pub occupied_ref : Slot A → Outcome A
  occupied_ref slot = required slot.value

  pub get : ℕ → Arena A → Outcome A
  unfolding occupied_ref
  get idx a = or_panic (get_elem? a.slots idx) >>= occupied_ref

  module _ (debug : Bool) where
    pub vacant : Slot A → Outcome ℕ
    vacant slot = do debug_assert debug (not (slot.next == usize_max)); ok slot.next

    -- The value that is read, or dropped, and the slot.
    pub occupied_read : ℕ → Slot A → Outcome (A × Slot A)
    occupied_read next slot = do
      debug_assert debug (not (next == usize_max))
      value ← required slot.value
      ok (value, record { value = none; next = next })

    pub occupied_drop : Bool → ℕ → Slot A → Outcome (A × Slot A)
    occupied_drop destructor next slot = do
      debug_assert debug (not (next == usize_max))
      value ← required slot.value
      ok (value, record { value = if destructor then none else some value; next = next })

    pub insert : A → Arena A → Outcome (ℕ × Arena A)
    unfolding vacant make_occupied
    insert value a =
        if ltb a.next (length a.slots)
        then (do
          slot ← or_panic (get_elem? a.slots a.next)
          next ← vacant slot
          ok (a.next, record { slots = set a.slots a.next (make_occupied value); next = next }))
        else (let slots = a.slots ++ (record { value = some value; next = 0 }) ∷ [] in
            ok (a.next, record { slots = slots; next = length slots }))

    pub remove : ℕ → Arena A → Outcome (A × Arena A)
    unfolding occupied_read
    remove idx a = do
      slot ← or_panic (get_elem? a.slots idx)
      (value, slot') ← occupied_read a.next slot
      ok (value, record { slots = set a.slots idx slot'; next = idx })

    pub drop : Bool → ℕ → Arena A → Outcome (A × Arena A)
    unfolding vacant occupied_drop occupied_read
    drop destructor idx a = do
      slot ← or_panic (get_elem? a.slots idx)
      next ← vacant slot
      (dropped, slot') ← occupied_drop destructor a.next slot
      (value, slot'') ← occupied_read next slot'
      ok (value, record { slots = set a.slots idx slot''; next = next })

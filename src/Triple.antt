-- ===== src/Triple.antt =====
-- src/triple.rs: the triple buffer, the index type and the operations of its two sides. The array
-- of three is a function of the index; an atomic `swap` of the flags is one read and write.
pub mod Flags
pub mod Handles
pub mod Mailbox
pub mod Refine
pub mod Recv
pub mod System
mod Tests
use amity.Prelude.{
  ℕ, Bool, not, Option, none, some, Outcome, ok, panic, undefined, ◌>>=◌, if◌then◌else◌, ◌==◌,
  bit_and, bit_or,
}

pub data Idx : Type 0 where
  zero one two : Idx

abbrev pub flags_init : ℕ
flags_init = 0b0000_0000

abbrev pub index_mask : ℕ
index_mask = 0b0000_0011

abbrev pub pending_bit : ℕ
pending_bit = 0b0000_0100

pub from_bits : ℕ → Outcome Idx
from_bits value =
    if value == 0
    then ok zero
    else if value == 1
    then ok one
    else if value == 2
    then ok two
    else panic

unfoldable pub from_bits_unchecked : ℕ → Outcome Idx
from_bits_unchecked value =
    if value == 0
    then ok zero
    else if value == 1
    then ok one
    else if value == 2
    then ok two
    else undefined

abbrev pub bits : Idx → ℕ
bits zero = 0
bits one = 1
bits two = 2

abbrev pub index : Idx → ℕ
index i = bits i

unfoldable pub other : Idx → Idx
other zero = one
other one = two
other two = zero

pub record TripleBuffer {ℓ} (A : Type ℓ) : Type ℓ where
  pub elements : Idx → A
  pub flags : ℕ

module _ {ℓ} {A : Type ℓ} where
  -- An array literal of three, and the write of one element.
  abbrev pub three : A → A → A → Idx → A
  three a b c zero = a
  three a b c one = b
  three a b c two = c

  abbrev pub put : (Idx → A) → Idx → A → Idx → A
  put elements i v j = if index i == index j then v else elements j

  unfoldable pub new : A → A → A → TripleBuffer A
  new a b c = record { elements = three a b c; flags = flags_init }

  -- `Default`, where `default` is the element type's.
  pub default_buffer : A → TripleBuffer A
  default_buffer default = record { elements = three default default default; flags = flags_init }

  unfoldable pub consumed : TripleBuffer A → Bool
  consumed t = bit_and t.flags pending_bit == 0

  unfoldable pub pending : TripleBuffer A → Outcome Idx
  unfolding from_bits_unchecked
  pending t = from_bits_unchecked (bit_and t.flags index_mask)

  unfoldable pub publish : Idx → TripleBuffer A → Outcome (Idx × Bool × TripleBuffer A)
  unfolding from_bits_unchecked
  publish producer t = do
    let flags = t.flags
    let swapped = record t { flags = bit_or (bits producer) pending_bit }
    new_producer ← from_bits_unchecked (bit_and flags index_mask)
    ok (new_producer, bit_and flags pending_bit == 0, swapped)

  unfoldable pub consume : Idx → TripleBuffer A → Outcome (Idx × Bool × TripleBuffer A)
  unfolding from_bits_unchecked
  consume consumer t = do
    let flags = t.flags
    let swapped = record t { flags = bits consumer }
    new_consumer ← from_bits_unchecked (bit_and flags index_mask)
    ok (new_consumer, not (bit_and flags pending_bit == 0), swapped)

  abbrev pub get_unchecked : TripleBuffer A → Idx → A
  get_unchecked t i = t.elements i

  -- A write through `get_unchecked_mut`.
  unfoldable pub set : Idx → A → TripleBuffer A → TripleBuffer A
  set i value t = record t { elements = put t.elements i value }

  pub send : Idx → A → TripleBuffer A → Outcome (Idx × Bool × TripleBuffer A)
  unfolding set publish
  send producer value t = publish producer (set producer value t)

  abbrev pub read : Idx → TripleBuffer A → A
  read consumer t = get_unchecked t consumer

  -- `core::mem::take` leaves the default in the element.
  pub recv : A → Idx → TripleBuffer A → Outcome (Idx × Option A × TripleBuffer A)
  unfolding consume set
  recv default consumer t = do
    (new_consumer, produced, after) ← consume consumer t
    if produced
        then ok (new_consumer, some (get_unchecked after consumer), set consumer default after)
        else ok (new_consumer, none, after)

  -- The last component is what `value` refers to afterwards.
  pub recv_into : Idx → A → TripleBuffer A → Outcome (Idx × Bool × TripleBuffer A × A)
  unfolding consume
  recv_into consumer value t = do
    (new_consumer, produced, after) ← consume consumer t
    ok (new_consumer, produced, after, if produced then get_unchecked after consumer else value)

-- An element that was never written is `none` in `uninit`, and `None` in `new_none`.
pub uninit {ℓ} : {A : Type ℓ} → TripleBuffer (Option A)
uninit = record { elements = three none none none; flags = flags_init }

pub new_none {ℓ} : {A : Type ℓ} → TripleBuffer (Option A)
new_none = record { elements = three none none none; flags = flags_init }

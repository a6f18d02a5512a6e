-- ===== src/RingBuffer.antt =====
-- src/ring_buffer.rs: the growable ring buffer, its operations, and `ring_index` and `new_cap`.
-- A slot of the array is a `MaybeUninit<T>`: `none` is memory that was never written. A read leaves
-- the bits in the slot, as `assume_init_read` does. Indices are 64-bit words.
pub mod Position
pub mod Represents
pub mod Window
pub mod Copy
pub mod Pop
pub mod Grow
pub mod Push
pub mod Slices
pub mod Drain
pub mod Iter
pub mod IterMut
mod Tests
use amity.Prelude.{
  ℕ, ◌+◌, ◌%◌, ◌≤◌, min, max, ◌≡◌, Bool, List, [], ◌∷◌, ◌++◌, Option, none, some, ltb, leb, ◌==◌,
  if◌then◌else◌, length, get_elem?, set, take, drop, replicate, Outcome, ok, panic, ◌>>=◌, ◌>>◌,
  requires, required, or_panic, word, usize_max, add_word, sub_word,
}

-- The element's size, and `Vec::with_capacity`: it panics (`none`), or gives a
-- capacity of at least what was asked for.
pub record Alloc : Type 0 where
  pub size_of : ℕ
  pub vec_capacity : ℕ → Option ℕ
  pub vec_capacity_lem : (n m : ℕ) → vec_capacity n ≡ some m → (n ≤ m) × (m ≤ usize_max)

pub record RingBuffer {ℓ} (A : Type ℓ) : Type ℓ where
  pub head : ℕ
  pub len : ℕ
  pub array : List (Option A)

unfoldable pub ring_index : ℕ → ℕ → ℕ → ℕ
ring_index head index cap =
    let tail = sub_word cap head in
    if ltb index tail then add_word head index else sub_word index tail

pub min_non_zero_cap : ℕ → ℕ
min_non_zero_cap size = if size == 1 then 8 else if leb size 1024 then 4 else 1

-- `checked_add`, with `capacity_overflow` for its `None`.
pub new_cap : ℕ → ℕ → Outcome ℕ
unfolding min_non_zero_cap
new_cap size cap =
    if ltb (cap + cap) word then ok (max (cap + cap) (min_non_zero_cap size)) else panic

module _ {ℓ} {A : Type ℓ} where
  abbrev pub read_slot : List (Option A) → ℕ → Outcome A
  read_slot array i = required (get_elem? array i) >>= required

  abbrev pub write_slot : List (Option A) → ℕ → A → Outcome (List (Option A))
  write_slot array i value = do requires (ltb i (length array)); ok (set array i (some value))

  -- The target of `copy_nonoverlapping` after a copy within bounds.
  pub copied : List (Option A) → ℕ → List (Option A) → ℕ → ℕ → List (Option A)
  copied src from dst to n = take to dst ++ (take n (drop from src) ++ drop (to + n) dst)

  pub copy_nonoverlapping :
      List (Option A) → ℕ → List (Option A) → ℕ → ℕ → Outcome (List (Option A))
  copy_nonoverlapping src from dst to n = do
    requires (leb (from + n) (length src))
    requires (leb (to + n) (length dst))
    ok (copied src from dst to n)

  pub slice : List (Option A) → ℕ → ℕ → Outcome (List (Option A))
  slice array start n = do requires (leb (start + n) (length array)); ok (take n (drop start array))

  -- The values of a slice, all of which must be initialised.
  pub values : List (Option A) → Outcome (List A)
  values [] = ok []
  values (slot ∷ slots) = required slot >>= λ x. values slots >>= λ xs. ok (x ∷ xs)

  -- The values that are dropped, in order.
  pub drop_two_slices : List (Option A) → List (Option A) → Outcome (List A)
  drop_two_slices front back = do f ← values front; b ← values back; ok (f ++ b)

  pub as_slice_pointers : RingBuffer A → Outcome (List (Option A) × List (Option A))
  unfolding slice
  as_slice_pointers r = do
    let front_len = min r.len (sub_word (length r.array) r.head)
    let back_len = sub_word r.len front_len
    front ← slice r.array r.head front_len
    back ← slice r.array 0 back_len
    ok (front, back)

  pub as_slices : RingBuffer A → Outcome (List A × List A)
  as_slices r = do (front, back) ← as_slice_pointers r; f ← values front; b ← values back; ok (f, b)

  -- The values that are dropped, beside the cleared buffer.
  pub clear : RingBuffer A → Outcome (List A × RingBuffer A)
  clear r = do
    (front, back) ← as_slice_pointers r
    dropped ← drop_two_slices front back
    ok (dropped, record r { head = 0; len = 0 })

  -- `Drop for RingBuffer`.
  pub drop_buffer : RingBuffer A → Outcome (List A)
  drop_buffer r = do (front, back) ← as_slice_pointers r; drop_two_slices front back

  pub pop : RingBuffer A → Outcome (Option A × RingBuffer A)
  pop r = if r.len == 0 then ok (none, r) else (do
    value ← read_slot r.array r.head
    ok (some value, record r { head = add_word r.head 1 % length r.array; len = sub_word r.len 1 }))

  abbrev pub is_empty : RingBuffer A → Bool
  is_empty r = r.len == 0

  abbrev pub capacity : RingBuffer A → ℕ
  capacity r = length r.array

module _ {ℓ} {A : Type ℓ} (alloc : Alloc) where
  -- `Vec::with_capacity`, `set_len` to its capacity, `into_boxed_slice`.
  pub uninit_array : ℕ → Outcome (List (Option A))
  uninit_array cap = or_panic (alloc.vec_capacity cap) >>= λ n. ok (replicate n none)

  pub with_capacity : ℕ → Outcome (RingBuffer A)
  with_capacity cap = do array ← uninit_array cap; ok (record { head = 0; len = 0; array = array })

  unfoldable pub new : Outcome (RingBuffer A)
  new = if alloc.size_of == 0 then with_capacity usize_max else with_capacity 0

  pub push_vacant : A → RingBuffer A → Outcome (RingBuffer A)
  push_vacant value r = do
    array ← write_slot r.array (ring_index r.head r.len (length r.array)) value
    ok (record r { len = add_word r.len 1; array = array })

  pub push_grow : A → RingBuffer A → Outcome (RingBuffer A)
  push_grow value r = do
    let cap = length r.array
    n ← new_cap alloc.size_of cap
    fresh ← uninit_array n
    one ← copy_nonoverlapping r.array r.head fresh 0 (sub_word cap r.head)
    two ← copy_nonoverlapping r.array 0 one (sub_word cap r.head) r.head
    array ← write_slot two cap value
    ok (record { head = 0; len = add_word cap 1; array = array })

  pub push : A → RingBuffer A → Outcome (RingBuffer A)
  push value r = if ltb r.len (length r.array) then push_vacant value r else push_grow value r

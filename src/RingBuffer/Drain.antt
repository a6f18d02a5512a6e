-- ===== src/RingBuffer/Drain.antt =====
-- The draining iterator of src/ring_buffer.rs, as a state on the buffer that it borrows.
pub mod Order
mod Tests
use amity.Prelude.{
  ℕ, ◌%◌, Option, none, some, List, [], Outcome, ok, ◌>>=◌, if◌then◌else◌, ◌==◌, leb, length, min,
  add_word, sub_word,
}
use amity.RingBuffer.{RingBuffer, read_slot, ring_index, clear, slice, drop_two_slices}

module _ {ℓ} {A : Type ℓ} where
  pub next : RingBuffer A → Outcome (Option A × RingBuffer A)
  next r = if r.len == 0 then ok (none, r) else (do
    let moved = record r { head = add_word r.head 1 % length r.array; len = sub_word r.len 1 }
    value ← read_slot r.array r.head
    ok (some value, moved))

  -- The head and the length move first; then the values that are skipped are dropped, and the next
  -- one is read. The result shows the dropped values too.
  pub skip : ℕ → RingBuffer A → Outcome (List A × Option A × RingBuffer A)
  skip n r = do
    let cap' = length r.array
    let moved = record r { head = ring_index r.head n cap'; len = sub_word r.len n }
    let front_n = min n (sub_word cap' r.head)
    let back_n = sub_word n front_n
    front ← slice r.array r.head front_n
    back ← slice r.array 0 back_n
    dropped ← drop_two_slices front back
    (value, rest) ← next moved
    ok (dropped, value, rest)

  pub nth : ℕ → RingBuffer A → Outcome (List A × Option A × RingBuffer A)
  nth n r =
      if n == 0
      then (do (value, rest) ← next r; ok ([], value, rest))
      else if leb r.len n
      then (do (dropped, rest) ← clear r; ok (dropped, none, rest))
      else skip n r

  unfoldable pub count : RingBuffer A → ℕ
  count r = r.len

  unfoldable pub size_hint : RingBuffer A → ℕ × Option ℕ
  size_hint r = (r.len, some r.len)

  -- `Drop for Drain`.
  pub drop_drain : RingBuffer A → Outcome (List A × RingBuffer A)
  drop_drain r = clear r

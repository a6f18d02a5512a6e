-- ===== src/FlipQueue/Holds.antt =====
-- The queue that a `FlipBuffer` of src/flip_queue.rs holds, and what `flush` makes of it.
use amity.Prelude.{
  ℕ, ◌+◌, ◌-◌, ◌%◌, ◌≡◌, ap, ◌∙◌, subst, arith, List, ◌++◌, some, length, get_elem?, drop, min,
  dec_lt, drop-min, if◌then◌else◌, leb, sub_word_lem,
}
use amity.RingBuffer.{RingBuffer}
use amity.RingBuffer.Position.{ring_index-eq-mod, position-shift, position-front}
use amity.RingBuffer.Represents.{Represents}
use amity.RingBuffer.Window.{advance-Represents, extend-Represents}
use amity.FlipQueue.{FlipBuffer, of_buffer, flush}

-- The ring buffer holds `xs`; behind it stand the values that were pushed through a shared borrow
-- and are not flushed yet.
pub record Holds {A : Type 0} (fb : FlipBuffer A) (xs staged : List A) : Type 0 where
  pub rep : Represents fb.buffer xs
  pub staged_len : length staged ≡ min fb.pushed (length fb.buffer.array - fb.buffer.len)
  pub cells :
      (i : ℕ) (y : A)
      → get_elem? staged i ≡ some y
      → get_elem? fb.buffer.array ((fb.buffer.head + (fb.buffer.len + i)) % length fb.buffer.array)
        ≡ some (some y)

-- The values that are in the queue: those of the ring buffer that were not popped through a shared
-- borrow, and those that were pushed through one.
abbrev pub view : {A : Type 0} → FlipBuffer A → List A → List A → List A
view fb xs staged = drop fb.popped xs ++ staged

clamp : (a b : ℕ) → (if leb a b then a else b) ≡ min b a
clamp a b = ground arith

module _ {A : Type 0} (fb : FlipBuffer A) (xs staged : List A) (holds : Holds fb xs staged) where
  open fb use {buffer}
  open holds use {rep, staged_len}

  abbrev pub out : ℕ
  out = min buffer.len fb.popped

  abbrev pub ready : RingBuffer A
  ready = record {
    head = (buffer.head + out) % length buffer.array;
    len = buffer.len - out + length staged;
    array = buffer.array;
  }

  pub ready-Represents : Represents ready (view fb xs staged)
  ready-Represents =
      subst (λ t. Represents ready (t ++ staged))
        (ap (λ k. drop (min k fb.popped) xs) rep.len_eq ∙ drop-min xs fb.popped)
        (extend-Represents
          (record {
            head = (buffer.head + out) % length buffer.array;
            len = buffer.len - out;
            array = buffer.array;
          })
          (drop out xs) (advance-Represents buffer xs rep out (omega (arith, rep.len_eq))) staged
          (omega (arith, staged_len, rep.len_in))
          λ i y e.
            ap (get_elem? buffer.array) (
              position-shift buffer.head (buffer.len - out + i) (length buffer.array) out
              ∙ ap (λ k. (buffer.head + k) % length buffer.array) (omega arith))
            ∙ holds.cells i y e)

  head_stays : out ≡ 0 → ready.head ≡ buffer.head
  head_stays e = elim (dec_lt buffer.head (length buffer.array)) [
    | yes p ↦
        ap (λ k. (buffer.head + k) % length buffer.array) e
        ∙ position-front buffer.head (length buffer.array) 0 (omega arith)
        ∙ omega arith
    | no p ↦
        let none_there : length buffer.array ≡ 0 = omega (arith, rep.head_in) in
        let at_zero : buffer.head + out ≡ 0 = omega (arith, rep.head_in) in
        rw (none_there, at_zero) (omega (arith, rep.head_in))
  ]

  -- `flush` settles the counts: the ring buffer then holds the whole queue.
  pub flush_lem : flush fb ≡ of_buffer ready
  unfolding flush
  flush_lem =
      rw
        (
          sub_word_lem (length buffer.array) buffer.len rep.len_in (omega (arith, rep.bounded)),
          clamp fb.popped buffer.len,
          clamp fb.pushed (length buffer.array - buffer.len),
        )
        (ground (
          arith,
          rep,
          staged_len,
          head_stays,
          ring_index-eq-mod buffer.head out (length buffer.array),
        ))

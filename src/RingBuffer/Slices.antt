-- ===== src/RingBuffer/Slices.antt =====
-- `as_slices`, `clear` and `Drop` of src/ring_buffer.rs against the queue that the buffer holds.
use amity.Prelude.{
  ℕ, suc, ◌+◌, ◌-◌, ◌≤◌, ◌<◌, ◌≡◌, List, [], ◌∷◌, Option, some, none, arith, length, get_elem?,
  take, drop, ◌∙◌, ap, sym, refl, ok, min, Returns, sub_word_lem, get_elem?-take, get_elem?-drop,
  length-take, length-drop, take-append-drop, take-min, drop-min, lt_of_get_elem?,
}
use amity.RingBuffer.{
  RingBuffer, slice, values, drop_two_slices, as_slice_pointers, as_slices, clear, drop_buffer,
}
use amity.RingBuffer.Position.{position-front, position-back}
use amity.RingBuffer.Represents.{Represents}

pub slice_lem :
    {A : Type 0} (array : List (Option A)) (start n : ℕ)
    → start + n ≤ length array
    → slice array start n ≡ ok (take n (drop start array))
unfolding slice
slice_lem array start n h = ground arith

-- Slots that hold the values of a list, place by place, read as that list.
values_lem :
    {A : Type 0} (slots : List (Option A)) (xs : List A)
    → length slots ≡ length xs
    → ((i : ℕ) (x : A) → get_elem? xs i ≡ some x → get_elem? slots i ≡ some (some x))
    → values slots ≡ ok xs
unfolding values
values_lem [] [] e h = refl
values_lem [] (x ∷ xs) e h = absurd (omega arith)
values_lem (s ∷ slots) [] e h = absurd (omega arith)
values_lem (none ∷ slots) (x ∷ xs) e h = absurd (ground (arith, h 0 x))
values_lem (some y ∷ slots) (x ∷ xs) e h =
    rw (values_lem slots xs (omega arith) (λ i z q. h (suc i) z q)) (ground (arith, h 0 x refl))

module _ {A : Type 0} (r : RingBuffer A) (xs : List A) (rep : Represents r xs) where
  open r use {head, len, array}

  abbrev pub front_len : ℕ
  front_len = min len (length array - head)

  abbrev pub front : List (Option A)
  front = take front_len (drop head array)

  abbrev pub back : List (Option A)
  back = take (len - front_len) (drop 0 array)

  as_slice_pointers_lem : as_slice_pointers r ≡ ok (front, back)
  unfolding as_slice_pointers
  as_slice_pointers_lem = rw (
    sub_word_lem (length array) head (omega (arith, rep.head_in)) (omega (arith, rep.bounded)),
    sub_word_lem len front_len (omega arith) (omega (arith, rep.len_in, rep.bounded)),
    slice_lem array head front_len (omega (arith, rep.head_in)),
    slice_lem array 0 (len - front_len) (omega (arith, rep.len_in)),
  )

  front_cells :
      (i : ℕ) (x : A) → get_elem? (take front_len xs) i ≡ some x → get_elem? front i ≡ some (some x)
  front_cells i x e =
      get_elem?-take front_len (drop head array) i below
      ∙ get_elem?-drop head array i (head + i) refl
      ∙ ap (get_elem? array)
          (sym (position-front head (length array) i (omega (arith, rep.head_in, below))))
      ∙ rep.cells i x (sym (get_elem?-take front_len xs i below) ∙ e)
    where
      below : i < front_len
      below = omega (arith, lt_of_get_elem? (take front_len xs) i x e, length-take front_len xs)

  back_cells :
      (i : ℕ) (x : A) → get_elem? (drop front_len xs) i ≡ some x → get_elem? back i ≡ some (some x)
  back_cells i x e =
      get_elem?-take (len - front_len) array i (omega (arith, below))
      ∙ ap (get_elem? array) (
          omega (
            arith,
            rep.head_in,
            below,
            position-back head (length array) (front_len + i) (omega (arith, rep.head_in, below))
                (omega (arith, below)) (omega (arith, rep.len_in, below)),
          ))
      ∙ rep.cells (front_len + i) x (sym (get_elem?-drop front_len xs i (front_len + i) refl) ∙ e)
    where
      below : front_len + i < len
      below =
          omega
            (arith, lt_of_get_elem? (drop front_len xs) i x e, length-drop front_len xs, rep.len_eq)

  values-front : values front ≡ ok (take front_len xs)
  values-front =
      values_lem front (take front_len xs)
        (omega (
          arith,
          length-take front_len xs,
          length-take front_len (drop head array),
          length-drop head array,
          rep.len_eq,
          rep.head_in,
        ))
        front_cells

  values-back : values back ≡ ok (drop front_len xs)
  values-back =
      values_lem back (drop front_len xs)
        (omega (
          arith,
          length-drop front_len xs,
          length-take (len - front_len) array,
          rep.len_eq,
          rep.len_in,
        ))
        back_cells

  -- From a buffer that holds a queue, `as_slices` reads initialised memory only, and its two
  -- slices are the queue, split where the array ends.
  pub as_slices_refines :
      as_slices r ≡ ok (take (length array - head) xs, drop (length array - head) xs)
  unfolding as_slices
  as_slices_refines = rw (
    as_slice_pointers_lem,
    values-front,
    values-back,
    rep.len_eq,
    take-min xs (length array - head),
    drop-min xs (length array - head),
  )

  -- What is dropped is the queue, in order.
  pub drop_two_slices_lem : drop_two_slices front back ≡ ok xs
  unfolding drop_two_slices
  drop_two_slices_lem = rw (values-front, values-back, take-append-drop front_len xs)

  -- From a buffer that holds a queue, `clear` drops every value of the queue once, oldest first,
  -- and leaves an empty buffer over the same array. It neither panics nor reads memory that is not
  -- initialised.
  pub clear_refines : Returns (clear r) (λ o. (o.0 ≡ xs) × Represents o.1 [] × (o.1.array ≡ array))
  unfolding clear
  clear_refines = rw (as_slice_pointers_lem, drop_two_slices_lem) (refl, emptied, refl)
    where
      emptied : Represents (record r { head = 0; len = 0 }) []
      emptied = record {
        bounded = rep.bounded;
        head_in = omega arith;
        len_eq = refl;
        len_in = omega arith;
        cells = λ i x e. absurd (ground arith);
      }

  -- Dropping a buffer that holds a queue drops every value of the queue once, oldest first.
  pub drop_buffer_refines : drop_buffer r ≡ ok xs
  unfolding drop_buffer
  drop_buffer_refines = rw (as_slice_pointers_lem, drop_two_slices_lem)

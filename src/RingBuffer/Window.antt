-- ===== src/RingBuffer/Window.antt =====
-- How the queue that a ring buffer holds changes when its head moves, its length grows, or a
-- vacant slot is written: the steps of `push`, `pop`, `nth` and `flush`.
use amity.Prelude.{
  ℕ, ◌+◌, ◌-◌, ◌%◌, ◌≤◌, ◌<◌, ◌≡◌, List, ◌++◌, some, arith, length, get_elem?, set, drop, ◌∙◌, ap,
  sym, dec_lt, length-append, length-drop, length-set, get_elem?-drop, get_elem?-append_left,
  get_elem?-append_right, get_elem?-set_ne, lt_of_get_elem?,
}
use amity.RingBuffer.{RingBuffer}
use amity.RingBuffer.Position.{position-shift, position-ne}
use amity.RingBuffer.Represents.{Represents}

module _ {A : Type 0} (r : RingBuffer A) (xs : List A) (rep : Represents r xs) where
  open r use {head, len, array}

  -- The oldest `n` values leave when the head moves over them.
  pub advance-Represents :
      (n : ℕ)
      → n ≤ length xs
      → Represents (record r { head = (head + n) % length array; len = len - n }) (drop n xs)
  advance-Represents n h = record {
    bounded = rep.bounded;
    head_in = omega (arith, rep.len_in, rep.len_eq, rep.head_in);
    len_eq = omega (arith, rep.len_eq, length-drop n xs);
    len_in = omega (arith, rep.len_in);
    cells = λ i x e.
        ap (get_elem? array) (position-shift head i (length array) n)
        ∙ rep.cells (n + i) x (sym (get_elem?-drop n xs i (n + i) (omega arith)) ∙ e);
  }

  -- Values that stand in the slots behind the window join it when the length grows over them.
  pub extend-Represents :
      (ys : List A)
      → len + length ys ≤ length array
      → ((i : ℕ) (y : A)
          → get_elem? ys i ≡ some y
          → get_elem? array ((head + (len + i)) % length array) ≡ some (some y))
      → Represents (record r { len = len + length ys }) (xs ++ ys)
  extend-Represents ys room staged = record {
    bounded = rep.bounded;
    head_in = rep.head_in;
    len_eq = omega (arith, rep.len_eq, length-append xs ys);
    len_in = room;
    cells = cells;
  }
    where
      cells :
          (i : ℕ) (x : A)
          → get_elem? (xs ++ ys) i ≡ some x
          → get_elem? array ((head + i) % length array) ≡ some (some x)
      cells i x e = elim (dec_lt i (length xs)) [
        | yes p ↦ rep.cells i x (sym (get_elem?-append_left xs ys i p) ∙ e)
        | no p ↦
            ap (λ k. get_elem? array ((head + k) % length array)) (omega (arith, rep.len_eq))
            ∙ staged (i - length xs) x
                (sym (get_elem?-append_right xs ys (i - length xs) i (omega arith)) ∙ e)
      ]

  -- A write behind the window leaves the window alone.
  pub written-Represents :
      (k : ℕ) (v : A)
      → len ≤ k
      → k < length array
      → Represents (record r { array = set array ((head + k) % length array) (some v) }) xs
  written-Represents k v h g =
      let same = length-set array ((head + k) % length array) (some v) in
      record {
        bounded = omega (arith, same, rep.bounded);
        head_in = omega (arith, same, rep.head_in);
        len_eq = rep.len_eq;
        len_in = omega (arith, same, rep.len_in);
        cells = λ i x e.
            ap (λ n. get_elem? (set array ((head + k) % length array) (some v)) ((head + i) % n))
              same
            ∙ get_elem?-set_ne array ((head + k) % length array) ((head + i) % length array)
                (some v)
                (λ clash.
                  position-ne {head = head} {cap = length array} {i = i} {j = k}
                    (omega (arith, rep.head_in))
                    (omega (arith, lt_of_get_elem? xs i x e, rep.len_eq)) g (sym clash))
            ∙ rep.cells i x e;
      }

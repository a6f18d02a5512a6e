-- ===== src/FlipQueue/Claims/Write.antt =====
-- The write of a shared push of src/flip_queue.rs, at the index that it has.
use amity.Prelude.{
  ℕ, ◌+◌, ◌-◌, ◌%◌, ◌<◌, ◌≡◌, ◌≢◌, refl, sym, ap, ◌∙◌, subst, arith, List, some, ◌⊎◌, inl, inr,
  length, get_elem?, set, ℕ_discrete, dec_lt, length-set, get_elem?-set_self, get_elem?-set_ne,
  lt_of_get_elem?, ok,
}
use amity.Threads.{at, at-all}
use amity.RingBuffer.Position.{position-ne, ring_index-eq-mod}
use amity.RingBuffer.Window.{written-Represents}
use amity.FlipQueue.{FlipBuffer}
use amity.FlipQueue.Claims.{Pc, outside, writing, write_claimed, push_index}
use amity.FlipQueue.Claims.Inv.{Inv, Fits, Distinct-none, write_claim, read_claim, staged_cell}
use amity.FlipQueue.Claims.Access.{more-Fits}

module _ {A : Type 0} {fb : FlipBuffer A} {pc : ℕ → Pc A} {xs staged : List A}
    (inv : Inv fb pc xs staged) where
  open fb use {buffer}
  open buffer use {head, len, array}
  open inv use {rep, staged_len, fits}

  module _ (i n : ℕ) (v : A) (here : pc i ≡ writing v n) where
    pub write_fits : (get_elem? staged n ≡ some v) × (n < fb.pushed)
    write_fits = subst (Fits fb xs staged) here (fits i)

    -- The index is among the vacant ones.
    pub write_room : n < length array - len
    write_room = omega (arith, staged_len, lt_of_get_elem? staged n v write_fits.0)

    abbrev pub slot : ℕ
    slot = (head + (len + n)) % length array

    abbrev pub written : FlipBuffer A
    written = record fb { buffer = record buffer { array = set array slot (some v) } }

    pub push_index-slot : push_index n fb ≡ slot
    push_index-slot =
        ground (arith, rep, write_room, ring_index-eq-mod head (len + n) (length array))

    pub written_lem : write_claimed n v fb ≡ ok written
    unfolding write_claimed
    written_lem = ground (arith, rep, write_room, push_index-slot)

    cell_apart :
        (j : ℕ) (y : A)
        → get_elem? staged j ≡ some y
        → j ≢ n
        → slot ≢ (head + (len + j)) % length array
    cell_apart j y e ne clash =
        let in_room : j < length array - len =
          omega (arith, staged_len, lt_of_get_elem? staged j y e) in
        elim (dec_lt j n) [
          | yes p ↦
              position-ne {head = head} {cap = length array} {i = len + j} {j = len + n}
                (omega (arith, rep.head_in, in_room)) (omega arith) (omega (arith, write_room))
                (sym clash)
          | no p ↦
              position-ne {head = head} {cap = length array} {i = len + n} {j = len + j}
                (omega (arith, rep.head_in, in_room)) (omega (arith, ne)) (omega (arith, in_room))
                clash
        ]

    same_len : length (set array slot (some v)) ≡ length array
    same_len = length-set array slot (some v)

    written_cell :
        (j : ℕ)
        → staged_cell written j
          ≡ get_elem? (set array slot (some v)) ((head + (len + j)) % length array)
    written_cell j = ap (λ m. get_elem? (set array slot (some v)) ((head + (len + j)) % m)) same_len

    claimed : {j : ℕ} → some j ≡ some n → j ≡ n
    claimed e = ground arith

    write_cells :
        (j : ℕ) (y : A)
        → get_elem? staged j ≡ some y
        → (staged_cell written j ≡ some (some y)) ⊎ ((c : ℕ) × (at pc i outside c ≡ writing y j))
    write_cells j y e = elim (ℕ_discrete j n) [
      | yes q ↦ inl (
          written_cell j
          ∙ ap (λ k. get_elem? (set array slot (some v)) ((head + (len + k)) % length array)) q
          ∙ get_elem?-set_self array slot (some v) (omega (arith, write_room))
          ∙ ap some (sym write_fits.0 ∙ ap (get_elem? staged) (sym q) ∙ e))
      | no ne ↦ elim (inv.cells j y e) [
        | inl found ↦ inl (
            written_cell j
            ∙ get_elem?-set_ne array slot ((head + (len + j)) % length array) (some v)
                (cell_apart j y e ne)
            ∙ found)
        | inr (c, w) ↦ inr (
          c,
          at-all (λ d q. pc d ≡ writing y j → q ≡ writing y j) pc i outside
              (λ w'. absurd (ne (claimed (ap write_claim (sym w' ∙ here))))) (λ d ne' w'. w') c w,
        )
      ]
    ]

    pub write_Inv : Inv written (at pc i outside) xs staged
    write_Inv = record {
      rep = written-Represents buffer xs rep (len + n) v (omega arith) (omega (arith, write_room));
      staged_len = omega (arith, same_len, staged_len);
      cells = write_cells;
      fits =
          at-all (λ c q. Fits written xs staged q) pc i outside tt
            λ c ne.
              more-Fits fb written xs staged staged (pc c) (λ m w e. e) (omega arith) (omega arith)
                (fits c);
      writers = Distinct-none write_claim pc i outside refl inv.writers;
      readers = Distinct-none read_claim pc i outside refl inv.readers;
    }

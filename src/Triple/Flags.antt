-- ===== src/Triple/Flags.antt =====
-- The flags of src/triple.rs: an index and a mark in one byte, and what the operations read of them.
use amity.Prelude.{ℕ, ◌+◌, Bool, true, false, not, ◌≡◌, refl, ok, ◌==◌, bit_and, bit_or}
use amity.Triple.{
  Idx, zero, one, two, TripleBuffer, from_bits_unchecked, bits, index_mask, pending_bit, publish,
  consume, consumed, pending,
}

-- The flags that say which index is pending, and whether it is fresh.
abbrev pub flags_of : Idx → Bool → ℕ
flags_of i true = bits i + 4
flags_of i false = bits i

decode_index : (i : Idx) (b : Bool) → from_bits_unchecked (bit_and (flags_of i b) index_mask) ≡ ok i
unfolding from_bits_unchecked
decode_index zero true = refl
decode_index zero false = refl
decode_index one true = refl
decode_index one false = refl
decode_index two true = refl
decode_index two false = refl

decode_mark : (i : Idx) (b : Bool) → (bit_and (flags_of i b) pending_bit == 0) ≡ not b
decode_mark zero true = refl
decode_mark zero false = refl
decode_mark one true = refl
decode_mark one false = refl
decode_mark two true = refl
decode_mark two false = refl

encode : (i : Idx) → bit_or (bits i) pending_bit ≡ flags_of i true
encode zero = refl
encode one = refl
encode two = refl

not-not : (b : Bool) → not (not b) ≡ b
not-not true = refl
not-not false = refl

module _ {A : Type 0} (t : TripleBuffer A) (middle : Idx) (fresh : Bool)
    (flags_eq : t.flags ≡ flags_of middle fresh) where
  pub publish-flags :
      (p : Idx) → publish p t ≡ ok (middle, not fresh, record t { flags = flags_of p true })
  unfolding publish
  publish-flags p = rw (flags_eq, decode_index middle fresh, decode_mark middle fresh, encode p)

  pub consume-flags :
      (c : Idx) → consume c t ≡ ok (middle, fresh, record t { flags = flags_of c false })
  unfolding consume
  consume-flags c =
      rw (flags_eq, decode_index middle fresh, decode_mark middle fresh, not-not fresh)

  -- `consumed` answers for the mark, and `pending` for the index.
  pub consumed-pending : (consumed t ≡ not fresh) × (pending t ≡ ok middle)
  unfolding consumed pending
  consumed-pending =
      (rw (flags_eq, decode_mark middle fresh), rw (flags_eq, decode_index middle fresh))

-- ===== src/RingBuffer/Drain/Tests.antt =====
-- The draining iterator of src/ring_buffer.rs on a small buffer.
use amity.Prelude.{◌≡◌, refl, [], ◌∷◌, some, ok, Returns}
use amity.Samples.{wrapped, wrapped-Represents}
use amity.RingBuffer.{ring_index, slice, drop_two_slices, values, clear, as_slice_pointers}
use amity.RingBuffer.Represents.{Represents}
use amity.RingBuffer.Drain
use amity.RingBuffer.Drain.Order.{nth_refines}

drain_runs :
    (Drain.count wrapped ≡ 2)
    × (Drain.size_hint wrapped ≡ (2, some 2))
    × (Drain.nth 1 wrapped ≡ ok (8 ∷ [], some 9, record wrapped { head = 1; len = 0 }))
    × (Drain.drop_drain wrapped ≡ ok (8 ∷ 9 ∷ [], record wrapped { head = 0; len = 0 }))
unfolding Drain.count Drain.size_hint Drain.nth Drain.skip Drain.next Drain.drop_drain ring_index
    slice drop_two_slices values clear as_slice_pointers
drain_runs = (refl, refl, refl, refl)

nth_refines_example :
    Returns (Drain.nth 1 wrapped) (λ o. (o.0 ≡ 8 ∷ []) × (o.1 ≡ some 9) × Represents o.2 [])
nth_refines_example = nth_refines 1 wrapped (8 ∷ 9 ∷ []) wrapped-Represents

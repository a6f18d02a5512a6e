-- ===== src/FlipQueue/Exclusive/Tests.antt =====
-- The exclusive methods of src/flip_queue.rs, with a reluctant allocator and on small queues.
use amity.Prelude.{ℕ, ◌≡◌, refl, [], ◌∷◌, some, ◌>>=◌, Returns, ◌≤◌, arith}
use amity.RingBuffer.Drain
use amity.RingBuffer.Represents.{Represents}
use amity.FlipQueue.{drain_some}
use amity.FlipQueue.Exclusive.{
  queue_new, queue_drain, drain_size_hint, drain_count, drain_len, push_all,
}
use amity.FlipQueue.Exclusive.Order.{Gives, pushed_drained}
use amity.Samples.{exact, wrapped}

iterator_runs :
    (drain_size_hint wrapped ≡ (2, some 2)) × (drain_count wrapped ≡ 2) × (drain_len wrapped ≡ 2)
unfolding drain_size_hint drain_count drain_len Drain.size_hint Drain.count
iterator_runs = (refl, refl, refl)

exact-Gives : Gives exact 14
exact-Gives = record { first = (0, refl); later = λ n le. (n, gives n le) }
  where
    gives : (n : ℕ) → n ≤ 14 → exact.vec_capacity n ≡ some n
    gives n le = ground arith

pushed_drained_example :
    Returns
      (queue_new {A = ℕ} exact >>= λ q.
        push_all exact (4 ∷ 5 ∷ 6 ∷ []) q >>= λ full. drain_some 2 (queue_drain full))
      (λ o. (o.0 ≡ 4 ∷ 5 ∷ []) × Represents o.1 (6 ∷ []))
pushed_drained_example =
    pushed_drained exact 3 (omega arith) exact-Gives (4 ∷ 5 ∷ 6 ∷ []) 2 (omega arith)

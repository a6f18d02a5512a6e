-- ===== src/BackOff.antt =====
-- src/backoff.rs: the waiting hint. A wait spins or yields, which changes no state here; the result
-- says which.
mod Tests
use amity.Prelude.{ℕ, zero, suc, ◌+◌, ◌≤◌, ◌≡◌, arith, Bool, ltb, leb, if◌then◌else◌, min, add_word}

pub record BackOff : Type 0 where
  pub spin_count : ℕ

abbrev pub spin_threshold : ℕ
spin_threshold = 7

abbrev pub yield_threshold : ℕ
yield_threshold = 15

pub data Hint : Type 0 where
  spin_loop yield_now : Hint

abbrev pub new : BackOff
new = record { spin_count = 0 }

abbrev pub reset : BackOff → BackOff
reset b = record b { spin_count = 0 }

-- With the "std" feature: without it the hint is always to spin.
pub wait : BackOff → Hint × BackOff
wait b =
    let hint = if ltb b.spin_count spin_threshold then spin_loop else yield_now in
    (
      hint,
      if ltb b.spin_count yield_threshold
          then record b { spin_count = add_word b.spin_count 1 }
          else b,
    )

pub should_block : BackOff → Bool
should_block b = leb yield_threshold b.spin_count

-- A number of waits in a row.
pub waits : ℕ → BackOff → BackOff
waits zero b = b
waits (suc n) b = waits n (wait b).1

waits-count :
    (n : ℕ) (b : BackOff)
    → b.spin_count ≤ yield_threshold
    → (waits n b).spin_count ≡ min (b.spin_count + n) yield_threshold
unfolding waits wait
waits-count zero b h = omega arith
waits-count (suc n) b h = ground (arith, waits-count n (wait b).1)

-- After `n` waits from a new state, the next wait spins if `n` is below 7 and yields from then on,
-- and the caller is advised to block exactly if `n` is at least 15. The count never exceeds 15.
pub waits_lem :
    (n : ℕ)
    → ((wait (waits n new)).0 ≡ (if ltb n 7 then spin_loop else yield_now))
      × (should_block (waits n new) ≡ leb 15 n)
      × ((waits n new).spin_count ≤ 15)
unfolding wait should_block
waits_lem n = ground (arith, waits-count n new)

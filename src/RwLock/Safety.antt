-- ===== src/RwLock/Safety.antt =====
-- Exclusion, bounds, panics and wake-ups of `RawRwLock` in src/rwlock.rs.
use amity.Prelude.{
  ℕ, ◌+◌, ◌≤◌, ◌<◌, ◌≡◌, ◌≢◌, refl, sym, ap, ◌∙◌, subst, arith, false, none, inl, inr, ℕ_discrete,
}
use amity.Threads.{at, at-all, sum, weight-le-sum, two_weights-le-sum}
use amity.CondVar.{
  Word, new_word, outside, deciding, sleeping, unreachable, update, exchange, System, Step, pick,
  Reach, later, Move,
}
use amity.CondVar.Chain.{On, On-none}
use amity.CondVar.Waiters.{cursor}
use amity.CondVar.Wakeups.{none_lost}
use amity.RwLock.{
  Op, idle, reader, writer, panicked, trying_shared, locking_shared, locking_exclusive,
  unlocking_shared, decide, back, max_shared, rw_lock,
}
use amity.RwLock.Count.{reads, writes, Fine, Reach-Inv}

Fine-decide : (o : Op) (cur : Word) → Fine (deciding o cur) → decide o cur.state ≢ unreachable
unfolding decide
Fine-decide trying_shared cur h e = ground arith
Fine-decide locking_shared cur h e = ground arith
Fine-decide locking_exclusive cur h e = ground arith
Fine-decide unlocking_shared cur h e = ground arith

last_share : (state : ℕ) → state ≡ 1 → decide unlocking_shared state ≡ update 0
unfolding decide
last_share state h = rw h refl

module _ {n : ℕ} {s : System rw_lock} (r : Reach rw_lock n s) where
  -- In every state that callers reach: while one holds the exclusive lock, no other one does and none
  -- holds the shared lock; and at most 254 callers hold the shared lock, or are about to give it back.
  pub rw_lock_exclusion :
      ((i j : ℕ)
        → i < n
        → j < n
        → s.pc i ≡ outside writer
        → (s.pc j ≡ outside writer → i ≡ j) × (s.pc j ≢ outside reader))
      × (sum reads n s.pc ≤ max_shared)
  rw_lock_exclusion = (exclusive, omega (arith, (Reach-Inv r).counts.1))
    where
      exclusive :
          (i j : ℕ)
          → i < n
          → j < n
          → s.pc i ≡ outside writer
          → (s.pc j ≡ outside writer → i ≡ j) × (s.pc j ≢ outside reader)
      exclusive i j lt lt' at_i = (
        λ at_j. elim (ℕ_discrete i j) [
          | yes e ↦ e
          | no ne ↦ absurd (
              omega (
                arith,
                two_weights-le-sum writes n s.pc i j lt lt' ne,
                ap writes at_i,
                ap writes at_j,
                (Reach-Inv r).counts.1,
              ))
        ],
        λ at_j. omega (
          arith,
          weight-le-sum writes n s.pc i lt,
          weight-le-sum reads n s.pc j lt',
          ap writes at_i,
          ap reads at_j,
          (Reach-Inv r).counts.1,
        ),
      )

  -- In every state that callers reach, no caller has panicked, and the closure that a caller is about to
  -- call does not panic: `unlock_shared` never finds the word unlocked.
  pub rw_lock_no_panic :
      (i : ℕ)
      → (s.pc i ≢ outside panicked)
        × ((o : Op) (cur : Word) → s.pc i ≡ deciding o cur → decide o cur.state ≢ unreachable)
  rw_lock_no_panic i = (
    λ e. elim (subst Fine e ((Reach-Inv r).fine i)) [ ],
    λ o cur e. Fine-decide o cur (subst Fine e ((Reach-Inv r).fine i)),
  )

  -- In a state that callers reach, where one is about to give back the last shared lock, another one
  -- sleeps, and no caller is waking a list: `unlock_shared` can succeed, and then the lock is free and
  -- held by nobody, while the sleeper is still asleep on the list and still no caller is waking it.
  pub rw_lock_lost_wakeup :
      (i j : ℕ) (o : Op) (cur : Word)
      → i < n
      → s.pc i ≡ deciding unlocking_shared cur
      → s.shared.word ≡ cur
      → cur.state ≡ 1
      → s.pc j ≡ sleeping o
      → (s.shared.nodes j).ready ≡ false
      → ((k : ℕ) → cursor (s.pc k) ≡ none)
      → (t : System rw_lock) × Step rw_lock n s t
        × (t.shared.word.state ≡ 0)
        × (sum reads n t.pc + sum writes n t.pc ≡ 0)
        × (t.pc j ≡ sleeping o)
        × ((t.shared.nodes j).ready ≡ false)
        × On t.shared.nodes t.shared.word.head j
        × ((k : ℕ) → cursor (t.pc k) ≡ none)
  unfolding decide back new_word
  rw_lock_lost_wakeup i j o cur lt at_i same last at_j unmarked quiet = (
    t,
    step,
    refl,
    omega (arith, (Reach-Inv (later r step)).counts),
    asleep_still,
    unmarked,
    listed_still,
    at-all (λ k q. cursor q ≡ none) s.pc i (outside idle) refl (λ k ne. quiet k),
  )
    where
      t : System rw_lock
      t = record {
        shared = record s.shared { word = record cur { state = 0 } };
        pc = at s.pc i (outside idle);
      }

      leaves :
          Move rw_lock i s.shared
            (deciding unlocking_shared cur)
            (record s.shared { word = record cur { state = 0 } })
            (outside idle)
      leaves = exchange (last_share cur.state last) same

      step : Step rw_lock n s t
      step = pick i lt (
          subst
            (λ q.
              Move rw_lock i s.shared q (record s.shared { word = record cur { state = 0 } })
                (outside idle))
            (sym at_i) leaves)

      asleep_still : t.pc j ≡ sleeping o
      asleep_still =
          at-all (λ k q. k ≡ j → q ≡ sleeping o) s.pc i (outside idle)
            (λ e.
              let both : deciding unlocking_shared cur ≡ sleeping o = sym at_i ∙ ap s.pc e ∙ at_j in
              absurd cc)
            (λ k ne e. ap s.pc e ∙ at_j) j refl

      listed_still : On t.shared.nodes t.shared.word.head j
      listed_still = elim (none_lost rw_lock r j o at_j unmarked) [
        | inl listed ↦ subst (λ w. On s.shared.nodes w.head j) same listed
        | inr (k, lt', on) ↦
            absurd (On-none s.shared.nodes j (subst (λ m. On s.shared.nodes m j) (quiet k) on))
      ]

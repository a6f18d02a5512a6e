-- ===== src/Mutex/Safety.antt =====
-- Mutual exclusion and the wake-ups of `RawMutex` in src/mutex.rs.
use amity.Prelude.{
  ℕ, ◌+◌, ◌≤◌, ◌<◌, ◌≡◌, ◌≢◌, refl, ap, arith, none, false, ◌⊎◌, inl, inr, ℕ_discrete, ◌↔◌, dec_lt,
  subst,
}
use amity.Threads.{sum, sum-at, sum-zero, sum-found, weight-le-sum, two_weights-le-sum}
use amity.CondVar.{
  Word, Shared, Pc, outside, sleeping, walking, update, wait, break, enlist, wake_node, new_word,
  Move, try_update, try_fail, enter, swap, load, exchange, exchange_fail, park, park_fail, back_off,
  stop, stay, rise, walk, walked, System, pick, Reach, begin, later,
}
use amity.CondVar.Chain.{On, On-none}
use amity.CondVar.Waiters.{cursor}
use amity.CondVar.Wakeups.{none_lost}
use amity.Mutex.{
  Place, Op, idle, holding, panicked, is_locked, locking, decide, back, locks, tries_lock, unlocks,
  mutex,
}

-- A waker never takes the lock: it would count for two.
abbrev pub holds : Pc Place Op → ℕ
holds (outside holding) = 1
holds (walking m holding) = 2
holds _ = 0

-- The word and the number of holders agree, and callers wait on a locked word only.
abbrev pub Agrees : Shared → ℕ → Type 0
Agrees sh k = (sh.word.state ≡ k) × (k ≤ 1) × (k ≡ 0 → sh.word.head ≡ none)

decide_update :
    (o : Op) (state new_state : ℕ)
    → decide o state ≡ update new_state
    → (state ≡ 0) × (new_state ≡ 1)
unfolding decide
decide_update locking state new_state h = ground arith

decide_wait : (o : Op) (state : ℕ) → decide o state ≡ wait → state ≢ 0
unfolding decide
decide_wait locking state h e = ground arith

decide_break : (o : Op) (state : ℕ) → decide o state ≢ break
unfolding decide
decide_break locking state h = ground arith

parks_Agrees :
    (i : ℕ) (sh : Shared) (cur : Word) (k k' : ℕ)
    → cur.state ≢ 0
    → sh.word ≡ cur
    → Agrees sh k
    → k' ≡ k
    → Agrees (enlist i cur sh) k'
unfolding enlist
parks_Agrees i sh cur k k' ne e h same = (
  omega (arith, ap (λ w. w.state) e),
  omega arith,
  λ z. absurd (ne (omega (arith, ap (λ w. w.state) e))),
)

Move-Agrees :
    {i : ℕ} {sh sh' : Shared} {p p' : Pc Place Op}
    → Move mutex i sh p sh' p'
    → (k k' : ℕ) → Agrees sh k
    → k' + holds p ≡ k + holds p'
    → holds p ≤ k
    → Agrees sh' k'
unfolding new_word wake_node back
Move-Agrees (try_update tries_lock e) k k' h g w =
    (omega (arith, ap (λ w. w.state) e), omega (arith, ap (λ w. w.state) e), λ z. refl)
Move-Agrees (try_update locks e) k k' h g w =
    (omega (arith, ap (λ w. w.state) e), omega (arith, ap (λ w. w.state) e), λ z. refl)
Move-Agrees (try_fail tries_lock e) k k' h g w = ground arith
Move-Agrees (try_fail locks e) k k' h g w = ground arith
Move-Agrees (enter may) k k' h g w = elim may [ ]
Move-Agrees (swap unlocks) k k' h g w = (omega arith, omega arith, λ z. refl)
Move-Agrees load k k' h g w = ground arith
Move-Agrees (exchange {o = locking} {cur = cur} {new_state = new} d e) k k' h g w =
    let (old, one) = decide_update locking cur.state new d in
    let before : k ≡ 0 = omega (arith, ap (λ w. w.state) e, old) in
    (rw one (omega arith), omega arith, λ z. absurd (omega (arith, z)))
Move-Agrees (exchange_fail d) k k' h g w = ground arith
Move-Agrees {i} {sh} (park {o = o} {cur = cur} d e) k k' h g w =
    parks_Agrees i sh cur k k' (decide_wait o cur.state d) e h (omega arith)
Move-Agrees (park_fail d) k k' h g w = ground arith
Move-Agrees (back_off d) k k' h g w = ground arith
Move-Agrees (stop {o = o} {cur = cur} d) k k' h g w = absurd (decide_break o cur.state d)
Move-Agrees (stay e) k k' h g w = ground arith
Move-Agrees (rise e) k k' h g w = ground arith
Move-Agrees (walk {p = idle}) k k' h g w = (omega arith, omega arith, λ z. h.2 (omega arith))
Move-Agrees (walk {p = holding}) k k' h g w = absurd (omega arith)
Move-Agrees (walk {p = panicked}) k k' h g w = (omega arith, omega arith, λ z. h.2 (omega arith))
Move-Agrees (walked {p = idle}) k k' h g w = (omega arith, omega arith, λ z. h.2 (omega arith))
Move-Agrees (walked {p = holding}) k k' h g w = absurd (omega arith)
Move-Agrees (walked {p = panicked}) k k' h g w = (omega arith, omega arith, λ z. h.2 (omega arith))

pub Reach-Agrees : {n : ℕ} {s : System mutex} → Reach mutex n s → Agrees s.shared (sum holds n s.pc)
Reach-Agrees {n} begin =
    let none_holds = sum-zero holds n (λ i. outside idle) (λ i. refl) in
    (omega (arith, none_holds), omega (arith, none_holds), λ z. refl)
Reach-Agrees {n} (later {s} r (pick i {p = p} lt m)) =
    Move-Agrees m (sum holds n s.pc) _ (Reach-Agrees r) (sum-at holds n s.pc i p lt)
      (weight-le-sum holds n s.pc i lt)

pub holds-place : (p : Pc Place Op) → 0 < holds p → holds p ≤ 1 → p ≡ outside holding
holds-place (outside holding) h l = refl
holds-place (walking m holding) h l = absurd (omega (arith, l))
holds-place _ h l = absurd (omega arith)

module _ {n : ℕ} {s : System mutex} (r : Reach mutex n s) where
  -- In every state that callers reach, no two of them hold the lock, and the flag in the word says
  -- whether one does.
  pub mutex_exclusion :
      ((i j : ℕ) → i < n → j < n → s.pc i ≡ outside holding → s.pc j ≡ outside holding → i ≡ j)
      × ((is_locked s.shared.word ≡ false) ↔ (sum holds n s.pc ≡ 0))
  unfolding is_locked
  mutex_exclusion =
      (alone, (λ h. ground (arith, Reach-Agrees r), λ h. ground (arith, Reach-Agrees r)))
    where
      alone :
          (i j : ℕ) → i < n → j < n → s.pc i ≡ outside holding → s.pc j ≡ outside holding → i ≡ j
      alone i j lt lt' at_i at_j = elim (ℕ_discrete i j) [
        | yes e ↦ e
        | no ne ↦ absurd (
            omega (
              arith,
              two_weights-le-sum holds n s.pc i j lt lt' ne,
              ap holds at_i,
              ap holds at_j,
              (Reach-Agrees r).1,
            ))
      ]

  -- In every state that callers reach, where a caller sleeps on a node that is not marked, either some
  -- caller holds the lock and the sleeper is on the list that its `unlock` takes, or some caller is
  -- waking a list that the sleeper is on.
  pub mutex_no_lost_wakeup :
      (j : ℕ) (o : Op)
      → s.pc j ≡ sleeping o
      → (s.shared.nodes j).ready ≡ false
      → (((i : ℕ) × (i < n) × (s.pc i ≡ outside holding)) × On s.shared.nodes s.shared.word.head j)
        ⊎ ((i : ℕ) × (i < n) × On s.shared.nodes (cursor (s.pc i)) j)
  mutex_no_lost_wakeup j o h e = elim (none_lost mutex r j o h e) [
    | inr waking ↦ inr waking
    | inl listed ↦ elim (dec_lt 0 (sum holds n s.pc)) [
      | yes p ↦
          let (i, lt, q) = sum-found holds n s.pc p in
          let least = weight-le-sum holds n s.pc i lt in
          inl ((i, lt, holds-place (s.pc i) q (omega (arith, least, (Reach-Agrees r).1))), listed)
      | no p ↦
          let empty : s.shared.word.head ≡ none = (Reach-Agrees r).2 (omega arith) in
          absurd (On-none s.shared.nodes j (subst (λ u. On s.shared.nodes u j) empty listed))
    ]
  ]

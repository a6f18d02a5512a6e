-- ===== src/Spin/Mutex/Progress.antt =====
-- A caller in the loop of `lock` of `RawSpin` in src/spin.rs can always still get the lock.
use amity.Prelude.{
  Bool, ℕ, ◌<◌, ◌≡◌, ◌≢◌, refl, sym, ap, ◌∙◌, subst, arith, true, false, Bool-cases, inl, inr,
}
use amity.Threads.{at, at_self, at_ne, sum-found}
use amity.Spin.Mutex.{
  Pc, idle, locking, waiting, holding, Move, taking, seeing, releasing, System, Reach, fetch_or,
  is_locked, unlock,
}
use amity.Spin.Mutex.Exclusion.{holds, as_number, Reach-holds}

-- Some steps of the caller `i`, and of no other one.
pub data Own (n i : ℕ) : System → System → Type 0 where
  stay_here : {s : System} → Own n i s s
  then_own :
      {s u : System} {lock' : Bool} {p : Pc}
      → i < n
      → Move s.lock (s.pc i) lock' p
      → Own n i (record { lock = lock'; pc = at s.pc i p }) u
      → Own n i s u

unlocked : (lock : Bool) → unlock lock ≡ false
unfolding unlock
unlocked lock = refl

-- A caller is in `lock`.
pub data Locks : Pc → Type 0 where
  tries : Locks locking
  waits : Locks waiting

not_holding : (p : Pc) → Locks p → p ≢ holding
not_holding p tries e = ground arith
not_holding p waits e = ground arith

held_by : (p : Pc) → 0 < holds p → p ≡ holding
held_by holding h = refl
held_by _ h = absurd (omega arith)

-- The state after the holder has unlocked.
abbrev pub released : System → ℕ → System
released s j = record { lock = unlock s.lock; pc = at s.pc j idle }

-- The lock was free, or another caller has unlocked it by one step.
pub data Freed (n : ℕ) (s : System) : System → Type 0 where
  was_free : s.lock ≡ false → Freed n s s
  gave_back :
      (j : ℕ)
      → j < n
      → s.pc j ≡ holding
      → Move s.lock (s.pc j) (unlock s.lock) idle
      → Freed n s (released s j)

module _ {n : ℕ} (i : ℕ) (lt : i < n) where
  abbrev Gets : System → Type 0
  Gets s = (t : System) × Own n i s t × (t.pc i ≡ holding)

  -- With the flag clear, the caller's own steps get the lock.
  takes : (s : System) → s.lock ≡ false → s.pc i ≡ locking → Gets s
  unfolding fetch_or
  takes s free e = (
    _,
    then_own lt (subst (λ p. Move s.lock p true holding) (sym e) (taking (rw free refl))) stay_here,
    at_self s.pc i holding,
  )

  own : (s : System) (p : Pc) → s.lock ≡ false → s.pc i ≡ p → Locks p → Gets s
  unfolding is_locked
  own s p free e tries = takes s free e
  own s p free e waits =
      let seen : Move s.lock (s.pc i) s.lock locking =
        subst (λ p. Move s.lock p s.lock locking) (sym e) (seeing free) in
      let (t, path, got) =
        takes (record s { pc = at s.pc i locking }) free (at_self s.pc i locking) in
      (t, then_own lt seen path, got)

  -- In every state that callers reach, a caller that is in `lock` can still get the lock: if another
  -- caller holds it, that one's `unlock` is one step, and from the state after it, or from where the
  -- lock was free, the caller's own steps lead to a state in which it holds it.
  pub spin_can_lock :
      {s : System}
      → Reach n s
      → Locks (s.pc i)
      → (u : System) × Freed n s u × ((t : System) × Own n i u t × (t.pc i ≡ holding))
  spin_can_lock {s} r w = elim (Bool-cases s.lock) [
    | inr free ↦ (s, was_free free, own s (s.pc i) free refl w)
    | inl taken ↦
        let (j, lt', h) =
          sum-found holds n s.pc (omega (arith, Reach-holds r, ap as_number taken)) in
        let at_j = held_by (s.pc j) h in
        let freed : Move s.lock (s.pc j) (unlock s.lock) idle =
          subst (λ p. Move s.lock p (unlock s.lock) idle) (sym at_j) releasing in
        (
          released s j,
          gave_back j lt' at_j freed,
          own (released s j) (s.pc i) (unlocked s.lock)
              (at_ne s.pc j idle i (λ c. not_holding (s.pc i) w (ap s.pc (sym c) ∙ at_j))) w,
        )
  ]

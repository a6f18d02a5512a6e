-- ===== src/Spin/Rw/Progress.antt =====
-- A queued exclusive caller of `RawRwSpin` in src/spin.rs can always still get the lock.
use amity.Prelude.{
  ℕ, zero, suc, ◌+◌, ◌≤◌, ◌<◌, ◌≡◌, ◌≢◌, ◌⊎◌, inl, inr, true, refl, sym, ap, ◌∙◌, subst, arith,
}
use amity.Threads.{at, at_self, at_ne, sum, sum-at, sum-found, weight-le-sum}
use amity.Spin.Rw.{
  Pc, giving_up, making_room, waiting, leaving, reader, attempting, failed, dequeueing, writer,
  idle, Move, give_up, make_room, wait_over, leave, release_shared, again, win, System, Step, pick,
  Reach, later, shared_lock_threshold, exclusive_locked, exclusive_pending, unlock_shared,
}
use amity.Spin.Rw.Count.{shares, shares-le, queued}
use amity.Spin.Rw.Inv.{Reach-Inv}

-- An exclusive caller that is in the queue and tries to get the lock.
pub data Queues : Pc → Type 0 where
  before_attempt : Queues (attempting true)
  after_failure : {count : ℕ} → Queues (failed true count)

attempting-Queues : {p : Pc} → p ≡ attempting true → Queues p
attempting-Queues e = subst Queues (sym e) before_attempt

-- Some steps of the callers, of which caller `i` is in the queue until the last state.
pub data Runs (n i : ℕ) : System → System → Type 0 where
  stay_here : {s : System} → Runs n i s s
  then_step : {s t u : System} → Queues (s.pc i) → Step n s t → Runs n i t u → Runs n i s u

-- A caller that counts itself in the low bits leaves them by its next step, or waits.
leaves :
    (lock : ℕ) (p : Pc)
    → 0 < shares p
    → ((lock' : ℕ) × (p' : Pc) × Move lock p lock' p' × (shares p' ≡ 0)) ⊎ (p ≡ waiting)
leaves lock giving_up h = inl (_, _, give_up, refl)
leaves lock making_room h = inl (_, _, make_room, refl)
leaves lock waiting h = inr refl
leaves lock leaving h = inl (_, _, leave, refl)
leaves lock reader h = inl (_, _, release_shared, refl)
leaves lock _ h = absurd (omega arith)

share-one : (p : Pc) → 0 < shares p → shares p ≡ 1
share-one p h = omega (arith, h, shares-le p)

module _ {n : ℕ} (few : n ≤ shared_lock_threshold) (i : ℕ) (lt : i < n) where
  abbrev Gets : System → Type 0
  Gets s = (t : System) × Runs n i s t × (t.pc i ≡ writer)

  -- While a caller is queued, none writes.
  open_word :
      {s : System}
      → Reach n s
      → s.pc i ≡ attempting true
      → (s.lock ≡ sum shares n s.pc + exclusive_pending) × (s.lock < exclusive_locked)
  open_word {s} r e =
      let fits = (Reach-Inv few r).fits in
      let one : 1 ≤ sum queued n s.pc =
        omega (arith, weight-le-sum queued n s.pc i lt, ap queued e) in
      (
        omega (arith, fits.word_eq, fits.one_writer, one),
        omega (arith, fits.word_eq, fits.one_writer, fits.few, one),
      )

  wins : {s : System} → Reach n s → s.pc i ≡ attempting true → sum shares n s.pc ≡ 0 → Gets s
  wins {s} r e z = (
    _,
    then_step (attempting-Queues e)
        (pick i lt (
          subst (λ p. Move s.lock p exclusive_locked writer) (sym e)
            (win (omega (arith, (open_word r e).0, z)))))
        stay_here,
    at_self s.pc i writer,
  )

  apart : (s : System) (j : ℕ) → s.pc i ≡ attempting true → 0 < shares (s.pc j) → j ≢ i
  apart s j e h c = omega (arith, h, ap (λ k. shares (s.pc k)) c, ap shares e)

  -- The callers that count themselves leave one after the other.
  drains :
      (k : ℕ) {s : System} → Reach n s → s.pc i ≡ attempting true → sum shares n s.pc ≡ k → Gets s
  drains zero r e z = wins r e z
  drains (suc k) {s} r e z =
      let (j, lt', h) = sum-found shares n s.pc (omega arith) in
      let ne = apart s j e h in
      elim (leaves s.lock (s.pc j) h) [
        | inl (lock', p', m, gone) ↦
            let step = pick j lt' m in
            let (t, path, got) =
              drains k (later r step) (at_ne s.pc j p' i ne ∙ e)
                (omega (arith, sum-at shares n s.pc j p' lt', share-one (s.pc j) h, gone, z)) in
            (t, then_step (attempting-Queues e) step path, got)
        | inr at_j ↦
            let over : Move s.lock (s.pc j) s.lock reader =
              subst (λ p. Move s.lock p s.lock reader) (sym at_j) (wait_over (open_word r e).1) in
            let first = pick j lt' over in
            let mid : System = record s { pc = at s.pc j reader } in
            let release : Move mid.lock (mid.pc j) (unlock_shared mid.lock) idle =
              subst (λ p. Move s.lock p (unlock_shared s.lock) idle) (sym (at_self s.pc j reader))
                release_shared in
            let still = at_ne s.pc j reader i ne ∙ e in
            let second : Step n mid
                (record { lock = unlock_shared mid.lock; pc = at mid.pc j idle }) =
              pick j lt' release in
            let (t, path, got) =
              drains k (later (later r first) second) (at_ne mid.pc j idle i ne ∙ still) (
                omega (
                  arith,
                  sum-at shares n s.pc j reader lt',
                  sum-at shares n mid.pc j idle lt',
                  share-one (s.pc j) h,
                  ap shares (at_self s.pc j reader),
                  z,
                )) in
            (
              t,
              then_step (attempting-Queues e) first
                  (then_step (attempting-Queues still) second path),
              got,
            )
      ]

  tries_again : {s : System} {count : ℕ} → Reach n s → s.pc i ≡ failed true count → Gets s
  tries_again {s} r e =
      let again_now : Move s.lock (s.pc i) s.lock (attempting true) =
        subst (λ p. Move s.lock p s.lock (attempting true)) (sym e) (again (inl refl)) in
      let step = pick i lt again_now in
      let (t, path, got) = drains _ (later r step) (at_self s.pc i (attempting true)) refl in
      (t, then_step (subst Queues (sym e) after_failure) step path, got)

  queued-Gets :
      {s : System} (p : Pc) → Reach n s → s.pc i ≡ p → 0 < queued p → p ≢ dequeueing → Gets s
  queued-Gets (attempting true) r e q stays = drains _ r e refl
  queued-Gets (failed true count) r e q stays = tries_again r e
  queued-Gets dequeueing r e q stays = absurd (stays refl)
  queued-Gets _ r e q stays = absurd (omega arith)

  -- In every state that at most `shared_lock_threshold` callers reach, an exclusive caller that is
  -- queued, before an attempt or after one that failed, and is not leaving the queue because its closure
  -- said so, can still get the lock without leaving: some steps of the callers lead from there to a state
  -- in which it holds it, and until then it is in the queue. The shared holders, and those that wait or give up, leave one after the other.
  pub queued_can_lock :
      {s : System}
      → Reach n s
      → 0 < queued (s.pc i)
      → s.pc i ≢ dequeueing
      → (t : System) × Runs n i s t × (t.pc i ≡ writer)
  queued_can_lock {s} r q stays = queued-Gets (s.pc i) r refl q stays

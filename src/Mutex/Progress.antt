-- ===== src/Mutex/Progress.antt =====
-- A caller that waits for the `RawMutex` of src/mutex.rs can always still get it.
use amity.Prelude.{
  ℕ, ◌<◌, ◌≡◌, ◌≢◌, refl, sym, ap, ◌∙◌, arith, Option, true, false, ◌==◌, Bool-cases, ◌⊎◌, inl, inr,
  dec_lt,
}
use amity.Threads.{at, at_self, at_ne, sum, sum-found, weight-le-sum}
use amity.CondVar.{
  Word, Pc, outside, loading, deciding, sleeping, walking, update, wait, new_word, swap, load,
  exchange, exchange_fail, park_fail, rise, System, Reach,
}
use amity.CondVar.Progress.{
  walk_completes, Runs, stay_here, Runs-append, Solo-Runs, Runs-Reach, moves, waker_walks,
}
use amity.Mutex.{Place, Op, idle, holding, locking, decide, back, unlocks, mutex}
use amity.Mutex.Safety.{holds, holds-place, Reach-Agrees, mutex_no_lost_wakeup}

-- A caller is in the loop of `lock`.
pub data Waits : Pc Place Op → Type 0 where
  loads : Waits (loading locking)
  decides : {cur : Word} → Waits (deciding locking cur)
  sleeps : Waits (sleeping locking)

decide_unlocked : decide locking 0 ≡ update 1
unfolding decide
decide_unlocked = refl

decide_cases : (state : ℕ) → (decide locking state ≡ update 1) ⊎ (decide locking state ≡ wait)
unfolding decide
decide_cases state = elim (Bool-cases (state == 0)) [ inl e ↦ inl (rw e) | inr e ↦ inr (rw e) ]

walking-sleeping : {m : Option ℕ} {q : Place} → walking m q ≢ sleeping locking
walking-sleeping {m} {q} e = ground arith

module _ (n i : ℕ) (lt : i < n) where
  abbrev pub Gets : System mutex → Type 0
  Gets s = (t : System mutex) × Runs mutex n s t × (t.pc i ≡ outside holding)

  after : {s u : System mutex} → Runs mutex n s u → Gets u → Gets s
  after r (t, q, e) = (t, Runs-append mutex n r q, e)

  decides_now :
      (s : System mutex)
      → s.shared.word.state ≡ 0
      → s.pc i ≡ deciding locking s.shared.word
      → Gets s
  unfolding back new_word
  decides_now s z e = (
    _,
    moves mutex n i lt e (exchange (ap (decide locking) z ∙ decide_unlocked) refl),
    at_self s.pc i (outside holding),
  )

  decides_later :
      (s : System mutex) (cur : Word)
      → s.shared.word.state ≡ 0
      → s.pc i ≡ deciding locking cur
      → Gets s
  decides_later s cur z e =
      let moved : System mutex = record s { pc = at s.pc i (deciding locking s.shared.word) } in
      let gets : Gets moved =
        decides_now moved z (at_self s.pc i (deciding locking s.shared.word)) in
      elim (decide_cases cur.state) [
        | inl d ↦ after (moves mutex n i lt e (exchange_fail d)) gets
        | inr d ↦ after (moves mutex n i lt e (park_fail d)) gets
      ]

  loads_first : (s : System mutex) → s.shared.word.state ≡ 0 → s.pc i ≡ loading locking → Gets s
  loads_first s z e = after (moves mutex n i lt e load) (
      decides_now (record s { pc = at s.pc i (deciding locking s.shared.word) }) z
        (at_self s.pc i (deciding locking s.shared.word)))

  rises_first :
      (s : System mutex)
      → s.shared.word.state ≡ 0
      → s.pc i ≡ sleeping locking
      → (s.shared.nodes i).ready ≡ true
      → Gets s
  rises_first s z e ready = after (moves mutex n i lt e (rise ready)) (
      loads_first (record s { pc = at s.pc i (loading locking) }) z
        (at_self s.pc i (loading locking)))

  -- With the lock free, a caller that sleeps is on a list that is being gone through.
  woken_first :
      (s : System mutex)
      → Reach mutex n s
      → s.shared.word.state ≡ 0
      → s.pc i ≡ sleeping locking
      → (s.shared.nodes i).ready ≡ false
      → Gets s
  woken_first s r z e unready = elim (mutex_no_lost_wakeup r i locking e unready) [
    | inl ((h, lt', at_h), _) ↦
        absurd
          (omega (arith, z, (Reach-Agrees r).0, weight-le-sum holds n s.pc h lt', ap holds at_h))
    | inr (w, lt', on) ↦
        let (m, q, at_w, on') = waker_walks mutex n (s.pc w) on in
        let (t, path, left, marked, word_eq, others) = walk_completes mutex n w q m r lt' at_w in
        after (Solo-Runs mutex n lt' stay_here path) (
          rises_first t (ap (λ u. u.state) word_eq ∙ z)
            (others i (λ c. walking-sleeping (sym at_w ∙ ap s.pc c ∙ e)) ∙ e) (marked i on'))
  ]

  free_Gets :
      (s : System mutex) (p : Pc Place Op)
      → Reach mutex n s
      → s.shared.word.state ≡ 0
      → s.pc i ≡ p
      → Waits p
      → Gets s
  free_Gets s p r z e loads = loads_first s z e
  free_Gets s p r z e (decides {cur}) = decides_later s cur z e
  free_Gets s p r z e sleeps = elim (Bool-cases (s.shared.nodes i).ready) [
    | inl ready ↦ rises_first s z e ready
    | inr unready ↦ woken_first s r z e unready
  ]

  not_holding : (p : Pc Place Op) → Waits p → p ≢ outside holding
  not_holding p loads e = ground arith
  not_holding p (decides {cur}) e = ground arith
  not_holding p sleeps e = ground arith

  -- In every state that callers reach, a caller that is in the loop of `lock` can still get the lock: some
  -- steps of the callers lead from there to a state in which it holds it. The callers never
  -- come to a state in which it is shut out.
  pub mutex_can_lock :
      (s : System mutex)
      → Reach mutex n s
      → Waits (s.pc i)
      → (t : System mutex) × Runs mutex n s t × (t.pc i ≡ outside holding)
  mutex_can_lock s r w = elim (dec_lt 0 (sum holds n s.pc)) [
    | no p ↦ free_Gets s (s.pc i) r (omega (arith, (Reach-Agrees r).0)) refl w
    | yes p ↦
        let (h, lt', q) = sum-found holds n s.pc p in
        let at_h : s.pc h ≡ outside holding =
          holds-place (s.pc h) q
            (omega (arith, weight-le-sum holds n s.pc h lt', (Reach-Agrees r).1)) in
        let freed = moves mutex n h lt' at_h (swap unlocks) in
        let same =
          at_ne s.pc h (walking s.shared.word.head idle) i
            (λ c. not_holding (s.pc i) w (ap s.pc (sym c) ∙ at_h)) in
        after freed (free_Gets _ (s.pc i) (Runs-Reach mutex n r freed) refl same w)
  ]

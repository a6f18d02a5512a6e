-- ===== src/RwLock/Count.antt =====
-- The word of `RawRwLock` in src/rwlock.rs counts the callers that hold it.
use amity.Prelude.{
  ℕ, ◌+◌, ◌*◌, ◌≤◌, ◌<◌, ◌≡◌, refl, sym, ap, arith, Never, Option, none, some, subst,
}
use amity.Threads.{at-all, sum, sum-at, sum-zero, weight-le-sum}
use amity.CondVar.{
  Word, Shared, Pc, outside, loading, deciding, sleeping, walking, update, updated, stopped,
  truncated, break, enlist, wake_node, new_word, Move, try_update, try_fail, enter, swap, load,
  exchange, exchange_fail, park, park_fail, back_off, stop, stay, rise, walk, walked, System, pick,
  Reach, begin, later,
}
use amity.RwLock.{
  Place, Op, idle, reader, writer, panicked, trying_shared, locking_shared, locking_exclusive,
  unlocking_shared, decide, back, tries_exclusive, tries_shared, locks_shared, locks_exclusive,
  unlocks_shared, unlocks_exclusive, rw_lock,
}

-- A caller in `unlock_shared` holds its share until the word has changed.
abbrev giving_back : Op → ℕ
giving_back unlocking_shared = 1
giving_back _ = 0

abbrev reading : Place → ℕ
reading reader = 1
reading _ = 0

abbrev writing : Place → ℕ
writing writer = 1
writing _ = 0

abbrev pub reads : Pc Place Op → ℕ
reads (outside p) = reading p
reads (loading o) = giving_back o
reads (deciding o cur) = giving_back o
reads (sleeping o) = giving_back o
reads (walking m p) = reading p

abbrev pub writes : Pc Place Op → ℕ
writes (outside p) = writing p
writes (walking m p) = writing p
writes _ = 0

-- The word, where `k` callers read and `w` write.
abbrev pub Counts : Shared → ℕ → ℕ → Type 0
Counts sh k w = (sh.word.state ≡ k + 255 * w) × (k + 254 * w ≤ 254)

-- What an update means for the counts.
exchange_Counts :
    (o : Op) (state new k w k' w' : ℕ)
    → decide o state ≡ update new
    → state ≡ k + 255 * w
    → k + 254 * w ≤ 254
    → k' + giving_back o ≡ k + reading (back o (updated state))
    → w' ≡ w + writing (back o (updated state))
    → (truncated new ≡ k' + 255 * w') × (k' + 254 * w' ≤ 254)
unfolding decide back
exchange_Counts trying_shared state new k w k' w' d h l g f = ground arith
exchange_Counts locking_shared state new k w k' w' d h l g f = ground arith
exchange_Counts locking_exclusive state new k w k' w' d h l g f = ground arith
exchange_Counts unlocking_shared state new k w k' w' d h l g f = ground arith

-- Only `try_lock_shared` breaks, and leaves with nothing.
stop_idle :
    (o : Op) (state : ℕ)
    → decide o state ≡ break
    → (giving_back o ≡ 0) × (back o (stopped state) ≡ idle)
unfolding decide back
stop_idle trying_shared state d = (refl, refl)
stop_idle locking_shared state d = absurd (ground arith)
stop_idle locking_exclusive state d = absurd (ground arith)
stop_idle unlocking_shared state d = absurd (ground arith)

-- What a caller may not be: at the point where the closure of `unlock_shared` panics, or where a wrapper
-- does.
abbrev pub Fine : Pc Place Op → Type 0
Fine (deciding unlocking_shared cur) = 0 < cur.state
Fine (outside panicked) = Never
Fine (walking m panicked) = Never
Fine _ = Unit

Move-Counts :
    {i : ℕ} {sh sh' : Shared} {p p' : Pc Place Op}
    → Move rw_lock i sh p sh' p'
    → (k w k' w' : ℕ) → Counts sh k w
    → k' + reads p ≡ k + reads p'
    → w' + writes p ≡ w + writes p'
    → Counts sh' k' w'
unfolding wake_node new_word enlist
Move-Counts (try_update tries_exclusive e) k w k' w' h g f = ground (arith, ap (λ u. u.state) e)
Move-Counts (try_update locks_shared e) k w k' w' h g f = ground (arith, ap (λ u. u.state) e)
Move-Counts (try_update locks_exclusive e) k w k' w' h g f = ground (arith, ap (λ u. u.state) e)
Move-Counts (try_fail tries_exclusive e) k w k' w' h g f = ground arith
Move-Counts (try_fail locks_shared e) k w k' w' h g f = ground arith
Move-Counts (try_fail locks_exclusive e) k w k' w' h g f = ground arith
Move-Counts (enter tries_shared) k w k' w' h g f = ground arith
Move-Counts (enter unlocks_shared) k w k' w' h g f = ground arith
Move-Counts (swap unlocks_exclusive) k w k' w' h g f = (omega arith, omega arith)
Move-Counts load k w k' w' h g f = ground arith
Move-Counts (exchange {o = o} {cur = cur} {new_state = new} d e) k w k' w' h g f =
    exchange_Counts o cur.state new k w k' w' d (omega (arith, ap (λ u. u.state) e)) (omega arith) g
      (omega arith)
Move-Counts (exchange_fail d) k w k' w' h g f = ground arith
Move-Counts (park d e) k w k' w' h g f = (omega (arith, ap (λ u. u.state) e), omega arith)
Move-Counts (park_fail d) k w k' w' h g f = ground arith
Move-Counts (back_off d) k w k' w' h g f = ground arith
Move-Counts (stop {o = o} {cur = cur} d) k w k' w' h g f =
    let (none_given, leaves) = stop_idle o cur.state d in
    (
      omega (arith, none_given, ap reading leaves, ap writing leaves),
      omega (arith, none_given, ap reading leaves, ap writing leaves),
    )
Move-Counts (stay e) k w k' w' h g f = ground arith
Move-Counts (rise e) k w k' w' h g f = ground arith
Move-Counts walk k w k' w' h g f = (omega arith, omega arith)
Move-Counts walked k w k' w' h g f = (omega arith, omega arith)

deciding-Fine :
    (o : Op) (cur : Word) (k w : ℕ)
    → cur.state ≡ k + 255 * w
    → giving_back o ≤ k
    → Fine (deciding o cur)
deciding-Fine trying_shared cur k w h l = tt
deciding-Fine locking_shared cur k w h l = tt
deciding-Fine locking_exclusive cur k w h l = tt
deciding-Fine unlocking_shared cur k w h l = omega (arith, h, l)

updated-Fine : (o : Op) (state : ℕ) → Fine (outside (back o (updated state)))
unfolding back
updated-Fine trying_shared state = tt
updated-Fine locking_shared state = tt
updated-Fine locking_exclusive state = tt
updated-Fine unlocking_shared state = tt

-- Going through a list, and leaving it, are as fine as the place behind.
place-Fine :
    (m m' : Option ℕ) (p : Place) → Fine (walking m p) → Fine (walking m' p) × Fine (outside p)
place-Fine m m' idle h = (tt, tt)
place-Fine m m' reader h = (tt, tt)
place-Fine m m' writer h = (tt, tt)
place-Fine m m' panicked h = elim h [ ]

Move-Fine :
    {i : ℕ} {sh sh' : Shared} {p p' : Pc Place Op}
    → Move rw_lock i sh p sh' p'
    → (k w : ℕ) → Counts sh k w
    → reads p ≤ k
    → Fine p
    → Fine p'
unfolding back
Move-Fine (try_update tries_exclusive e) k w h l fine = tt
Move-Fine (try_update locks_shared e) k w h l fine = tt
Move-Fine (try_update locks_exclusive e) k w h l fine = tt
Move-Fine (try_fail tries_exclusive e) k w h l fine = tt
Move-Fine (try_fail locks_shared e) k w h l fine = tt
Move-Fine (try_fail locks_exclusive e) k w h l fine = tt
Move-Fine (enter tries_shared) k w h l fine = tt
Move-Fine (enter unlocks_shared) k w h l fine = tt
Move-Fine (swap unlocks_exclusive) k w h l fine = tt
Move-Fine (load {o = o}) k w h l fine = deciding-Fine o _ k w h.0 l
Move-Fine (exchange {o = o} {cur = cur} d e) k w h l fine = updated-Fine o cur.state
Move-Fine (exchange_fail {o = o} d) k w h l fine = deciding-Fine o _ k w h.0 l
Move-Fine (park d e) k w h l fine = tt
Move-Fine (park_fail {o = o} d) k w h l fine = deciding-Fine o _ k w h.0 l
Move-Fine (back_off d) k w h l fine = tt
Move-Fine (stop {o = o} {cur = cur} d) k w h l fine =
    subst (λ q. Fine (outside q)) (sym (stop_idle o cur.state d).1) tt
Move-Fine (stay e) k w h l fine = tt
Move-Fine (rise e) k w h l fine = tt
Move-Fine {sh = sh} (walk {j = j} {p = p}) k w h l fine =
    (place-Fine (some j) (wake_node j sh).0 p fine).0
Move-Fine (walked {p = p}) k w h l fine = (place-Fine none none p fine).1

-- The word counts the callers, and every caller is fine.
pub record Inv (n : ℕ) (s : System rw_lock) : Type 0 where
  pub counts : Counts s.shared (sum reads n s.pc) (sum writes n s.pc)
  pub fine : (i : ℕ) → Fine (s.pc i)

pub Reach-Inv : {n : ℕ} {s : System rw_lock} → Reach rw_lock n s → Inv n s
Reach-Inv {n} begin =
    let none_reads = sum-zero reads n (λ i. outside idle) (λ i. refl) in
    let none_writes = sum-zero writes n (λ i. outside idle) (λ i. refl) in
    record {
      counts = (omega (arith, none_reads, none_writes), omega (arith, none_reads, none_writes));
      fine = λ i. tt;
    }
Reach-Inv {n} (later {s} r (pick i {p = p} lt m)) =
    let inv = Reach-Inv r in
    record {
      counts =
          Move-Counts m (sum reads n s.pc) (sum writes n s.pc) _ _ inv.counts
            (sum-at reads n s.pc i p lt) (sum-at writes n s.pc i p lt);
      fine =
          at-all (λ k q. Fine q) s.pc i p
            (Move-Fine m (sum reads n s.pc) (sum writes n s.pc) inv.counts
              (weight-le-sum reads n s.pc i lt) (inv.fine i))
            λ k ne. inv.fine k;
    }

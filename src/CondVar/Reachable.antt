-- ===== src/CondVar/Reachable.antt =====
-- Every state that the callers of src/condvar.rs reach has its nodes in order.
use amity.Prelude.{count, ℕ, ◌<◌, ◌≡◌, refl, sym, ap, subst, arith, []}
use amity.Threads.{at, sum-zero}
use amity.CondVar.{
  Word, Shared, Wake, wake_none, wake_one, wake_all, null_state, new_word, Pc, outside, deciding,
  sleeping, walking, goto, Client, after_update, Move, try_update, try_fail, enter, swap, load,
  exchange, exchange_fail, park, park_fail, back_off, stop, stay, rise, walk, walked, System, pick,
  Reach, begin, later,
}
use amity.CondVar.Waiters.{
  Inv, cursor, asleep, asleep-ready, cursor-goto, asleep-goto, still_Inv, word_Inv, take_Inv,
}
use amity.CondVar.Listed.{park_Inv, walk_Inv}

module _ (c : Client) where
  open c use {Place, Op, wake, back}

  module _ {n : ℕ} {sh : Shared} {pc : ℕ → Pc Place Op} (inv : Inv n sh pc) (i : ℕ) (lt : i < n)
      (o : Op) (cur : Word) (same : sh.word ≡ cur) (h : pc i ≡ deciding o cur) where
    wake_Inv :
        (new_state : ℕ) (p : Place)
        → Inv n (record sh { word = null_state new_state }) (at pc i (walking cur.head p))
    wake_Inv new_state p =
        subst (λ u. Inv n (record sh { word = null_state new_state }) (at pc i (walking u.head p)))
          same (take_Inv inv i lt _ p (ap cursor h) (ap (λ q. asleep q (sh.nodes i)) h))

    exchange_Inv :
        (new_state : ℕ) (w : Wake) (p : Place)
        → Inv n (record sh { word = new_word w cur new_state }) (at pc i (after_update c w cur p))
    unfolding new_word
    exchange_Inv new_state wake_none p =
        still_Inv (word_Inv inv _ (sym (ap (λ u. u.head) same))) i lt _ (outside p) h refl refl
    exchange_Inv new_state wake_one p = wake_Inv new_state p
    exchange_Inv new_state wake_all p = wake_Inv new_state p

  Move-Inv :
      (i : ℕ) {n : ℕ} {sh sh' : Shared} {pc : ℕ → Pc Place Op} {p p' : Pc Place Op}
      (inv : Inv n sh pc)
      → i < n
      → pc i ≡ p
      → Move c i sh p sh' p'
      → Inv n sh' (at pc i p')
  Move-Inv i {sh = sh} inv lt h (try_update {won = x} may e) =
      still_Inv (word_Inv inv _ (sym (ap (λ u. u.head) e))) i lt _ (goto x) h (cursor-goto x)
        (asleep-goto x (sh.nodes i))
  Move-Inv i {sh = sh} inv lt h (try_fail {lost = x} may e) =
      still_Inv inv i lt _ (goto x) h (cursor-goto x) (asleep-goto x (sh.nodes i))
  Move-Inv i {sh = sh} inv lt h (enter may) = still_Inv inv i lt _ _ h refl refl
  Move-Inv i {sh = sh} inv lt h (swap may) =
      take_Inv inv i lt _ _ (ap cursor h) (ap (λ q. asleep q (sh.nodes i)) h)
  Move-Inv i {sh = sh} inv lt h load = still_Inv inv i lt _ _ h refl refl
  Move-Inv i inv lt h (exchange {o = o} {cur = cur} {new_state = new} d same) =
      exchange_Inv inv i lt o cur same h new (wake o) _
  Move-Inv i {sh = sh} inv lt h (exchange_fail d) = still_Inv inv i lt _ _ h refl refl
  Move-Inv i {sh = sh} inv lt h (park {o = o} {cur = cur} d same) =
      park_Inv inv i lt o cur same (ap cursor h) (ap (λ q. asleep q (sh.nodes i)) h)
  Move-Inv i {sh = sh} inv lt h (park_fail d) = still_Inv inv i lt _ _ h refl refl
  Move-Inv i {sh = sh} inv lt h (back_off d) = still_Inv inv i lt _ _ h refl refl
  Move-Inv i {sh = sh} inv lt h (stop d) = still_Inv inv i lt _ _ h refl refl
  Move-Inv i {sh = sh} inv lt h (stay e) = still_Inv inv i lt _ _ h refl refl
  Move-Inv i {sh = sh} inv lt h (rise {o = o} e) =
      still_Inv inv i lt _ _ h refl (sym (asleep-ready {P = Place} (sleeping o) (sh.nodes i) e))
  Move-Inv i inv lt h (walk {j = j} {p = p}) = walk_Inv inv i lt j p h
  Move-Inv i {sh = sh} inv lt h walked = still_Inv inv i lt _ _ h refl refl

  pub Reach-Inv : {n : ℕ} {s : System c} → Reach c n s → Inv n s.shared s.pc
  Reach-Inv {n} begin = record {
    listed = [];
    walks = λ i. [];
    chain = refl;
    walk_chain = λ i lt. refl;
    count_eq = λ j. omega (arith, sum-zero (count j) n (λ i. []) (λ i. refl));
  }
  Reach-Inv (later r (pick i lt m)) = Move-Inv i (Reach-Inv r) lt refl m

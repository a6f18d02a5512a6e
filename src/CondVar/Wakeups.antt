-- ===== src/CondVar/Wakeups.antt =====
-- What src/condvar.rs promises to the callers that wait, whoever uses it.
use amity.Prelude.{
  count, ℕ, ◌+◌, ◌<◌, ◌≡◌, refl, sym, ap, ◌∙◌, arith, some, Bool, false, ◌⊎◌, inl, inr, dec_lt,
  if◌then◌else◌,
}
use amity.Threads.{sum, sum-found}
use amity.CondVar.{Node, Pc, sleeping, walking, Client, System, Reach}
use amity.CondVar.Chain.{On, Chain-On}
use amity.CondVar.Listed.{first-asleep}
use amity.CondVar.Reachable.{Reach-Inv}
use amity.CondVar.Waiters.{cursor, asleep}

awake_false : (b : Bool) → ◌≡◌ {A = ℕ} (if b then 0 else 1) 1 → b ≡ false
awake_false b h = ground arith

module _ (c : Client) {n : ℕ} {s : System c} (r : Reach c n s) where
  open c use {Place, Op}
  open s use {shared, pc}

  sleeping_one : (p : Pc Place Op) (node : Node) → asleep p node ≡ 1 → (o : Op) × (p ≡ sleeping o)
  sleeping_one (sleeping o) node h = (o, refl)
  sleeping_one _ node h = absurd (omega (arith, h))

  -- In every state that callers reach, the node that a waker is about to read and to mark belongs to a
  -- caller that is still asleep on it: the frame that it stands in is alive.
  pub walk_safe :
      (i j : ℕ) (p : Place)
      → i < n
      → pc i ≡ walking (some j) p
      → ((o : Op) × (pc j ≡ sleeping o)) × ((shared.nodes j).ready ≡ false)
  walk_safe i j p lt h =
      let one : asleep (pc j) (shared.nodes j) ≡ 1 = first-asleep (Reach-Inv c r) i lt j p h in
      let (o, e) = sleeping_one (pc j) (shared.nodes j) one in
      let unmarked : (if (shared.nodes j).ready then 0 else 1) ≡ 1 =
        sym (ap (λ q. asleep q (shared.nodes j)) e) ∙ one in
      ((o, e), awake_false (shared.nodes j).ready unmarked)

  -- In every state that callers reach, a caller that sleeps on a node that is not marked is reached from
  -- the word, or from the node that some waker comes to next: no waiting caller is lost.
  pub none_lost :
      (j : ℕ) (o : Op)
      → pc j ≡ sleeping o
      → (shared.nodes j).ready ≡ false
      → On shared.nodes shared.word.head j ⊎ ((i : ℕ) × (i < n) × On shared.nodes (cursor (pc i)) j)
  none_lost j o h e =
      let inv = Reach-Inv c r in
      let one : count j inv.listed + sum (count j) n inv.walks ≡ 1 =
        inv.count_eq j ∙ ap (λ q. asleep q (shared.nodes j)) h ∙ ap (λ b. if b then 0 else 1) e in
      elim (dec_lt 0 (count j inv.listed)) [
        | yes p ↦ inl (Chain-On shared.nodes shared.word.head inv.listed j inv.chain p)
        | no p ↦
            let (i, lt, q) = sum-found (count j) n inv.walks (omega (arith, one)) in
            inr
              (i, lt, Chain-On shared.nodes (cursor (pc i)) (inv.walks i) j (inv.walk_chain i lt) q)
      ]

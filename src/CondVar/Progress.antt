-- ===== src/CondVar/Progress.antt =====
-- A caller of src/condvar.rs that wakes a list comes to its end, whatever the others do or do not do.
use amity.Prelude.{
  count, ℕ, ◌≤◌, ◌<◌, ◌≡◌, ◌≢◌, refl, sym, ap, ◌∙◌, subst, arith, List, [], ◌∷◌, Option, none, some,
  true, dec_lt, ne→==,
}
use amity.Threads.{at, at_ne, at_self, weight-le-sum}
use amity.CondVar.{
  Node, Shared, Pc, outside, walking, wake_node, Client, Move, walk, walked, System, Step, pick,
  Reach, later,
}
use amity.CondVar.Chain.{On, On-none, On-count, Chain, Chain-at}
use amity.CondVar.Reachable.{Reach-Inv}
use amity.CondVar.Waiters.{cursor, asleep-le}

module _ (c : Client) (n : ℕ) where
  open c use {Place, Op}

  -- Some steps of one caller.
  pub data Solo (i : ℕ) : System c → System c → Type 0 where
    done : {s : System c} → Solo i s s
    step :
        {s : System c} {sh : Shared} {p : Pc Place Op} {t : System c}
        → Move c i s.shared (s.pc i) sh p
        → Solo i (record { shared = sh; pc = at s.pc i p }) t
        → Solo i s t

  -- What the walk through a list leaves behind.
  record Woken (i : ℕ) (p : Place) (list : List ℕ) (s t : System c) : Type 0 where
    path : Solo i s t
    left : t.pc i ≡ outside p
    marked : (j : ℕ) → 0 < count j list → (t.shared.nodes j).ready ≡ true
    kept : (j : ℕ) → count j list ≡ 0 → t.shared.nodes j ≡ s.shared.nodes j
    word_eq : t.shared.word ≡ s.shared.word
    others : (j : ℕ) → i ≢ j → t.pc j ≡ s.pc j

  abbrev mark : Node → Node
  mark node = record { next = node.next; ready = true }

  abbrev walked_on : ℕ → Place → ℕ → System c → System c
  walked_on i p j s = record {
    shared = record s.shared { nodes = at s.shared.nodes j (mark (s.shared.nodes j)) };
    pc = at s.pc i (walking (s.shared.nodes j).next p);
  }

  walk_all :
      (i : ℕ) (p : Place) (list : List ℕ) (head : Option ℕ) (s : System c)
      → s.pc i ≡ walking head p
      → Chain s.shared.nodes head list
      → ((j : ℕ) → count j list ≤ 1)
      → (t : System c) × Woken i p list s t
  unfolding wake_node
  walk_all i p [] head s at_i chain once = (
    record { shared = s.shared; pc = at s.pc i (outside p) },
    record {
      path = step (subst (λ q. Move c i s.shared q s.shared (outside p)) (sym here) walked) done;
      left = at_self s.pc i (outside p);
      marked = λ j more. absurd (omega arith);
      kept = λ j e. refl;
      word_eq = refl;
      others = λ j ne. at_ne s.pc i (outside p) j ne;
    },
  )
    where
      here : s.pc i ≡ walking none p
      here = at_i ∙ ap (λ m. walking m p) chain
  walk_all i p (j ∷ rest) head s at_i chain once =
      let (t, w) =
        walk_all i p rest (s.shared.nodes j).next (walked_on i p j s) (at_self s.pc i _)
          (Chain-at s.shared.nodes j (mark (s.shared.nodes j)) (s.shared.nodes j).next rest
            (own (once j)) chain.1)
          (λ k. omega (arith, once k)) in
      (
        t,
        record {
          path = step first w.path;
          left = w.left;
          marked = λ k more. elim (dec_lt 0 (count k rest)) [
            | yes q ↦ w.marked k q
            | no q ↦ ap (λ m. m.ready) (w.kept k (omega arith)) ∙ was_marked k (ground arith)
          ];
          kept = λ k e. w.kept k (omega arith) ∙ untouched k (ground arith);
          word_eq = w.word_eq;
          others = λ k ne. w.others k ne ∙ at_ne s.pc i (walking (s.shared.nodes j).next p) k ne;
        },
      )
    where
      own : count j (j ∷ rest) ≤ 1 → count j rest ≡ 0
      own h = ground arith

      was_marked : (k : ℕ) → j ≡ k → ((walked_on i p j s).shared.nodes k).ready ≡ true
      was_marked k e =
          subst (λ m. ((walked_on i p j s).shared.nodes m).ready ≡ true) e
            (ap (λ m. m.ready) (at_self s.shared.nodes j (mark (s.shared.nodes j))))

      untouched : (k : ℕ) → j ≢ k → (walked_on i p j s).shared.nodes k ≡ s.shared.nodes k
      untouched k ne = ground (arith, ne→== j k ne)

      walks :
          Move c i s.shared
            (walking (some j) p)
            (walked_on i p j s).shared
            (walking (s.shared.nodes j).next p)
      walks = walk

      first :
          Move c i s.shared (s.pc i) (walked_on i p j s).shared (walking (s.shared.nodes j).next p)
      first =
          subst
            (λ q.
              Move c i s.shared q (walked_on i p j s).shared (walking (s.shared.nodes j).next p))
            (sym (at_i ∙ ap (λ m. walking m p) chain.0)) walks

  -- From every state that callers reach, a waker that is about to go through a list comes to its end by
  -- steps of its own alone, whatever the others stand at: it leaves the operation, every node that could
  -- be reached from its pointer is marked, and the word and the other callers stay as they were.
  pub walk_completes :
      {s : System c} (i : ℕ) (p : Place) (head : Option ℕ)
      → Reach c n s
      → i < n
      → s.pc i ≡ walking head p
      → (t : System c) × Solo i s t
        × (t.pc i ≡ outside p)
        × ((j : ℕ) → On s.shared.nodes head j → (t.shared.nodes j).ready ≡ true)
        × (t.shared.word ≡ s.shared.word)
        × ((j : ℕ) → i ≢ j → t.pc j ≡ s.pc j)
  walk_completes {s} i p head r lt at_i =
      let inv = Reach-Inv c r in
      let chain : Chain s.shared.nodes head (inv.walks i) =
        subst (λ q. Chain s.shared.nodes (cursor q) (inv.walks i)) at_i (inv.walk_chain i lt) in
      let (t, w) = walk_all i p (inv.walks i) head s at_i chain (λ j. omega (
        arith,
        inv.count_eq j,
        weight-le-sum (count j) n inv.walks i lt,
        asleep-le (s.pc j) (s.shared.nodes j),
      )) in
      (
        t,
        w.path,
        w.left,
        λ j on. w.marked j (On-count s.shared.nodes head (inv.walks i) j chain on),
        w.word_eq,
        w.others,
      )

  -- Some steps of all the callers.
  pub data Runs (s : System c) : System c → Type 0 where
    stay_here : Runs s s
    then_step : {t u : System c} → Runs s t → Step c n t u → Runs s u

  pub Runs-append : {s t u : System c} → Runs s t → Runs t u → Runs s u
  Runs-append r stay_here = r
  Runs-append r (then_step q st) = then_step (Runs-append r q) st

  pub Solo-Runs : {i : ℕ} {s t u : System c} → i < n → Runs s t → Solo i t u → Runs s u
  Solo-Runs lt r done = r
  Solo-Runs {i} lt r (step m rest) = Solo-Runs lt (then_step r (pick i lt m)) rest

  pub Runs-Reach : {s t : System c} → Reach c n s → Runs s t → Reach c n t
  Runs-Reach r stay_here = r
  Runs-Reach r (then_step q st) = later (Runs-Reach r q) st

  -- A step of a caller whose place is known.
  pub moves :
      {s : System c} {q p : Pc Place Op} {sh : Shared} (i : ℕ)
      → i < n
      → s.pc i ≡ q
      → Move c i s.shared q sh p
      → Runs s (record { shared = sh; pc = at s.pc i p })
  moves {s} {p = p} {sh = sh} i lt e m =
      then_step stay_here (pick i lt (subst (λ x. Move c i s.shared x sh p) (sym e) m))

  -- The caller that will mark a node is going through a list.
  pub waker_walks :
      {nodes : ℕ → Node} {j : ℕ} (p : Pc Place Op)
      → On nodes (cursor p) j
      → (m : Option ℕ) × (q : Place) × (p ≡ walking m q) × On nodes m j
  waker_walks (walking m q) on = (m, q, refl, on)
  waker_walks {nodes} {j} _ on = absurd (On-none nodes j on)

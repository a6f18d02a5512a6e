-- ===== src/CondVar/Waiters.antt =====
-- Who waits in src/condvar.rs: the nodes on the list of the word, and those on the lists that wakers go
-- through, are the nodes of the callers that sleep, each of them once.
use amity.Prelude.{
  count, ℕ, ◌+◌, ◌≤◌, ◌<◌, ◌≡◌, refl, sym, ap, ◌∙◌, subst, arith, List, [], Option, none, true,
  if◌then◌else◌,
}
use amity.Threads.{at, at-all, at-all₂, weight-le-sum, sum, sum-at}
use amity.CondVar.{
  Word, Node, Shared, Pc, outside, loading, deciding, sleeping, walking, Next, stands, calls, goto,
}
use amity.CondVar.Chain.{Chain, Chain-none}

module _ {P O : Type 0} where
  -- The node that a waker comes to next.
  abbrev pub cursor : Pc P O → Option ℕ
  cursor (walking m p) = m
  cursor _ = none

  -- 1 for a caller that waits on a node which is not marked.
  abbrev pub asleep : Pc P O → Node → ℕ
  asleep (sleeping o) node = if node.ready then 0 else 1
  asleep _ node = 0

  pub cursor-goto : (x : Next P O) → cursor (goto x) ≡ none
  cursor-goto (stands p) = refl
  cursor-goto (calls o) = refl

  pub asleep-goto : (x : Next P O) (node : Node) → asleep (goto x) node ≡ 0
  asleep-goto (stands p) node = refl
  asleep-goto (calls o) node = refl

  pub asleep-le : (p : Pc P O) (node : Node) → asleep p node ≤ 1
  asleep-le (sleeping o) node = ground arith
  asleep-le (outside p) node = omega arith
  asleep-le (loading o) node = omega arith
  asleep-le (deciding o cur) node = omega arith
  asleep-le (walking m p) node = omega arith

  pub asleep-ready : (p : Pc P O) (node : Node) → node.ready ≡ true → asleep p node ≡ 0
  asleep-ready (sleeping o) node h = ground arith
  asleep-ready (outside p) node h = refl
  asleep-ready (loading o) node h = refl
  asleep-ready (deciding o cur) node h = refl
  asleep-ready (walking m p) node h = refl

  pub record Inv (n : ℕ) (sh : Shared) (pc : ℕ → Pc P O) : Type 0 where
    pub listed : List ℕ
    pub walks : ℕ → List ℕ
    pub chain : Chain sh.nodes sh.word.head listed
    pub walk_chain : (i : ℕ) → i < n → Chain sh.nodes (cursor (pc i)) (walks i)
    pub count_eq : (j : ℕ) → count j listed + sum (count j) n walks ≡ asleep (pc j) (sh.nodes j)

  -- A step that changes the state only.
  pub word_Inv :
      {n : ℕ} {sh : Shared} {pc : ℕ → Pc P O} (inv : Inv n sh pc) (word : Word)
      → word.head ≡ sh.word.head
      → Inv n (record sh { word = word }) pc
  word_Inv {sh = sh} inv word h = record {
    listed = inv.listed;
    walks = inv.walks;
    chain = subst (λ o. Chain sh.nodes o inv.listed) (sym h) inv.chain;
    walk_chain = inv.walk_chain;
    count_eq = inv.count_eq;
  }

  module _ {n : ℕ} {sh : Shared} {pc : ℕ → Pc P O} (inv : Inv n sh pc) (i : ℕ) (lt : i < n) where
    -- A step of a caller that neither falls asleep nor goes through a list.
    pub still_Inv :
        (q p : Pc P O)
        → pc i ≡ q
        → cursor p ≡ cursor q
        → asleep p (sh.nodes i) ≡ asleep q (sh.nodes i)
        → Inv n sh (at pc i p)
    still_Inv q p h same keeps = record {
      listed = inv.listed;
      walks = inv.walks;
      chain = inv.chain;
      walk_chain =
          at-all (λ k r. k < n → Chain sh.nodes (cursor r) (inv.walks k)) pc i p
            (λ l.
              subst (λ o. Chain sh.nodes o (inv.walks i)) (ap cursor h ∙ sym same)
                (inv.walk_chain i l))
            λ k ne. inv.walk_chain k;
      count_eq =
          at-all (λ j r. count j inv.listed + sum (count j) n inv.walks ≡ asleep r (sh.nodes j)) pc
            i p (inv.count_eq i ∙ ap (λ r. asleep r (sh.nodes i)) h ∙ sym keeps)
            λ j ne. inv.count_eq j;
    }

    pub absent :
        asleep (pc i) (sh.nodes i) ≡ 0
        → (count i inv.listed ≡ 0) × ((k : ℕ) → k < n → count i (inv.walks k) ≡ 0)
    absent h = (
      omega (arith, inv.count_eq i),
      λ k lt'. omega (arith, inv.count_eq i, weight-le-sum (count i) n inv.walks k lt'),
    )

    -- The list of the word goes to a waker.
    pub take_Inv :
        (state : ℕ) (p : P)
        → cursor (pc i) ≡ none
        → asleep (pc i) (sh.nodes i) ≡ 0
        → Inv n
            (record sh { word = record { head = none; state = state } })
            (at pc i (walking sh.word.head p))
    take_Inv state p h awake = record {
      listed = [];
      walks = at inv.walks i inv.listed;
      chain = refl;
      walk_chain =
          at-all₂ (λ k q l. k < n → Chain sh.nodes (cursor q) l) pc inv.walks i
            (walking sh.word.head p) inv.listed (λ l. inv.chain) λ k ne. inv.walk_chain k;
      count_eq =
          at-all (λ j q. 0 + sum (count j) n (at inv.walks i inv.listed) ≡ asleep q (sh.nodes j)) pc
            i (walking sh.word.head p) (moved i ∙ awake) λ j ne. moved j;
    }
      where
        none_walked : inv.walks i ≡ []
        none_walked =
            Chain-none sh.nodes (inv.walks i)
              (subst (λ o. Chain sh.nodes o (inv.walks i)) h (inv.walk_chain i lt))

        moved :
            (j : ℕ) → 0 + sum (count j) n (at inv.walks i inv.listed) ≡ asleep (pc j) (sh.nodes j)
        moved j = omega (
          arith,
          inv.count_eq j,
          sum-at (count j) n inv.walks i inv.listed lt,
          ap (count j) none_walked,
        )

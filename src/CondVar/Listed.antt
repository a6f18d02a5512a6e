-- ===== src/CondVar/Listed.antt =====
-- The steps of src/condvar.rs that move a node: onto the list of the word, and off the list of a waker.
use amity.Prelude.{
  count, ℕ, ◌+◌, ◌<◌, ◌≡◌, refl, sym, ap, ◌∙◌, subst, arith, List, ◌∷◌, Option, none, some, true,
  false, ◌==◌, if◌then◌else◌, ◌≢◌, ne→==,
}
use amity.Threads.{at, at-all, at-all₂, at_self, two_weights-le-sum, weight-le-sum, sum, sum-at}
use amity.CondVar.{Word, Node, Shared, enlist, wake_node, Pc, sleeping, walking}
use amity.CondVar.Chain.{Chain, Chain-some, Chain-at}
use amity.CondVar.Waiters.{Inv, cursor, asleep, asleep-le, asleep-ready, absent}

module _ {P O : Type 0} where
  module _ {n : ℕ} {sh : Shared} {pc : ℕ → Pc P O} (inv : Inv n sh pc) (i : ℕ) (lt : i < n) where
    -- A caller that is awake puts its node on the list.
    pub park_Inv :
        (o : O) (cur : Word)
        → sh.word ≡ cur
        → cursor (pc i) ≡ none
        → asleep (pc i) (sh.nodes i) ≡ 0
        → Inv n (enlist i cur sh) (at pc i (sleeping o))
    unfolding enlist
    park_Inv o cur same h awake = record {
      listed = i ∷ inv.listed;
      walks = inv.walks;
      chain = (
        refl,
        subst (λ o. Chain nodes o inv.listed)
            (ap (λ w. w.head) same ∙ sym (ap (λ m. m.next) (at_self sh.nodes i mine)))
            (clear inv.listed sh.word.head (absent inv i lt awake).0 inv.chain),
      );
      walk_chain =
          at-all (λ k q. k < n → Chain nodes (cursor q) (inv.walks k)) pc i (sleeping o)
            (λ l.
              clear (inv.walks i) none ((absent inv i lt awake).1 i l)
                (subst (λ o. Chain sh.nodes o (inv.walks i)) h (inv.walk_chain i l)))
            λ k ne l.
              clear (inv.walks k) (cursor (pc k)) ((absent inv i lt awake).1 k l)
                (inv.walk_chain k l);
      count_eq =
          at-all₂ (λ j q node. count j (i ∷ inv.listed) + sum (count j) n inv.walks ≡ asleep q node)
            pc sh.nodes i (sleeping o) mine (ground (arith, inv.count_eq i, awake))
            λ k ne. ground (arith, ne→== i k ne, inv.count_eq k);
    }
      where
        mine : Node
        mine = record { next = cur.head; ready = false }

        nodes : ℕ → Node
        nodes = at sh.nodes i mine

        clear :
            (list : List ℕ) (head : Option ℕ)
            → count i list ≡ 0
            → Chain sh.nodes head list
            → Chain nodes head list
        clear list head e c = Chain-at sh.nodes i mine head list e c

    -- A waker comes to the next node.
    module _ (j : ℕ) (p : P) (h : pc i ≡ walking (some j) p) where
      first : (rest : List ℕ) × (inv.walks i ≡ j ∷ rest) × Chain sh.nodes (sh.nodes j).next rest
      first =
          Chain-some sh.nodes j (inv.walks i)
            (subst (λ q. Chain sh.nodes (cursor q) (inv.walks i)) h (inv.walk_chain i lt))

      own_count : (k : ℕ) → count k (inv.walks i) ≡ (if j == k then 1 else 0) + count k first.0
      own_count k = ap (count k) first.1

      -- The node is that of a caller that waits.
      pub first-asleep : asleep (pc j) (sh.nodes j) ≡ 1
      first-asleep = ground (
        arith,
        inv.count_eq j,
        weight-le-sum (count j) n inv.walks i lt,
        own_count j,
        asleep-le (pc j) (sh.nodes j),
      )

      first_only :
          (count j inv.listed ≡ 0)
          × (count j first.0 ≡ 0)
          × ((k : ℕ) → i ≢ k → k < n → count j (inv.walks k) ≡ 0)
      first_only = (
        ground (
          arith,
          inv.count_eq j,
          first-asleep,
          own_count j,
          weight-le-sum (count j) n inv.walks i lt,
        ),
        ground (
          arith,
          inv.count_eq j,
          first-asleep,
          own_count j,
          weight-le-sum (count j) n inv.walks i lt,
        ),
        λ k ne l. ground (
          arith,
          inv.count_eq j,
          first-asleep,
          own_count j,
          two_weights-le-sum (count j) n inv.walks i k lt l ne,
        ),
      )

      traded :
          (k : ℕ)
          → sum (count k) n (at inv.walks i first.0) + (if j == k then 1 else 0)
            ≡ sum (count k) n inv.walks
      traded k = omega (arith, own_count k, sum-at (count k) n inv.walks i first.0 lt)

      traded_own : sum (count j) n (at inv.walks i first.0) + 1 ≡ sum (count j) n inv.walks
      traded_own = ground (arith, traded j)

      abbrev marked : Node
      marked = record { next = (sh.nodes j).next; ready = true }

      pub walk_Inv : Inv n (wake_node j sh).1 (at pc i (walking (wake_node j sh).0 p))
      unfolding wake_node
      walk_Inv = record {
        listed = inv.listed;
        walks = at inv.walks i first.0;
        chain = Chain-at sh.nodes j marked sh.word.head inv.listed first_only.0 inv.chain;
        walk_chain =
            at-all₂ (λ k q l. k < n → Chain (at sh.nodes j marked) (cursor q) l) pc inv.walks i
              (walking (sh.nodes j).next p) first.0
              (λ l. Chain-at sh.nodes j marked (sh.nodes j).next first.0 first_only.1 first.2)
              λ k ne l.
                Chain-at sh.nodes j marked (cursor (pc k)) (inv.walks k) (first_only.2 k ne l)
                  (inv.walk_chain k l);
        count_eq =
            at-all
              (λ k q.
                count k inv.listed + sum (count k) n (at inv.walks i first.0)
                ≡ asleep q (at sh.nodes j marked k))
              pc i (walking (sh.nodes j).next p)
              (omega (arith, inv.count_eq i, ap (λ q. asleep q (sh.nodes i)) h, traded i))
              λ k ne.
                at-all
                  (λ m node.
                    count m inv.listed + sum (count m) n (at inv.walks i first.0)
                    ≡ asleep (pc m) node)
                  sh.nodes j marked
                  (omega (
                    arith,
                    inv.count_eq j,
                    first-asleep,
                    asleep-ready (pc j) marked refl,
                    traded_own,
                  ))
                  (λ m ne'. ground (arith, inv.count_eq m, traded m, ne→== j m ne')) k;
      }

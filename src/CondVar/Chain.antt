-- ===== src/CondVar/Chain.antt =====
-- The lists of nodes that src/condvar.rs links through pointers.
use amity.Prelude.{
  count, ℕ, ◌<◌, ◌≡◌, refl, sym, ap, subst, arith, List, [], ◌∷◌, Option, none, some, ◌==◌,
  Bool-cases, inl, inr, ◌⊎◌, eq→==,
}
use amity.Threads.{at}
use amity.CondVar.{Node}

-- The nodes from a pointer on are those of the list.
abbrev pub Chain : (ℕ → Node) → Option ℕ → List ℕ → Type 0
Chain nodes head [] = head ≡ none
Chain nodes head (j ∷ rest) = (head ≡ some j) × Chain nodes (nodes j).next rest

-- A node is reached from a pointer.
pub data On (nodes : ℕ → Node) : Option ℕ → ℕ → Type 0 where
  here : {j : ℕ} → On nodes (some j) j
  further : {j k : ℕ} → On nodes (nodes k).next j → On nodes (some k) j

pub On-none : (nodes : ℕ → Node) (j : ℕ) → ¬ On nodes none j
On-none nodes j o = elim o [ ]

pub Chain-none : (nodes : ℕ → Node) (list : List ℕ) → Chain nodes none list → list ≡ []
Chain-none nodes [] c = refl
Chain-none nodes (j ∷ rest) c = absurd (ground arith)

pub Chain-some :
    (nodes : ℕ → Node) (j : ℕ) (list : List ℕ)
    → Chain nodes (some j) list
    → (rest : List ℕ) × (list ≡ j ∷ rest) × Chain nodes (nodes j).next rest
Chain-some nodes j [] c = absurd (ground arith)
Chain-some nodes j (k ∷ rest) c =
    let e : k ≡ j = ground arith in
    (rest, ap (λ m. m ∷ rest) e, subst (λ m. Chain nodes (nodes m).next rest) e c.1)

-- A node that is not on a list may change.
pub Chain-at :
    (nodes : ℕ → Node) (i : ℕ) (node : Node) (head : Option ℕ) (list : List ℕ)
    → count i list ≡ 0
    → Chain nodes head list
    → Chain (at nodes i node) head list
Chain-at nodes i node head [] h c = c
Chain-at nodes i node head (j ∷ rest) h c = elim (Bool-cases (i == j)) [
  | inl e ↦ absurd (ground arith)
  | inr e ↦ (c.0, rw e (Chain-at nodes i node (nodes j).next rest (ground arith) c.1))
]

pub Chain-On :
    (nodes : ℕ → Node) (head : Option ℕ) (list : List ℕ) (j : ℕ)
    → Chain nodes head list
    → 0 < count j list
    → On nodes head j
Chain-On nodes head [] j c h = absurd (omega arith)
Chain-On nodes head (k ∷ rest) j c h = elim (Bool-cases (k == j)) [
  | inl e ↦
      subst (λ o. On nodes o j) (sym c.0)
        (subst (λ m. On nodes (some m) j) {x = j} (ground arith) here)
  | inr e ↦
      subst (λ o. On nodes o j) (sym c.0)
        (further (Chain-On nodes (nodes k).next rest j c.1 (ground arith)))
]

On-some : (nodes : ℕ → Node) (k j : ℕ) → On nodes (some k) j → (k ≡ j) ⊎ On nodes (nodes k).next j
On-some nodes k j here = inl refl
On-some nodes k j (further o) = inr o

pub On-count :
    (nodes : ℕ → Node) (head : Option ℕ) (list : List ℕ) (j : ℕ)
    → Chain nodes head list
    → On nodes head j
    → 0 < count j list
On-count nodes head [] j c o = absurd (On-none nodes j (subst (λ m. On nodes m j) c o))
On-count nodes head (k ∷ rest) j c o = elim (On-some nodes k j (subst (λ m. On nodes m j) c.0 o)) [
  | inl e ↦ ground (arith, eq→== k j e)
  | inr o' ↦ let more = On-count nodes (nodes k).next rest j c.1 o' in omega arith
]

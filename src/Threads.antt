-- ===== src/Threads.antt =====
-- A family of threads, `ℕ → A` by number: what one thread's step changes, and sums over the first
-- `n` threads.
use amity.Prelude.{
  ℕ, zero, suc, ◌+◌, ◌≤◌, ◌<◌, ◌≡◌, ◌≢◌, refl, arith, dec_lt, ◌==◌, if◌then◌else◌, ℕ_discrete,
  eq→==, ne→==, subst,
}

abbrev pub at {ℓ} : {A : Type ℓ} → (ℕ → A) → ℕ → A → ℕ → A
at f i a j = if i == j then a else f j

-- What holds of the thread that steps, and of the others, holds of all.
pub at-all {ℓ κ} :
    {A : Type ℓ} (P : ℕ → A → Type κ) (f : ℕ → A) (i : ℕ) (a : A)
    → P i a
    → ((k : ℕ) → i ≢ k → P k (f k))
    → (k : ℕ) → P k (at f i a k)
at-all P f i a own others k = elim (ℕ_discrete i k) [
  | yes e ↦ rw (eq→== i k e) (subst (λ m. P m a) e own)
  | no ne ↦ rw (ne→== i k ne) (others k ne)
]

pub at_self {ℓ} : {A : Type ℓ} (f : ℕ → A) (i : ℕ) (a : A) → at f i a i ≡ a
at_self f i a = rw (eq→== i i refl)

pub at_ne {ℓ} : {A : Type ℓ} (f : ℕ → A) (i : ℕ) (a : A) (k : ℕ) → i ≢ k → at f i a k ≡ f k
at_ne f i a k ne = rw (ne→== i k ne)

-- The same where two families change at that thread.
pub at-all₂ {ℓ κ μ} :
    {A : Type ℓ} {B : Type κ} (P : ℕ → A → B → Type μ) (f : ℕ → A) (g : ℕ → B) (i : ℕ) (a : A)
    (b : B)
    → P i a b
    → ((k : ℕ) → i ≢ k → P k (f k) (g k))
    → (k : ℕ) → P k (at f i a k) (at g i b k)
at-all₂ P f g i a b own others k = elim (ℕ_discrete i k) [
  | yes e ↦ rw (eq→== i k e) (subst (λ m. P m a b) e own)
  | no ne ↦ rw (ne→== i k ne) (others k ne)
]

module _ {A : Type 0} (weight : A → ℕ) where
  pub sum : ℕ → (ℕ → A) → ℕ
  sum zero f = 0
  sum (suc n) f = sum n f + weight (f n)

  sum-at_beyond : (n : ℕ) (f : ℕ → A) (i : ℕ) (a : A) → n ≤ i → sum n (at f i a) ≡ sum n f
  unfolding sum
  sum-at_beyond zero f i a h = refl
  sum-at_beyond (suc n) f i a h = ground (arith, sum-at_beyond n f i a)

  -- A step of thread `i` trades its old weight for its new one.
  pub sum-at :
      (n : ℕ) (f : ℕ → A) (i : ℕ) (a : A)
      → i < n
      → sum n (at f i a) + weight (f i) ≡ sum n f + weight a
  unfolding sum
  sum-at zero f i a h = absurd (omega arith)
  sum-at (suc n) f i a h = elim (dec_lt i n) [
    | yes p ↦ ground (arith, sum-at n f i a p)
    | no p ↦ ground (arith, sum-at_beyond n f i a)
  ]

  pub weight-le-sum : (n : ℕ) (f : ℕ → A) (i : ℕ) → i < n → weight (f i) ≤ sum n f
  unfolding sum
  weight-le-sum zero f i h = absurd (omega arith)
  weight-le-sum (suc n) f i h = elim (dec_lt i n) [
    | yes p ↦ omega (arith, weight-le-sum n f i p)
    | no p ↦ ground arith
  ]

  -- A sum that is not 0 has a thread in it that weighs something.
  pub sum-found : (n : ℕ) (f : ℕ → A) → 0 < sum n f → (i : ℕ) × (i < n) × (0 < weight (f i))
  unfolding sum
  sum-found zero f h = absurd (omega arith)
  sum-found (suc n) f h = elim (dec_lt 0 (weight (f n))) [
    | yes p ↦ (n, omega arith, p)
    | no p ↦ let (i, lt, q) = sum-found n f (omega arith) in (i, omega arith, q)
  ]

  -- The weights of two threads stand in the sum beside one another.
  pub two_weights-le-sum :
      (n : ℕ) (f : ℕ → A) (i j : ℕ) → i < n → j < n → i ≢ j → weight (f i) + weight (f j) ≤ sum n f
  unfolding sum
  two_weights-le-sum zero f i j h k ne = absurd (omega arith)
  two_weights-le-sum (suc n) f i j h k ne = elim (dec_lt i n) [
    | yes p ↦ elim (dec_lt j n) [
      | yes q ↦ omega (arith, two_weights-le-sum n f i j p q ne)
      | no q ↦ ground (arith, weight-le-sum n f i p)
    ]
    | no p ↦ elim (dec_lt j n) [
      | yes q ↦ ground (arith, weight-le-sum n f j q)
      | no q ↦ absurd (ne (omega arith))
    ]
  ]

  pub sum-le : ((a : A) → weight a ≤ 1) → (n : ℕ) (f : ℕ → A) → sum n f ≤ n
  unfolding sum
  sum-le h zero f = omega arith
  sum-le h (suc n) f = omega (arith, h (f n), sum-le h n f)

  pub sum-zero : (n : ℕ) (f : ℕ → A) → ((i : ℕ) → weight (f i) ≡ 0) → sum n f ≡ 0
  unfolding sum
  sum-zero zero f h = refl
  sum-zero (suc n) f h = omega (arith, h n, sum-zero n f h)

pub sum_mono :
    {A : Type 0} (v w : A → ℕ) → ((a : A) → v a ≤ w a) → (n : ℕ) (f : ℕ → A) → sum v n f ≤ sum w n f
unfolding sum
sum_mono v w h zero f = omega arith
sum_mono v w h (suc n) f = omega (arith, h (f n), sum_mono v w h n f)

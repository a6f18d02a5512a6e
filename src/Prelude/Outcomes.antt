-- ===== src/Prelude/Outcomes.antt =====
-- What running a piece of Rust code may come to: a value, a panic, or undefined behaviour.
use mathlib.Core.Bool.{Bool, true, false}
use mathlib.Core.Option.{Option, none, some}

pub data Outcome {ℓ} (A : Type ℓ) : Type ℓ where
  ok : A → Outcome A
  panic : Outcome A
  undefined : Outcome A

infixl 5 ◌>>=◌ ◌>>◌
abbrev pub ◌>>=◌ {ℓ κ} : {A : Type ℓ} {B : Type κ} → Outcome A → (A → Outcome B) → Outcome B
ok a >>= f = f a
panic >>= f = panic
undefined >>= f = undefined

abbrev pub ◌>>◌ {ℓ} : {B : Type ℓ} → Outcome (Unit {0}) → Outcome B → Outcome B
m >> k = m >>= λ _. k

-- A condition that the caller of an `unsafe` operation owes.
abbrev pub requires : Bool → Outcome (Unit {0})
requires true = ok tt
requires false = undefined

-- The read of a value that is there only if the memory holds one.
abbrev pub required {ℓ} : {A : Type ℓ} → Option A → Outcome A
required (some a) = ok a
required none = undefined

-- A call whose failure panics.
abbrev pub or_panic {ℓ} : {A : Type ℓ} → Option A → Outcome A
or_panic (some a) = ok a
or_panic none = panic

-- The outcome that a correct run cannot have, at any level.
pub data Never {κ} : Type κ where

-- The run ends with a value that has the property.
abbrev pub Returns {ℓ κ} : {A : Type ℓ} → Outcome A → (A → Type κ) → Type κ
Returns (ok a) P = P a
Returns panic P = Never
Returns undefined P = Never

-- The run has no undefined behaviour, and any value that it ends with has the property.
abbrev pub Ensures {ℓ κ} : {A : Type ℓ} → Outcome A → (A → Type κ) → Type κ
Ensures (ok a) P = P a
Ensures panic P = Unit
Ensures undefined P = Never

module _ {ℓ κ μ ν} {A : Type ℓ} {B : Type κ} where
  pub Ensures-bind :
      (m : Outcome A) (f : A → Outcome B) (P : A → Type μ) (Q : B → Type ν)
      → Ensures m P
      → ((a : A) → P a → Ensures (f a) Q)
      → Ensures (m >>= f) Q
  Ensures-bind (ok a) f P Q h k = k a h
  Ensures-bind panic f P Q h k = tt
  Ensures-bind undefined f P Q h k = elim h [ ]

  pub Returns-bind :
      (m : Outcome A) (f : A → Outcome B) (P : A → Type μ) (Q : B → Type ν)
      → Returns m P
      → ((a : A) → P a → Returns (f a) Q)
      → Returns (m >>= f) Q
  Returns-bind (ok a) f P Q h k = k a h
  Returns-bind panic f P Q h k = elim h [ ]
  Returns-bind undefined f P Q h k = elim h [ ]

  pub Returns-Ensures :
      (m : Outcome A) (f : A → Outcome B) (P : A → Type μ) (Q : B → Type ν)
      → Returns m P
      → ((a : A) → P a → Ensures (f a) Q)
      → Ensures (m >>= f) Q
  Returns-Ensures (ok a) f P Q h k = k a h
  Returns-Ensures panic f P Q h k = elim h [ ]
  Returns-Ensures undefined f P Q h k = elim h [ ]

module _ {ℓ μ ν} {A : Type ℓ} where
  pub Returns-map :
      (m : Outcome A) (P : A → Type μ) (Q : A → Type ν)
      → Returns m P
      → ((a : A) → P a → Q a)
      → Returns m Q
  Returns-map (ok a) P Q h k = k a h
  Returns-map panic P Q h k = elim h [ ]
  Returns-map undefined P Q h k = elim h [ ]

  pub Ensures-map :
      (m : Outcome A) (P : A → Type μ) (Q : A → Type ν)
      → Ensures m P
      → ((a : A) → P a → Q a)
      → Ensures m Q
  Ensures-map (ok a) P Q h k = k a h
  Ensures-map panic P Q h k = tt
  Ensures-map undefined P Q h k = elim h [ ]

-- ===== src/CondVar/Packed.antt =====
-- The word of src/condvar.rs as the one merged word of src/state_ptr.rs that it is in memory: a node's
-- address, a multiple of 256, with the state in its low byte.
pub mod Reachable
mod Tests
use amity.Prelude.{
  ℕ, ◌+◌, ◌%◌, ◌^◌, ◌≤◌, ◌<◌, ◌≡◌, ◌≢◌, ◌⊎◌, inl, inr, Bool, true, false, Bool-cases, ◌==◌,
  if◌then◌else◌, Option, none, some, refl, sym, ap, ap₂, ◌∙◌, arith, word, subst,
}
use native.Mathlib.Nat.{mod-lt}
use amity.Threads.{at, at-all}
use amity.StatePtr
use amity.StatePtr.{new, new_truncated, with_state, ptr, state, compare_exchange}
use amity.StatePtr.Parts.{ptr-state-new, state_values}
use amity.CondVar.{
  Word, Shared, Pc, outside, loading, deciding, sleeping, walking, Wake, wake_none, wake_one,
  wake_all, new_word, null_state, enlist, wake_node, Next, stands, calls, goto, Client, Move,
  System, pick, Reach, begin, later, try_update, try_fail, enter, swap, load, exchange,
  exchange_fail, park, park_fail, back_off, stop, stay, rise, walk, walked, after_update,
}

-- The nodes of the callers stand at aligned addresses inside the address space, none of them null and no
-- two the same.
pub record Frames (n : ℕ) : Type 0 where
  pub address : ℕ → ℕ
  pub aligned : (i : ℕ) → i < n → address i % 2 ^ 8 ≡ 0
  pub inside : (i : ℕ) → i < n → address i + 2 ^ 8 ≤ word
  pub nonnull : (i : ℕ) → i < n → 0 < address i
  pub apart : (i j : ℕ) → i < n → j < n → address i ≡ address j → i ≡ j

abbrev pub pointer : (ℕ → ℕ) → Option ℕ → ℕ
pointer address none = 0
pointer address (some i) = address i

-- The merged word.
abbrev pub packed : (ℕ → ℕ) → Word → ℕ
packed address w = new (pointer address w.head) w.state

-- The word that an update stores, and that of a caller that parks, from the word that was read.
pub stored : Wake → ℕ → ℕ → ℕ
stored wake_none cur new_state = with_state 8 cur (new_truncated 8 new_state)
stored wake_one cur new_state = StatePtr.null_state (new_truncated 8 new_state)
stored wake_all cur new_state = StatePtr.null_state (new_truncated 8 new_state)

pub parked : ℕ → ℕ → ℕ
parked node cur = new node (state 8 cur)

-- The word that holds one of `n` callers, or none, and a state of eight bits.
pub record Fits (n : ℕ) (w : Word) : Type 0 where
  pub state_low : w.state < 2 ^ 8
  pub head_in : (i : ℕ) → w.head ≡ some i → i < n

same : (a b : ℕ) → compare_exchange a b a ≡ (inl a, b)
unfolding compare_exchange
same a b = ground arith

differ : (a b : ℕ) → a ≢ b → (a == b) ≡ false
differ a b ne = ground arith

module _ {n : ℕ} (frames : Frames n) where
  open frames use {address, aligned, inside, nonnull, apart}

  head_ok :
      (h : Option ℕ)
      → ((i : ℕ) → h ≡ some i → i < n)
      → (pointer address h % 2 ^ 8 ≡ 0) × (pointer address h + 2 ^ 8 ≤ word)
  head_ok none e = (refl, omega arith)
  head_ok (some i) e = (aligned i (e i refl), inside i (e i refl))

  pub parts :
      (w : Word)
      → Fits n w
      → (ptr 8 (packed address w) ≡ pointer address w.head) × (state 8 (packed address w) ≡ w.state)
  parts w fits =
      let (a, b) = head_ok w.head fits.head_in in
      ptr-state-new 8 (pointer address w.head) w.state a b fits.state_low

  heads_eq :
      (h h' : Option ℕ)
      → ((i : ℕ) → h ≡ some i → i < n)
      → ((i : ℕ) → h' ≡ some i → i < n)
      → pointer address h ≡ pointer address h'
      → h ≡ h'
  heads_eq none none f g e = refl
  heads_eq none (some j) f g e = absurd (omega (arith, nonnull j (g j refl), e))
  heads_eq (some i) none f g e = absurd (omega (arith, nonnull i (f i refl), e))
  heads_eq (some i) (some j) f g e = ap (λ k. some k) (apart i j (f i refl) (g j refl) e)

  packed_eq : (w w' : Word) → Fits n w → Fits n w' → packed address w ≡ packed address w' → w ≡ w'
  packed_eq w w' fits fits' e =
      let (p, s) = parts w fits in
      let (p', s') = parts w' fits' in
      ap₂ rejoined (heads_eq w.head w'.head fits.head_in fits'.head_in (sym p ∙ ap (ptr 8) e ∙ p'))
        (sym s ∙ ap (state 8) e ∙ s')
    where
      rejoined : Option ℕ → ℕ → Word
      rejoined h k = record { head = h; state = k }

  -- A compare-exchange of merged words is one of the words that they hold.
  pub exchange-packed :
      (w cur next : Word)
      → Fits n w
      → Fits n cur
      → (w ≡ cur
          → compare_exchange (packed address cur) (packed address next) (packed address w)
            ≡ (inl (packed address cur), packed address next))
        × (w ≢ cur
            → compare_exchange (packed address cur) (packed address next) (packed address w)
              ≡ (inr (packed address w), packed address w))
  unfolding compare_exchange
  exchange-packed w cur next fits fits' = (
    λ e. rw (ap (packed address) e) (same (packed address cur) (packed address next)),
    λ ne.
        rw (differ (packed address w) (packed address cur) (λ e. ne (packed_eq w cur fits fits' e)))
          refl,
  )

  pub stored-packed :
      (wake : Wake) (cur : Word) (k : ℕ)
      → Fits n cur
      → stored wake (packed address cur) k ≡ packed address (new_word wake cur k)
  unfolding stored new_word with_state StatePtr.null_state
  stored-packed wake_none cur k fits = ap₂ new (parts cur fits).0 (state_values 8 k).1
  stored-packed wake_one cur k fits = ap (new 0) (state_values 8 k).1
  stored-packed wake_all cur k fits = ap (new 0) (state_values 8 k).1

  pub parked-packed :
      (i : ℕ) (cur : Word) (sh : Shared)
      → Fits n cur
      → parked (address i) (packed address cur) ≡ packed address (enlist i cur sh).word
  unfolding parked enlist
  parked-packed i cur sh fits = ap (new (address i)) (parts cur fits).1

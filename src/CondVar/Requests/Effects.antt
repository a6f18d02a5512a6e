-- ===== src/CondVar/Requests/Effects.antt =====
-- What the operations of src/condvar.rs do to the word at the step that gives them their result.
use amity.Prelude.{ℕ, ◌≡◌, true, Option, none, some}
use amity.CondVar.{
  Shared, Word, Pc, outside, deciding, walking, Wake, wake_none, update, break, updated, stopped,
  new_word, null_state, Move, System,
}
use amity.CondVar.Requests.{
  Returned, answer, value, done, Request, updates_waits_breaks, updates_waits, waits, waits_for,
  updates_breaks, updates, updates_breaks_no_wake, updates_no_wake, sets_no_wake, Place, returned,
  swapped, requests,
}

-- The word was updated: the state that is returned is the one that it had, and the new one is stored in the
-- way of the wake.
abbrev pub Updates : Wake → Word → Word → ℕ → ℕ → Type 0
Updates wake before after old_state new_state =
    (old_state ≡ before.state) × (after ≡ new_word wake before new_state)

-- The word was left, and the state that is returned is the one that was read.
abbrev pub Leaves : Word → Word → Word → ℕ → Type 0
Leaves cur before after last_state = (last_state ≡ cur.state) × (after ≡ before)

-- What the doc of an operation says of its result, for the word that the caller has read, the words before
-- and after the step, and the result.
abbrev pub Effect : Request → Word → Word → Word → Returned → Type 0
Effect (updates_waits_breaks wake f total) cur before after (answer (updated old)) =
    (n : ℕ) × (f old ≡ update n) × Updates wake before after old n
Effect (updates_waits_breaks wake f total) cur before after (answer (stopped last)) =
    (f last ≡ break) × Leaves cur before after last
Effect (updates_waits wake f) cur before after (value old) =
    (n : ℕ) × (f old ≡ some n) × Updates wake before after old n
Effect (waits until) cur before after (value last) =
    (until last ≡ true) × Leaves cur before after last
Effect (waits_for target) cur before after (done last) =
    (last ≡ target) × Leaves cur before after last
Effect (updates_breaks wake f) cur before after (answer (updated old)) =
    (n : ℕ) × (f old ≡ some n) × Updates wake before after old n
Effect (updates_breaks wake f) cur before after (answer (stopped last)) =
    (f last ≡ none) × Leaves cur before after last
Effect (updates wake f) cur before after (value old) = Updates wake before after old (f old)
Effect (updates_breaks_no_wake f) cur before after (answer (updated old)) =
    (n : ℕ) × (f old ≡ some n) × Updates wake_none before after old n
Effect (updates_breaks_no_wake f) cur before after (answer (stopped last)) =
    (f last ≡ none) × Leaves cur before after last
Effect (updates_no_wake f) cur before after (value old) = Updates wake_none before after old (f old)
Effect (sets_no_wake new_state) cur before after (value old) =
    Updates wake_none before after old new_state
Effect _ _ _ _ _ = ⊥

-- What a step from the head of a loop that gives a result does, and one of `set` that swaps the word.
abbrev pub Came : Pc Place Request → Pc Place Request → Word → Word → Type 0
Came (deciding r cur) (outside (returned r' x)) before after =
    (r ≡ r') × Effect r cur before after x
Came (deciding r cur) (walking node (returned r' x)) before after =
    (r ≡ r') × Effect r cur before after x × (node ≡ before.head)
Came (outside p) (walking node (swapped new_state old_state)) before after =
    (old_state ≡ before.state) × (after ≡ null_state new_state) × (node ≡ before.head)
Came _ _ _ _ = Unit

-- The step that gives a caller its result, and the one of `set`.
abbrev pub Results : System requests → Type 0
Results s =
    ((i : ℕ) (r : Request) (cur : Word) (sh : Shared) (x : Returned)
      → s.pc i ≡ deciding r cur
      → (Move requests i s.shared (s.pc i) sh (outside (returned r x))
          → Effect r cur s.shared.word sh.word x)
        × ((node : Option ℕ)
            → Move requests i s.shared (s.pc i) sh (walking node (returned r x))
            → Effect r cur s.shared.word sh.word x × (node ≡ s.shared.word.head)))
    × ((i new_state old_state : ℕ) (p : Place) (sh : Shared) (node : Option ℕ)
        → s.pc i ≡ outside p
        → Move requests i s.shared (s.pc i) sh (walking node (swapped new_state old_state))
        → (old_state ≡ s.shared.word.state)
          × (sh.word ≡ null_state new_state)
          × (node ≡ s.shared.word.head))

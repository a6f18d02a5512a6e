-- ===== src/CondVar.antt =====
-- src/condvar.rs: the word, the nodes of the callers that wait, and the loops of the operations as steps
-- of a caller. A pointer to a node is the number of the caller whose frame it stands in, so a caller that
-- waits again has a node at the same address. What the callers do outside the operations, and the
-- closures that they hand in, are a parameter.
pub mod Chain
pub mod Waiters
pub mod Listed
pub mod Reachable
pub mod Wakeups
pub mod Progress
pub mod Requests
pub mod Packed
mod Tests
use amity.Prelude.{
  ℕ, ◌%◌, ◌<◌, ◌≡◌, ◌≢◌, Bool, true, false, Option, none, some, ◌==◌, if◌then◌else◌,
}
use amity.Threads.{at}

-- `PtrState`: the head of the list of nodes, and the state.
pub record Word : Type 0 where
  pub head : Option ℕ
  pub state : ℕ

-- The unpark token is the caller's number, which is the node's address.
pub record Node : Type 0 where
  pub next : Option ℕ
  pub ready : Bool

pub record Shared : Type 0 where
  pub word : Word
  pub nodes : ℕ → Node

pub data Wake : Type 0 where
  wake_none wake_one wake_all : Wake

-- `CondVarUpdateOrWait`, and a closure that panics.
pub data Decision : Type 0 where
  update : (new_state : ℕ) → Decision
  wait : Decision
  break : Decision
  unreachable : Decision

-- The closures that the simpler operations hand to the loop, or that their own loops act on:
-- `update_wait_park`, `wait_park` and `wait_for_park`, `update_break`, and `update`.
abbrev pub update_or : Decision → Option ℕ → Decision
update_or otherwise (some new_state) = update new_state
update_or otherwise none = otherwise

abbrev pub update_or_wait : (ℕ → Option ℕ) → ℕ → Decision
update_or_wait f state = update_or wait (f state)

abbrev pub break_or_wait : (ℕ → Bool) → ℕ → Decision
break_or_wait stop state = if stop state then break else wait

abbrev pub break_at : ℕ → ℕ → Decision
break_at target state = break_or_wait (λ s. s == target) state

abbrev pub update_or_break : (ℕ → Option ℕ) → ℕ → Decision
update_or_break f state = update_or break (f state)

abbrev pub always_update : (ℕ → ℕ) → ℕ → Decision
always_update f state = update_or_break (λ s. some (f s)) state

-- `Result<u8, u8>`: the state before the update, or the state that was read last.
pub data Answer : Type 0 where
  updated : (old_state : ℕ) → Answer
  stopped : (last_state : ℕ) → Answer

-- `State::new_truncated` of an eight-bit state, and `PtrState::null_state` of it.
abbrev pub truncated : ℕ → ℕ
truncated state = state % 256

abbrev pub null_state : ℕ → Word
null_state state = record { head = none; state = truncated state }

-- `CondVar::load` of a word.
abbrev pub load_state : Word → ℕ
load_state word = word.state

-- `CondVar::zero`. No caller has a node yet.
abbrev pub zero_word : Shared
zero_word = record { word = null_state 0; nodes = λ i. record { next = none; ready = false } }

-- The word that an update stores. `CondVarWake::One` wakes all.
unfoldable pub new_word : Wake → Word → ℕ → Word
new_word wake_none cur new_state = record cur { state = truncated new_state }
new_word wake_one cur new_state = null_state new_state
new_word wake_all cur new_state = null_state new_state

-- A node of the caller's is filled, and becomes the head of the list.
unfoldable pub enlist : ℕ → Word → Shared → Shared
enlist i cur sh = record {
  word = record { head = some i; state = cur.state };
  nodes = at sh.nodes i (record { next = cur.head; ready = false });
}

-- One round of the loop that wakes: the next pointer is read, and the node is marked. The node may be
-- gone from then on.
unfoldable pub wake_node : ℕ → Shared → Option ℕ × Shared
wake_node j sh =
    let next = (sh.nodes j).next in
    (next, record sh { nodes = at sh.nodes j (record { next = next; ready = true }) })

-- Where a caller stands: outside the operations; in `update_wait_break_park`, or a variant of it,
-- before the load, at the head of the loop with the word that it read, or waiting for its node to be
-- ready; or in the loop that wakes, with the node that comes next.
pub data Pc (Place Op : Type 0) : Type 0 where
  outside : Place → Pc Place Op
  loading : Op → Pc Place Op
  deciding : Op → (cur : Word) → Pc Place Op
  sleeping : Op → Pc Place Op
  walking : (node : Option ℕ) → (place : Place) → Pc Place Op

-- Where a caller goes after `optimistic_update`: back to a place, or into an operation.
pub data Next (Place Op : Type 0) : Type 0 where
  stands : Place → Next Place Op
  calls : Op → Next Place Op

abbrev pub goto : {Place Op : Type 0} → Next Place Op → Pc Place Op
goto (stands p) = outside p
goto (calls o) = loading o

-- What a caller may do outside: `optimistic_update` of an old state to a new one, with what follows if
-- it succeeds and if it fails; a call; `set` with a wake, and where it goes with the state that it returns.
pub data Act (Place Op : Type 0) : Type 0 where
  optimistic : (old_state new_state : ℕ) → (won lost : Next Place Op) → Act Place Op
  call : Op → Act Place Op
  set : (new_state : ℕ) → (back : ℕ → Place) → Act Place Op

-- The users of a condition variable: where they stand between the calls, their closures, and what they
-- do next.
pub record Client : Type 1 where
  pub Place : Type 0
  pub Op : Type 0
  pub start : Place
  pub decide : Op → ℕ → Decision
  pub wake : Op → Wake
  pub back : Op → Answer → Place
  pub May : Place → Act Place Op → Type 0

module _ (c : Client) where
  open c use {Place, Op, decide, wake, back, May}

  abbrev pub after_update : Wake → Word → Place → Pc Place Op
  after_update wake_none cur p = outside p
  after_update wake_one cur p = walking cur.head p
  after_update wake_all cur p = walking cur.head p

  -- One atomic access of caller `i`, with what it computes up to the next one. A weak compare-exchange
  -- may fail on an equal word. Whether a caller that waits backs off or parks is left open.
  pub data Move (i : ℕ) (sh : Shared) : Pc Place Op → Shared → Pc Place Op → Type 0 where
    try_update :
        {p : Place} {old_state new_state : ℕ} {won lost : Next Place Op}
        → May p (optimistic old_state new_state won lost)
        → sh.word ≡ null_state old_state
        → Move i sh (outside p) (record sh { word = null_state new_state }) (goto won)
    try_fail :
        {p : Place} {old_state new_state : ℕ} {won lost : Next Place Op}
        → May p (optimistic old_state new_state won lost)
        → sh.word ≢ null_state old_state
        → Move i sh (outside p) sh (goto lost)
    enter : {p : Place} {o : Op} → May p (call o) → Move i sh (outside p) sh (loading o)
    swap :
        {p : Place} {new_state : ℕ} {back : ℕ → Place}
        → May p (set new_state back)
        → Move i sh
            (outside p)
            (record sh { word = null_state new_state })
            (walking sh.word.head (back sh.word.state))
    load : {o : Op} → Move i sh (loading o) sh (deciding o sh.word)
    exchange :
        {o : Op} {cur : Word} {new_state : ℕ}
        → decide o cur.state ≡ update new_state
        → sh.word ≡ cur
        → Move i sh
            (deciding o cur)
            (record sh { word = new_word (wake o) cur new_state })
            (after_update (wake o) cur (back o (updated cur.state)))
    exchange_fail :
        {o : Op} {cur : Word} {new_state : ℕ}
        → decide o cur.state ≡ update new_state
        → Move i sh (deciding o cur) sh (deciding o sh.word)
    park :
        {o : Op} {cur : Word}
        → decide o cur.state ≡ wait
        → sh.word ≡ cur
        → Move i sh (deciding o cur) (enlist i cur sh) (sleeping o)
    park_fail :
        {o : Op} {cur : Word}
        → decide o cur.state ≡ wait
        → Move i sh (deciding o cur) sh (deciding o sh.word)
    back_off :
        {o : Op} {cur : Word}
        → decide o cur.state ≡ wait
        → Move i sh (deciding o cur) sh (loading o)
    stop :
        {o : Op} {cur : Word}
        → decide o cur.state ≡ break
        → Move i sh (deciding o cur) sh (outside (back o (stopped cur.state)))
    stay : {o : Op} → (sh.nodes i).ready ≡ false → Move i sh (sleeping o) sh (sleeping o)
    rise : {o : Op} → (sh.nodes i).ready ≡ true → Move i sh (sleeping o) sh (loading o)
    walk :
        {j : ℕ} {p : Place}
        → Move i sh (walking (some j) p) (wake_node j sh).1 (walking (wake_node j sh).0 p)
    walked : {p : Place} → Move i sh (walking none p) sh (outside p)

  pub record System : Type 0 where
    pub shared : Shared
    pub pc : ℕ → Pc Place Op

  pub data Step (n : ℕ) (s : System) : System → Type 0 where
    pick :
        (i : ℕ) {sh : Shared} {p : Pc Place Op}
        → i < n
        → Move i s.shared (s.pc i) sh p
        → Step n s (record { shared = sh; pc = at s.pc i p })

  -- `n` callers of one condition variable.
  pub data Reach (n : ℕ) : System → Type 0 where
    begin : Reach n (record { shared = zero_word; pc = λ i. outside c.start })
    later : {s t : System} → Reach n s → Step n s t → Reach n t

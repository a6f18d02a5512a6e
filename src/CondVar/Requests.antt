-- ===== src/CondVar/Requests.antt =====
-- The operations of src/condvar.rs that callers use: each is one of its loops, which are the steps of
-- CondVar, with a wake, a closure, and
-- what is made of the loop's result. An operation with the default park is the one with a park: how a
-- caller sleeps is not part of the steps.
pub mod Promises
pub mod Effects
mod Tests
use amity.Prelude.{ℕ, ◌≡◌, ◌≢◌, Bool, Option, none, some, ◌==◌}
use amity.CondVar.{
  Wake, wake_none, wake_one, wake_all, Decision, update, wait, break, unreachable, Answer, updated,
  stopped, update_or_wait, break_or_wait, update_or_break, Act, optimistic, call, set, stands,
  Client,
}

-- What an operation returns: a `Result`, a state, nothing (with the state that was read last), or the panic
-- of an `unreachable!`.
pub data Returned : Type 0 where
  answer : Answer → Returned
  value : (state : ℕ) → Returned
  done : (last_state : ℕ) → Returned
  unreached : Returned

pub record Loop : Type 0 where
  pub wake : Wake
  pub decide : ℕ → Decision
  pub finish : Answer → Returned

-- The matches on the loop's result.
abbrev pub ok_state : Answer → Returned
ok_state (updated state) = value state
ok_state (stopped state) = unreached

abbrev pub err_state : Answer → Returned
err_state (updated state) = unreached
err_state (stopped state) = value state

abbrev pub discard : Returned → Returned
discard (answer (updated state)) = done state
discard (answer (stopped state)) = done state
discard (value state) = done state
discard (done state) = done state
discard unreached = unreached

abbrev pub update_wait_break_park : Wake → (ℕ → Decision) → Loop
update_wait_break_park wake f = record { wake = wake; decide = f; finish = answer }

abbrev pub update_wait_park : Wake → (ℕ → Option ℕ) → Loop
update_wait_park wake f = record (update_wait_break_park wake (update_or_wait f)) {
  finish = ok_state;
}

abbrev pub wait_park : (ℕ → Bool) → Loop
wait_park stop = record (update_wait_break_park wake_none (break_or_wait stop)) {
  finish = err_state;
}

abbrev pub wait_for_park : ℕ → Loop
wait_for_park target =
    let waits = wait_park (λ state. state == target) in
    record waits { finish = λ a. discard (waits.finish a) }

-- The match on the closure's answer in `update_break_wake`, and that on the wake inside it.
abbrev pub wake_decision : Wake → Option ℕ → Decision
wake_decision wake none = break
wake_decision wake_none (some new_state) = unreachable
wake_decision wake_one (some new_state) = update new_state
wake_decision wake_all (some new_state) = update new_state

abbrev pub update_break_wake : Wake → (ℕ → Option ℕ) → Loop
update_break_wake wake f = record {
  wake = wake;
  decide = λ state. wake_decision wake (f state);
  finish = answer;
}

abbrev pub update_break_no_wake : (ℕ → Option ℕ) → Loop
update_break_no_wake f = record { wake = wake_none; decide = update_or_break f; finish = answer }

abbrev pub update_break : Wake → (ℕ → Option ℕ) → Loop
update_break wake_none f = update_break_no_wake f
update_break wake_one f = update_break_wake wake_one f
update_break wake_all f = update_break_wake wake_all f

abbrev pub update_loop : Wake → (ℕ → ℕ) → Loop
update_loop wake f = record (update_break wake (λ state. some (f state))) { finish = ok_state }

abbrev pub update_no_wake : (ℕ → ℕ) → Loop
update_no_wake f = record (update_break_no_wake (λ state. some (f state))) { finish = ok_state }

abbrev pub set_no_wake : ℕ → Loop
set_no_wake new_state = update_no_wake (λ state. new_state)

-- `update_wait_break`, `update_wait`, `wait` and `wait_for`.
abbrev pub update_wait_break : Wake → (ℕ → Decision) → Loop
update_wait_break wake f = update_wait_break_park wake f

abbrev pub update_wait : Wake → (ℕ → Option ℕ) → Loop
update_wait wake f = update_wait_park wake f

abbrev pub wait_until : (ℕ → Bool) → Loop
wait_until stop = wait_park stop

abbrev pub wait_for : ℕ → Loop
wait_for target = wait_for_park target

-- A call with its arguments. The closure of `update_wait_break` does not panic. A `set` that wakes is
-- a swap, and no loop.
pub data Request : Type 0 where
  updates_waits_breaks : Wake → (f : ℕ → Decision) → ((state : ℕ) → f state ≢ unreachable) → Request
  updates_waits : Wake → (ℕ → Option ℕ) → Request
  waits : (ℕ → Bool) → Request
  waits_for : ℕ → Request
  updates_breaks : Wake → (ℕ → Option ℕ) → Request
  updates : Wake → (ℕ → ℕ) → Request
  updates_breaks_no_wake : (ℕ → Option ℕ) → Request
  updates_no_wake : (ℕ → ℕ) → Request
  sets_no_wake : ℕ → Request

abbrev pub loop : Request → Loop
loop (updates_waits_breaks wake f total) = update_wait_break wake f
loop (updates_waits wake f) = update_wait wake f
loop (waits stop) = wait_until stop
loop (waits_for target) = wait_for target
loop (updates_breaks wake f) = update_break wake f
loop (updates wake f) = update_loop wake f
loop (updates_breaks_no_wake f) = update_break_no_wake f
loop (updates_no_wake f) = update_no_wake f
loop (sets_no_wake new_state) = set_no_wake new_state

pub data Place : Type 0 where
  idle : Place
  returned : Request → Returned → Place
  -- after a `set` that wakes, with the state that it returns
  swapped : (new_state : ℕ) → (old_state : ℕ) → Place

-- `set`: with no wake it is `update_no_wake`, otherwise a swap of the word.
abbrev pub set_wake : Wake → ℕ → Act Place Request
set_wake wake_none new_state = call (updates_no_wake (λ state. new_state))
set_wake wake_one new_state = set new_state (swapped new_state)
set_wake wake_all new_state = set new_state (swapped new_state)

pub data May : Place → Act Place Request → Type 0 where
  asks : {p : Place} (r : Request) → May p (call r)
  sets : {p : Place} (new_state : ℕ) → May p (set new_state (swapped new_state))
  tries :
      {p : Place} (old_state new_state : ℕ)
      → May p (optimistic old_state new_state (stands idle) (stands idle))

-- A caller may call `set` with any wake.
pub set_wake-May : {p : Place} (wake : Wake) (new_state : ℕ) → May p (set_wake wake new_state)
set_wake-May wake_none new_state = asks (updates_no_wake (λ state. new_state))
set_wake-May wake_one new_state = sets new_state
set_wake-May wake_all new_state = sets new_state

-- Callers that use the operations in any order.
abbrev pub requests : Client
requests = record {
  Place = Place;
  Op = Request;
  start = idle;
  decide = λ r. (loop r).decide;
  wake = λ r. (loop r).wake;
  back = λ r a. returned r ((loop r).finish a);
  May = May;
}

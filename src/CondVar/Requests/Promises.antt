-- ===== src/CondVar/Requests/Promises.antt =====
-- What the operations of src/condvar.rs return, in any interleaving of callers.
use amity.Prelude.{
  ℕ, ◌≡◌, ◌≢◌, Bool, true, Option, none, some, ◌==◌, if◌then◌else◌, refl, sym, ◌∙◌, arith, subst,
}
use amity.Threads.{at-all}
use amity.CondVar.{
  Shared, Word, Pc, outside, deciding, walking, Wake, wake_none, wake_one, wake_all, Decision,
  update, wait, break, unreachable, Answer, updated, stopped, update_or, Move, System, after_update,
  pick, Reach, begin, later, try_update, try_fail, enter, swap, load, exchange, exchange_fail, park,
  park_fail, back_off, stop, stay, rise, walk, walked,
}
use amity.CondVar.Requests.{
  Returned, answer, value, done, unreached, loop, update_break, wake_decision, Request,
  updates_waits_breaks, updates_waits, waits, waits_for, updates_breaks, updates,
  updates_breaks_no_wake, updates_no_wake, sets_no_wake, Place, idle, returned, swapped, sets,
  tries, requests,
}

-- The loop ends with the state on which the closure ended it.
abbrev pub Ends : (ℕ → Decision) → Answer → Type 0
Ends f (updated state) = (new_state : ℕ) × (f state ≡ update new_state)
Ends f (stopped state) = f state ≡ break

-- What `update_break` says of a closure that gives the new state, or nothing to break.
abbrev pub Answers : (ℕ → Option ℕ) → Answer → Type 0
Answers f (updated state) = (new_state : ℕ) × (f state ≡ some new_state)
Answers f (stopped state) = f state ≡ none

-- What an operation promises of its result. None promises anything after an `unreachable!`.
abbrev pub Promised : Request → Returned → Type 0
Promised (updates_waits_breaks wake f total) (answer a) = Ends f a
Promised (updates_waits wake f) (value state) = (new_state : ℕ) × (f state ≡ some new_state)
Promised (waits until) (value state) = until state ≡ true
Promised (waits_for target) (done last_state) = last_state ≡ target
Promised (updates_breaks wake f) (answer a) = Answers f a
Promised (updates wake f) (value state) = Unit
Promised (updates_breaks_no_wake f) (answer a) = Answers f a
Promised (updates_no_wake f) (value state) = Unit
Promised (sets_no_wake new_state) (value state) = Unit
Promised _ _ = ⊥

some_only : (o : Option ℕ) (n : ℕ) → update_or wait o ≡ update n → (m : ℕ) × (o ≡ some m)
some_only (some m) n e = (m, refl)
some_only none n e = absurd (ground arith)

pub no_break : (o : Option ℕ) → update_or wait o ≢ break
no_break o e = ground arith

pub bool_wait : (b : Bool) (n : ℕ) → (if b then break else wait) ≢ update n
bool_wait b n e = ground arith

pub bool_break : (b : Bool) → (if b then break else wait) ≡ break → b ≡ true
bool_break b e = ground arith

some_broken : (o : Option ℕ) (n : ℕ) → update_or break o ≡ update n → (m : ℕ) × (o ≡ some m)
some_broken (some m) n e = (m, refl)
some_broken none n e = absurd (ground arith)

pub none_broken : (o : Option ℕ) → update_or break o ≡ break → o ≡ none
none_broken (some m) e = absurd (ground arith)
none_broken none e = refl

-- With a wake or without, the closure's answer decides the same.
pub decision_same :
    (wake : Wake) (f : ℕ → Option ℕ) (state : ℕ)
    → (update_break wake f).decide state ≡ update_or break (f state)
decision_same wake_none f state = refl
decision_same wake_one f state = woken (f state)
  where
    woken : (o : Option ℕ) → wake_decision wake_one o ≡ update_or break o
    woken (some m) = refl
    woken none = refl
decision_same wake_all f state = woken (f state)
  where
    woken : (o : Option ℕ) → wake_decision wake_all o ≡ update_or break o
    woken (some m) = refl
    woken none = refl

pub finish_same :
    (wake : Wake) (f : ℕ → Option ℕ) (a : Answer) → (update_break wake f).finish a ≡ answer a
finish_same wake_none f a = refl
finish_same wake_one f a = refl
finish_same wake_all f a = refl

Ends-Answers :
    (wake : Wake) (f : ℕ → Option ℕ) (a : Answer)
    → Ends (update_break wake f).decide a
    → Answers f a
Ends-Answers wake f (updated state) (n, e) =
    some_broken (f state) n (sym (decision_same wake f state) ∙ e)
Ends-Answers wake f (stopped state) e = none_broken (f state) (sym (decision_same wake f state) ∙ e)

some_none : {m : ℕ} {B : Type 0} → some m ≡ none → B
some_none e = ground arith

finish-Promised :
    (r : Request) (a : Answer) → Ends (loop r).decide a → Promised r ((loop r).finish a)
finish-Promised (updates_waits_breaks wake f total) a e = e
finish-Promised (updates_waits wake f) (updated state) (n, e) = some_only (f state) n e
finish-Promised (updates_waits wake f) (stopped state) e = absurd (no_break (f state) e)
finish-Promised (waits until) (updated state) (n, e) = absurd (bool_wait (until state) n e)
finish-Promised (waits until) (stopped state) e = bool_break (until state) e
finish-Promised (waits_for target) (updated state) (n, e) = absurd (bool_wait (state == target) n e)
finish-Promised (waits_for target) (stopped state) e =
    let t : (state == target) ≡ true = bool_break (state == target) e in ground arith
finish-Promised (updates_breaks wake f) a e =
    subst (Promised (updates_breaks wake f)) (sym (finish_same wake f a)) (Ends-Answers wake f a e)
finish-Promised (updates wake f) (updated state) e = tt
finish-Promised (updates wake f) (stopped state) e =
    absurd (some_none (Ends-Answers wake (λ s. some (f s)) (stopped state) e))
finish-Promised (updates_breaks_no_wake f) a e = Ends-Answers wake_none f a e
finish-Promised (updates_no_wake f) (updated state) e = tt
finish-Promised (updates_no_wake f) (stopped state) e = absurd (ground arith)
finish-Promised (sets_no_wake new_state) (updated state) e = tt
finish-Promised (sets_no_wake new_state) (stopped state) e = absurd (ground arith)

-- What a caller that has a result, or wakes others before it returns one, was promised.
abbrev Held : Pc Place Request → Type 0
Held (outside (returned r x)) = Promised r x
Held (walking m (returned r x)) = Promised r x
Held _ = Unit

after-Held :
    (r : Request) (cur : Word) (new_state : ℕ)
    → (loop r).decide cur.state ≡ update new_state
    → Held
        (after_update requests (loop r).wake cur (returned r ((loop r).finish (updated cur.state))))
after-Held r cur new_state e = after (loop r).wake
  where
    promise : Promised r ((loop r).finish (updated cur.state))
    promise = finish-Promised r (updated cur.state) (new_state, e)

    after :
        (w : Wake)
        → Held (after_update requests w cur (returned r ((loop r).finish (updated cur.state))))
    after wake_none = promise
    after wake_one = promise
    after wake_all = promise

Move-Held :
    (i : ℕ) (sh sh' : Shared) {p p' : Pc Place Request}
    → Move requests i sh p sh' p'
    → Held p
    → Held p'
Move-Held i sh sh' (try_update (tries o n) e) h = tt
Move-Held i sh sh' (try_fail (tries o n) e) h = tt
Move-Held i sh sh' (enter m) h = tt
Move-Held i sh sh' (swap (sets n)) h = tt
Move-Held i sh sh' load h = tt
Move-Held i sh sh' (exchange {o} {cur} {new_state} e w) h = after-Held o cur new_state e
Move-Held i sh sh' (exchange_fail e) h = tt
Move-Held i sh sh' (park e w) h = tt
Move-Held i sh sh' (park_fail e) h = tt
Move-Held i sh sh' (back_off e) h = tt
Move-Held i sh sh' (stop {o} {cur} e) h = finish-Promised o (stopped cur.state) e
Move-Held i sh sh' (stay e) h = tt
Move-Held i sh sh' (rise e) h = tt
Move-Held i sh sh' (walk {j} {p = idle}) h = tt
Move-Held i sh sh' (walk {j} {p = returned r x}) h = h
Move-Held i sh sh' (walk {j} {p = swapped n o}) h = tt
Move-Held i sh sh' (walked {p = idle}) h = tt
Move-Held i sh sh' (walked {p = swapped n o}) h = tt
Move-Held i sh sh' (walked {p = returned r x}) h = h

Reach-Held : {n : ℕ} {s : System requests} → Reach requests n s → (i : ℕ) → Held (s.pc i)
Reach-Held begin i = tt
Reach-Held (later {s} r (pick j {sh} {p} lt m)) i =
    at-all (λ c q. Held q) s.pc j p (Move-Held j s.shared sh m (Reach-Held r j))
      (λ c ne. Reach-Held r c) i

kept : (r : Request) → ¬ Promised r unreached
kept (updates_waits_breaks wake f total) h = h
kept (updates_waits wake f) h = h
kept (waits until) h = h
kept (waits_for target) h = h
kept (updates_breaks wake f) h = h
kept (updates wake f) h = h
kept (updates_breaks_no_wake f) h = h
kept (updates_no_wake f) h = h
kept (sets_no_wake new_state) h = h

update_break_total : (o : Option ℕ) → update_or break o ≢ unreachable
update_break_total o e = ground arith

decides_total : (r : Request) (state : ℕ) → (loop r).decide state ≢ unreachable
decides_total (updates_waits_breaks wake f total) state e = total state e
decides_total (updates_waits wake f) state e = ground arith
decides_total (waits until) state e = ground arith
decides_total (waits_for target) state e = ground arith
decides_total (updates_breaks wake f) state e =
    update_break_total (f state) (sym (decision_same wake f state) ∙ e)
decides_total (updates wake f) state e =
    update_break_total (some (f state)) (sym (decision_same wake (λ s. some (f s)) state) ∙ e)
decides_total (updates_breaks_no_wake f) state e = update_break_total (f state) e
decides_total (updates_no_wake f) state e = ground arith
decides_total (sets_no_wake new_state) state e = ground arith

-- In any interleaving of callers, a call that has returned has kept its promise: `update_wait` returns a
-- state for which the closure had a new one, `wait` one at which the closure holds, `wait_for` has read its
-- target, and `update_wait_break` and `update_break` say truly whether the closure updated or broke, and
-- at which state. No call comes to an `unreachable!`, in its loop or after it.
pub request_returns :
    {n : ℕ} {s : System requests}
    → Reach requests n s
    → ((i : ℕ) (r : Request) (x : Returned)
        → s.pc i ≡ outside (returned r x)
        → Promised r x × (x ≢ unreached))
      × ((i : ℕ) (r : Request) (cur : Word)
          → s.pc i ≡ deciding r cur
          → (loop r).decide cur.state ≢ unreachable)
request_returns reach = (
  λ i r x e. let h = subst Held e (Reach-Held reach i) in (h, λ c. kept r (subst (Promised r) c h)),
  λ i r cur e. decides_total r cur.state,
)

-- ===== src/CondVar/Requests/Tests.antt =====
-- The operations of src/condvar.rs with two callers: one counts the state up and wakes, the other waits for
-- the new state.
use amity.Prelude.{◌+◌, ◌≡◌, none, some, refl, arith}
use amity.Threads.{at}
use amity.CondVar.{
  outside, loading, deciding, wake_none, wake_one, wake_all, update, wait, break, unreachable,
  updated, stopped, null_state, zero_word, new_word, enter, load, exchange, stop, walked, walking,
  call, set, Move, System, pick, Reach, begin, later,
}
use amity.CondVar.Requests.{
  value, done, unreached, err_state, update_break, update_break_wake, update_wait, set_no_wake,
  set_wake, Request, waits_for, updates, updates_no_wake, idle, returned, swapped, asks, requests,
}

loops_run :
    ((update_break wake_none (λ s. some (s + 1))).decide 4 ≡ update 5)
    × ((update_break wake_all (λ s. none)).decide 4 ≡ break)
    × ((update_break_wake wake_none (λ s. some 3)).decide 4 ≡ unreachable)
    × ((update_wait wake_one (λ s. none)).decide 4 ≡ wait)
    × ((set_no_wake 9).decide 4 ≡ update 9)
    × ((set_no_wake 9).finish (updated 4) ≡ value 4)
    × ((set_no_wake 9).finish (stopped 4) ≡ unreached)
    × (err_state (stopped 2) ≡ value 2)
loops_run = (refl, refl, refl, refl, refl, refl, refl, refl)

set_runs :
    (set_wake wake_none 7 ≡ call (updates_no_wake (λ s. 7)))
    × (set_wake wake_all 7 ≡ set 7 (swapped 7))
set_runs = (refl, refl)

abbrev count_up : Request
count_up = updates wake_one (λ s. s + 1)

abbrev counted : System requests
counted = record {
  shared = record zero_word { word = null_state 1 };
  pc =
      at
        (at
          (at
            (at
              (at
                (at (at (λ i. outside idle) 1 (loading count_up)) 1
                  (deciding count_up (null_state 0)))
                1 (walking none (returned count_up (value 0))))
              1 (outside (returned count_up (value 0))))
            0 (loading (waits_for 1)))
          0 (deciding (waits_for 1) (null_state 1)))
        0 (outside (returned (waits_for 1) (done 1)));
}

counted-Reach : Reach requests 2 counted
unfolding new_word
counted-Reach =
    later
      (later
        (later
          (later
            (later
              (later (later begin (pick 1 (omega arith) (enter (asks count_up))))
                (pick 1 (omega arith) load))
              (pick 1 (omega arith) (exchange refl refl)))
            (pick 1 (omega arith) walked))
          (pick 0 (omega arith) (enter (asks (waits_for 1)))))
        (pick 0 (omega arith) load))
      (pick 0 (omega arith) (stop refl))

-- The caller that counts up has read the word, and comes to its result.
abbrev reading : System requests
reading = record {
  shared = zero_word;
  pc = at (at (λ i. outside idle) 1 (loading count_up)) 1 (deciding count_up (null_state 0));
}

reading_result :
    Move requests 1 reading.shared
      (reading.pc 1)
      (record zero_word { word = null_state 1 })
      (walking none (returned count_up (value 0)))
unfolding new_word
reading_result = exchange refl refl

-- ===== src/FlipQueue/Claims.antt =====
-- `push_sync` and `pop_sync` of `FlipBuffer` in src/flip_queue.rs in two steps each: the claim of an index by
-- `fetch_add`, and the access of memory at that index. Any number of callers run them at once, as they
-- do under the read lock of `FlipQueue`.
pub mod Inv
pub mod Access
pub mod Write
pub mod Serial
pub mod Safety
mod Tests
use amity.Prelude.{
  ℕ, suc, ◌≡◌, List, [], ◌∷◌, ◌++◌, Option, none, some, Outcome, ok, ◌>>=◌, if◌then◌else◌, ltb,
  length, add_word, sub_word,
}
use amity.Threads.{at}
use amity.RingBuffer.{ring_index, read_slot, write_slot}
use amity.FlipQueue.{FlipBuffer}

module _ {A : Type 0} where
  -- The index that a push gets, where there is room, and the counted buffer.
  pub claim_push : FlipBuffer A → Option ℕ × FlipBuffer A
  claim_push fb =
      let counted = record fb { pushed = add_word fb.pushed 1 } in
      if ltb fb.pushed (sub_word (length fb.buffer.array) fb.buffer.len)
      then (some fb.pushed, counted)
      else (none, counted)

  abbrev pub push_index : ℕ → FlipBuffer A → ℕ
  push_index pushed fb =
      ring_index fb.buffer.head (add_word fb.buffer.len pushed) (length fb.buffer.array)

  pub write_claimed : ℕ → A → FlipBuffer A → Outcome (FlipBuffer A)
  write_claimed pushed value fb = do
    array ← write_slot fb.buffer.array (push_index pushed fb) value
    ok (record fb { buffer = record fb.buffer { array = array } })

  -- The index that a pop gets, where there is a value.
  pub claim_pop : FlipBuffer A → Option ℕ × FlipBuffer A
  claim_pop fb =
      let counted = record fb { popped = add_word fb.popped 1 } in
      if ltb fb.popped fb.buffer.len then (some fb.popped, counted) else (none, counted)

  abbrev pub pop_index : ℕ → FlipBuffer A → ℕ
  pop_index popped fb = ring_index fb.buffer.head popped (length fb.buffer.array)

  pub read_claimed : ℕ → FlipBuffer A → Outcome A
  read_claimed popped fb = read_slot fb.buffer.array (pop_index popped fb)

-- Where a caller stands: outside, or between its claim and its access.
pub data Pc (A : Type 0) : Type 0 where
  outside : Pc A
  writing : (value : A) (pushed : ℕ) → Pc A
  reading : (popped : ℕ) → Pc A

-- `put_in` are the values that got an index, in the order of the claims.
pub record System (A : Type 0) : Type 0 where
  pub buffer : FlipBuffer A
  pub pc : ℕ → Pc A
  pub put_in : List A

module _ {A : Type 0} where
  pub data Step (s : System A) : System A → Type 0 where
    push :
        {i n : ℕ} {fb : FlipBuffer A} (value : A)
        → s.pc i ≡ outside
        → claim_push s.buffer ≡ (some n, fb)
        → Step s (record {
          buffer = fb;
          pc = at s.pc i (writing value n);
          put_in = s.put_in ++ value ∷ [];
        })
    push_full :
        {i : ℕ} {fb : FlipBuffer A} (value : A)
        → s.pc i ≡ outside
        → claim_push s.buffer ≡ (none, fb)
        → Step s (record s { buffer = fb })
    write :
        {i n : ℕ} {value : A} {fb : FlipBuffer A}
        → s.pc i ≡ writing value n
        → write_claimed n value s.buffer ≡ ok fb
        → Step s (record s { buffer = fb; pc = at s.pc i outside })
    pop :
        {i n : ℕ} {fb : FlipBuffer A}
        → s.pc i ≡ outside
        → claim_pop s.buffer ≡ (some n, fb)
        → Step s (record s { buffer = fb; pc = at s.pc i (reading n) })
    pop_none :
        {i : ℕ} {fb : FlipBuffer A}
        → s.pc i ≡ outside
        → claim_pop s.buffer ≡ (none, fb)
        → Step s (record s { buffer = fb })
    read :
        {i n : ℕ} {value : A}
        → s.pc i ≡ reading n
        → read_claimed n s.buffer ≡ ok value
        → Step s (record s { pc = at s.pc i outside })

  -- The states that a number of steps reaches from a buffer on which nobody is at work.
  pub data Reach (start : FlipBuffer A) : ℕ → System A → Type 0 where
    begin : Reach start 0 (record { buffer = start; pc = λ i. outside; put_in = [] })
    later : {k : ℕ} {s t : System A} → Reach start k s → Step s t → Reach start (suc k) t

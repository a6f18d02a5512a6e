-- ===== src/CondVar/Packed/Tests.antt =====
-- The merged words of src/condvar.rs: one caller waits, and another one has read the word with its node.
use amity.Prelude.{ℕ, ◌+◌, ◌*◌, ◌≡◌, ◌≢◌, inl, inr, some, refl, arith}
use native.Mathlib.Nat.{mul-mod_left}
use amity.Threads.{at}
use amity.StatePtr.{new, ptr, state, compare_exchange}
use amity.CondVar.{
  Word, Wake, wake_one, outside, loading, deciding, sleeping, null_state, zero_word, enlist,
  new_word, enter, load, park, System, pick, Reach, begin, later,
}
use amity.CondVar.Requests.{Request, waits_for, updates, idle, asks, requests}
use amity.CondVar.Packed.{Frames, packed, pointer, stored, parked}
use amity.CondVar.Packed.Reachable.{word_packed}

abbrev frames : Frames 2
frames = record {
  address = λ i. (i + 1) * 256;
  aligned = λ i lt. mul-mod_left (i + 1) 256;
  inside = λ i lt. omega arith;
  nonnull = λ i lt. omega arith;
  apart = λ i j lt lt' e. omega arith;
}

abbrev count_up : Request
count_up = updates wake_one (λ s. s + 1)

abbrev one_waits : Word
one_waits = record { head = some 0; state = 0 }

abbrev both : System requests
both = record {
  shared = enlist 0 (null_state 0) zero_word;
  pc =
      at
        (at
          (at
            (at (at (λ i. outside idle) 0 (loading (waits_for 1))) 0
              (deciding (waits_for 1) (null_state 0)))
            0 (sleeping (waits_for 1)))
          1 (loading count_up))
        1 (deciding count_up one_waits);
}

both-Reach : Reach requests 2 both
unfolding enlist
both-Reach =
    later
      (later
        (later
          (later (later begin (pick 0 (omega arith) (enter (asks (waits_for 1)))))
            (pick 0 (omega arith) load))
          (pick 0 (omega arith) (park refl refl)))
        (pick 1 (omega arith) (enter (asks count_up))))
      (pick 1 (omega arith) load)

packed_runs : packed frames.address one_waits ≡ 256
unfolding new
packed_runs = refl

word_packed_example :
    (ptr 8 (packed frames.address both.shared.word) ≡ pointer frames.address both.shared.word.head)
    × (state 8 (packed frames.address both.shared.word) ≡ both.shared.word.state)
    × (both.shared.word ≡ one_waits
        → compare_exchange
            (packed frames.address one_waits)
            (packed frames.address (null_state 1))
            (packed frames.address both.shared.word)
          ≡ (inl (packed frames.address one_waits), packed frames.address (null_state 1)))
    × (both.shared.word ≢ one_waits
        → compare_exchange
            (packed frames.address one_waits)
            (packed frames.address (null_state 1))
            (packed frames.address both.shared.word)
          ≡ (inr (packed frames.address both.shared.word), packed frames.address both.shared.word))
    × ((w : Wake) (k : ℕ)
        → stored w (packed frames.address one_waits) k
          ≡ packed frames.address (new_word w one_waits k))
    × (parked (frames.address 1) (packed frames.address one_waits)
        ≡ packed frames.address (enlist 1 one_waits both.shared).word)
word_packed_example =
    word_packed requests frames both-Reach 1 count_up one_waits refl (null_state 1)

-- ===== src/CondVar/Packed/Reachable.antt =====
-- The words of src/condvar.rs that callers come to fit in a merged word, and its accesses are those of the
-- steps.
use amity.Prelude.{ℕ, ◌<◌, ◌≡◌, ◌≢◌, inl, inr, some, arith, subst}
use native.Mathlib.Nat.{mod-lt}
use amity.Threads.{at-all}
use amity.StatePtr.{ptr, state, compare_exchange}
use amity.CondVar.{
  Word, Shared, Pc, deciding, Wake, wake_none, wake_one, wake_all, new_word, null_state, enlist,
  wake_node, Next, stands, calls, goto, Client, Move, System, pick, Reach, begin, later, try_update,
  try_fail, enter, swap, load, exchange, exchange_fail, park, park_fail, back_off, stop, stay, rise,
  walk, walked, after_update,
}
use amity.CondVar.Packed.{
  Frames, pointer, packed, stored, parked, Fits, parts, exchange-packed, stored-packed,
  parked-packed,
}

some_lt : {i j n : ℕ} → some i ≡ some j → i < n → j < n
some_lt e lt = ground arith

null-Fits : (n k : ℕ) → Fits n (null_state k)
null-Fits n k = record { state_low = mod-lt k (omega arith); head_in = λ i e. ground arith }

module _ (c : Client) where
  open c use {Place, Op, wake}

  -- A caller decides on a word that fits.
  abbrev Cur : ℕ → Pc Place Op → Type 0
  Cur n (deciding o cur) = Fits n cur
  Cur n _ = Unit

  new_word-Fits : {n : ℕ} (w : Wake) (cur : Word) (k : ℕ) → Fits n cur → Fits n (new_word w cur k)
  unfolding new_word
  new_word-Fits {n} wake_none cur k fits = record {
    state_low = mod-lt k (omega arith);
    head_in = fits.head_in;
  }
  new_word-Fits {n} wake_one cur k fits = null-Fits n k
  new_word-Fits {n} wake_all cur k fits = null-Fits n k

  enlist-Fits :
      {n i : ℕ} (cur : Word) (sh : Shared) → i < n → Fits n cur → Fits n (enlist i cur sh).word
  unfolding enlist
  enlist-Fits cur sh lt fits = record { state_low = fits.state_low; head_in = λ j e. some_lt e lt }

  after-Cur : (n : ℕ) (w : Wake) (cur : Word) (p : Place) → Cur n (after_update c w cur p)
  after-Cur n wake_none cur p = tt
  after-Cur n wake_one cur p = tt
  after-Cur n wake_all cur p = tt

  goto-Cur : (n : ℕ) (next : Next Place Op) → Cur n (goto next)
  goto-Cur n (stands p) = tt
  goto-Cur n (calls o) = tt

  Move-Fits :
      {n i : ℕ} {sh sh' : Shared} {p p' : Pc Place Op}
      → i < n
      → Move c i sh p sh' p'
      → Fits n sh.word
      → Cur n p
      → Fits n sh'.word × Cur n p'
  unfolding wake_node
  Move-Fits {n} lt (try_update {old_state} {new_state} {won} m e) f h =
      (null-Fits n new_state, goto-Cur n won)
  Move-Fits {n} lt (try_fail {lost} m e) f h = (f, goto-Cur n lost)
  Move-Fits lt (enter m) f h = (f, tt)
  Move-Fits {n} lt (swap {new_state} m) f h = (null-Fits n new_state, tt)
  Move-Fits lt load f h = (f, f)
  Move-Fits {n} lt (exchange {o} {cur} {new_state} e w) f h =
      (new_word-Fits (wake o) cur new_state h, after-Cur n (wake o) cur _)
  Move-Fits lt (exchange_fail e) f h = (f, f)
  Move-Fits {sh} lt (park {cur} e w) f h = (enlist-Fits cur sh lt h, tt)
  Move-Fits lt (park_fail e) f h = (f, f)
  Move-Fits lt (back_off e) f h = (f, tt)
  Move-Fits lt (stop e) f h = (f, tt)
  Move-Fits lt (stay e) f h = (f, tt)
  Move-Fits lt (rise e) f h = (f, tt)
  Move-Fits lt walk f h = (f, tt)
  Move-Fits lt walked f h = (f, tt)

  Reach-Fits :
      {n : ℕ} {s : System c} → Reach c n s → Fits n s.shared.word × ((i : ℕ) → Cur n (s.pc i))
  Reach-Fits {n} begin = (null-Fits n 0, λ i. tt)
  Reach-Fits {n} (later {s} r (pick i {sh} {p} lt m)) =
      let (f, h) = Reach-Fits r in
      let (f', h') = Move-Fits lt m f (h i) in
      (f', at-all (λ j q. Cur n q) s.pc i p h' (λ j ne. h j))

  -- In every state that callers reach, the merged word in memory holds the head of the list and the state,
  -- and they come back from it. For a caller that is at the head of its loop, with the merged word that it
  -- read: a compare-exchange of merged words with any new one succeeds exactly when the head and the state are
  -- those that it read, and then stores the new one; what it stores to update, with each wake, and
  -- to park holds the word of the steps. This is for callers whose nodes stand at aligned addresses that
  -- differ and are not null.
  pub word_packed :
      {n : ℕ} (frames : Frames n) {s : System c}
      → Reach c n s
      → (i : ℕ) (o : Op) (cur : Word) → s.pc i ≡ deciding o cur
      → (next : Word)
      → (ptr 8 (packed frames.address s.shared.word) ≡ pointer frames.address s.shared.word.head)
        × (state 8 (packed frames.address s.shared.word) ≡ s.shared.word.state)
        × (s.shared.word ≡ cur
            → compare_exchange
                (packed frames.address cur)
                (packed frames.address next)
                (packed frames.address s.shared.word)
              ≡ (inl (packed frames.address cur), packed frames.address next))
        × (s.shared.word ≢ cur
            → compare_exchange
                (packed frames.address cur)
                (packed frames.address next)
                (packed frames.address s.shared.word)
              ≡ (inr (packed frames.address s.shared.word), packed frames.address s.shared.word))
        × ((w : Wake) (k : ℕ)
            → stored w (packed frames.address cur) k ≡ packed frames.address (new_word w cur k))
        × (parked (frames.address i) (packed frames.address cur)
            ≡ packed frames.address (enlist i cur s.shared).word)
  word_packed frames {s} r i o cur e next =
      let (f, h) = Reach-Fits r in
      let g = subst (Cur _) e (h i) in
      let (p, q) = parts frames s.shared.word f in
      let (hit, miss) = exchange-packed frames s.shared.word cur next f g in
      (
        p,
        q,
        hit,
        miss,
        λ w k. stored-packed frames w cur k g,
        parked-packed frames i cur s.shared g,
      )

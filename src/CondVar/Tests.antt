-- ===== src/CondVar/Tests.antt =====
-- src/condvar.rs on small inputs.
use amity.Prelude.{◌≡◌, refl, some, none, true, ◌+◌}
use amity.CondVar.{
  Word, wake_none, wake_one, wake_all, update, wait, break, update_or_wait, break_at,
  update_or_break, always_update, null_state, new_word, enlist, wake_node, zero_word, load_state,
}

abbrev listed : Word
listed = record { head = some 7; state = 3 }

new_word_runs :
    (new_word wake_none listed 260 ≡ record { head = some 7; state = 4 })
    × (new_word wake_one listed 260 ≡ null_state 4)
    × (new_word wake_all listed 1 ≡ null_state 1)
unfolding new_word
new_word_runs = (refl, refl, refl)

enlist_runs :
    (load_state (enlist 2 listed zero_word).word ≡ 3)
    × ((wake_node 2 (enlist 2 listed zero_word)).0 ≡ some 7)
    × (((wake_node 2 (enlist 2 listed zero_word)).1.nodes 2).ready ≡ true)
unfolding enlist wake_node
enlist_runs = (refl, refl, refl)

closures_run :
    (break_at 3 3 ≡ break)
    × (break_at 3 2 ≡ wait)
    × (update_or_wait (λ s. none) 1 ≡ wait)
    × (update_or_break (λ s. none) 1 ≡ break)
    × (always_update (λ s. s + 1) 1 ≡ update 2)
closures_run = (refl, refl, refl, refl, refl)

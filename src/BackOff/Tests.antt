-- ===== src/BackOff/Tests.antt =====
-- The waiting hint of src/backoff.rs, at some waits.
use amity.Prelude.{◌≡◌, refl, false}
use amity.BackOff.{new, reset, should_block, waits}

reset_runs : should_block (reset (waits 20 new)) ≡ false
unfolding should_block
reset_runs = refl

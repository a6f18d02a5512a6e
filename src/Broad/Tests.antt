-- ===== src/Broad/Tests.antt =====
-- The broadcasting channel of src/broad.rs, its theorems at concrete inputs.
use amity.Prelude.{ℕ, ◌≡◌, refl, Bool, true, false, Outcome, ok, ◌>>=◌}
use amity.Triple.{zero, one, three, set, publish, consume, consumed, from_bits_unchecked}
use amity.Broad.{
  Broadcast, read, recv_into, last, write, send, update_consumer, report, cached_new, cached_update,
}
use amity.Broad.Versions.{Ready}

abbrev channel : Broadcast ℕ
channel = record {
  buffer = record { elements = three (1, 0) (2, 0) (3, 0); flags = 0 };
  consumer = one;
}

abbrev channel-Ready : Ready channel
channel-Ready = record { middle = zero; fresh = false; flags_eq = refl }

-- A cache that is made, and updated after 7 is sent.
cached_run : Outcome (Bool × ℕ)
cached_run = do
  (c, b) ← cached_new (record { version = 0 }) channel
  w ← send 7 zero 0 b
  (updated, c, _) ← cached_update c w.after
  ok (updated, c.local)

cached_run_lem : cached_run ≡ ok (true, 7)
unfolding cached_run cached_new cached_update last recv_into send write read update_consumer report
    publish consume consumed from_bits_unchecked set
cached_run_lem = refl

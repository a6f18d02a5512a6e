-- ===== src/Broad/Handles/Tests.antt =====
-- The handles of src/broad.rs on a channel with three different indices.
use amity.Prelude.{ℕ, ◌+◌, ◌≡◌, refl, Bool, true, false, Outcome, ok, ◌>>=◌}
use amity.Triple.{zero, one, three, set, publish, consume, consumed, from_bits_unchecked}
use amity.Broad.{
  Broadcast, Receiver, read, recv_into, last, write, update_consumer, report, cached_new,
}
use amity.Broad.Handles.{
  into_sender, receiver_clone, receiver_read, receiver_recv_into, receiver_last, sender_write,
  cached, cached_clone, cached_get, cached_from,
}

abbrev channel : Broadcast ℕ
channel = record {
  buffer = record { elements = three (1, 0) (2, 0) (3, 0); flags = 0 };
  consumer = one;
}

abbrev fresh : Receiver
fresh = record { version = 0 }

-- The first element is raised by 5 and read in four ways.
handles_run : Outcome ((ℕ × Bool) × (Bool × ℕ) × ℕ × ℕ × ℕ)
handles_run = do
  (s, b) ← sender_write (λ x. x + 5) (into_sender zero 0) channel
  (seen, r, b) ← receiver_read fresh b
  (again, _, b) ← receiver_recv_into 9 (receiver_clone r) b
  (value, _, b) ← receiver_last r b
  (c, b) ← cached s b
  (d, _) ← cached_from r b
  ok (seen, again, value, cached_get (cached_clone c), d.local)

handles_run_lem : handles_run ≡ ok ((6, true), (false, 9), 6, 6, 6)
unfolding handles_run sender_write receiver_read receiver_recv_into receiver_last cached cached_from
    cached_new last recv_into write read update_consumer report publish consume consumed
    from_bits_unchecked set
handles_run_lem = refl

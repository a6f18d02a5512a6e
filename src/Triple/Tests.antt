-- ===== src/Triple/Tests.antt =====
-- The triple buffer of src/triple.rs, its theorems at concrete inputs.
use amity.Prelude.{ℕ, ◌≡◌, ◌≢◌, refl, true, false, none, some, ok, panic, Returns}
use amity.Triple.{
  zero, one, two, TripleBuffer, three, put, new, set, publish, consume, from_bits,
  from_bits_unchecked, recv, default_buffer, new_none, uninit,
}
use amity.Triple.Mailbox.{Mailbox, take}
use amity.Triple.Refine.{Shows}
use amity.Triple.Recv.{recv_stale}
use amity.Triple.System.{
  System, write, initial, Reach, here, later, Moves, Simulates, Posted, Taken, rest, write_on,
  Reach-refines, delivery,
}

from_bits_runs : (from_bits 2 ≡ ok two) × (from_bits 3 ≡ panic)
unfolding from_bits
from_bits_runs = (refl, refl)

-- The other constructors start as `new` does.
starts_run :
    (default_buffer {A = ℕ} 7 ≡ new 7 7 7)
    × (new_none {A = ℕ} ≡ new none none none)
    × (uninit {A = ℕ} ≡ new none none none)
unfolding default_buffer new_none uninit new
starts_run = (refl, refl, refl)

-- 10 has been published, and not consumed.
abbrev posted : TripleBuffer ℕ
posted = record { elements = three 10 20 30; flags = 4 }

abbrev posted_mailbox : Mailbox ℕ
posted_mailbox = record { writing = 20; posted = 10; reading = 30; fresh = true }

posted-Shows : Shows posted one two posted_mailbox
posted-Shows = record {
  middle = zero;
  flags_eq = refl;
  sides_apart = λ e. cc;
  producer_apart = λ e. cc;
  consumer_apart = λ e. cc;
  writing_eq = refl;
  posted_eq = refl;
  reading_eq = refl;
}

recv_stale_example :
    Returns
      (recv 0 two posted)
      (λ o. (o.1 ≡ some 30) × Shows o.2 one o.0 (record (take posted_mailbox) { posted = 0 }))
recv_stale_example = recv_stale posted one two posted_mailbox posted-Shows 0

-- The producer of a new buffer has written 5.
abbrev started : System ℕ
started = record { buffer = set one 5 (new 1 2 3); producer = one; consumer = two }

started-Reach : Reach (initial 1 2 3) started
started-Reach = later here (write 5)

-- It then publishes it.
abbrev sent : TripleBuffer ℕ
sent = record { elements = put (three 1 2 3) one 5; flags = 5 }

publish_runs : publish one started.buffer ≡ ok (zero, true, sent)
unfolding publish set new from_bits_unchecked
publish_runs = refl

Reach-refines_example :
    (m : Mailbox ℕ) × Moves (record { writing = 2; posted = 1; reading = 3; fresh = false }) m
    × Simulates started m
    × (started.producer ≢ started.consumer)
    × Returns (publish one started.buffer) (Posted started m)
    × Returns (consume two started.buffer) (Taken started m)
Reach-refines_example = Reach-refines 1 2 3 started-Reach

delivery_example :
    Returns (consume two (set zero 9 sent)) (λ o. (o.1 ≡ true) × (o.2.elements o.0 ≡ 5))
unfolding set new
delivery_example = delivery 1 2 3 started-Reach publish_runs (write_on 9 rest)

-- ===== src/Lib.antt =====
-- A model of the concurrency algorithms of the crate, and what they guarantee.
--
-- The parts. The ring buffer is a growable array with a head and a length; the flip queue puts atomic
-- counts on it, so that several threads push and pop through a shared borrow, and behind a read-write
-- lock. The triple buffer hands values from one producer to one consumer through three elements and one
-- byte of flags; the broadcasting channel shares its consumer's side among receivers, with a version
-- for each value. The spin locks are one flag and one word. The state pointer keeps a state in the low
-- bits of an aligned pointer; the back-off counts waits. The condition variable keeps a state of
-- eight bits and a list of waiting callers in one such word; the mutex and the read-write lock are two
-- users of it. The arena keeps values under numbers and links its vacant slots.
--
-- The files, with the code that they model:
--   Prelude      shared names, lists under native indices, outcomes (a value, a panic, undefined
--                behaviour), 64-bit words
--   RingBuffer   src/ring_buffer.rs: `RingBuffer`, `ring_index`, `new_cap`, `drop_two_slices`;
--                RingBuffer/Drain, RingBuffer/Iter and RingBuffer/IterMut are its iterators,
--                RingBuffer/IterMut/Step the steps and loops of the last
--   FlipQueue    src/flip_queue.rs: `FlipBuffer`, and the shared operations of `FlipQueue`;
--                FlipQueue/Shared has these under any number of callers; FlipQueue/Claims has the
--                shared operations of `FlipBuffer` with the claim and the access of memory apart;
--                FlipQueue/Exclusive has the methods that borrow the queue exclusively
--   Triple       src/triple.rs: `TripleBuffer`, `Idx`; Triple/Handles has the producer's and the
--                consumer's handle, Triple/Mailbox what is promised, Triple/System the two sides at work
--   Broad        src/broad.rs: `Broadcast`, `Sender`, `Receiver`, `Cached`; Broad/Start is a new
--                channel, Broad/Handles has the methods of the handles, Broad/Shared the sender and
--                several receivers at work
--   Spin         src/spin.rs: Spin/Mutex is `RawSpin`, Spin/Rw is `RawRwSpin`; Threads has the sums over
--                callers that both use; each has its Progress
--   StatePtr     src/state_ptr.rs: `State`, `PtrState`, `AtomicPtrState`; Bits has masks as remainders
--   BackOff      src/backoff.rs
--   CondVar      src/condvar.rs: the nodes, the loop of `update_wait_break_park`, and `set`, as steps;
--                CondVar/Requests has its operations, and in Effects what their results say of the
--                word, CondVar/Packed the word in memory,
--                CondVar/Chain the lists of nodes, CondVar/Waiters, Listed and Reachable who is on
--                them, CondVar/Wakeups and Progress what the callers are promised
--   Mutex        src/mutex.rs: `RawMutex`, as a user of CondVar; Mutex/Safety and Progress
--   RwLock       src/rwlock.rs: `RawRwLock`, as a user of CondVar
--   Arena        src/arena.rs: `Arena`, `Slot`; Arena/Slots is the free list, Arena/Laws what is promised
--   Samples      concrete buffers for the tests; each Tests module runs its part on small inputs
--
-- How the code reads in the model. A method that takes `&mut self` takes the state and returns it
-- changed. A slot of a ring buffer is `none` while it was never written, and to read it, or to index out
-- of bounds without a check, is `undefined`; a panic is `panic`. A clone of a value is the value. What
-- is dropped is listed in the results of the operations that drop; a destructor does not panic. `usize`
-- is a number below `2 ^ 64`, and sums and differences wrap round; the flags of the triple buffer are
-- small enough to be numbers.
--
-- Threads. A step is one atomic access, with what its caller computes up to the next one, and steps of
-- any callers follow each other in any order; orderings weaker than sequential consistency are not
-- modelled. FlipQueue/Shared steps from one locked section to the next, with a shared operation of the
-- flip buffer in one step, at its `fetch_add`; a section under the write lock waits for the read
-- locks. In FlipQueue/Claims the access of the slot is a step of its own, and the calls are those
-- between two sections under the write lock. A call of `Broadcast` has its lock at once in Broad; in
-- Broad/Shared the receivers wait for it, with the sender at work. The node of a caller that waits on a condition variable is addressed by the number of the caller, so that a node
-- that comes back stands at its old address. The steps leave open whether such a caller backs off or
-- parks, and when a parked thread looks at its node again.
--
-- Parameters. `Alloc` stands for the element's size and for `Vec::with_capacity`, which gives at least
-- the capacity that was asked for, or panics. `debug` says whether debug assertions are on, and
-- `destructor` whether the type of an arena's values has one. The closures of callers are functions, or, in the loops
-- of the locks, any sequence of answers; that of `drain_locking` takes some values and drops the
-- iterator. `Client` stands for the users of a condition variable: their closures, and what they do
-- between the calls.
--
-- Bounds. The read-write lock has at most `shared_lock_threshold` callers, as its code asks; the counts of
-- a flip buffer and the versions of a channel are taken below the overflow of their words where a
-- theorem says so. No operation has fuel; the loop over an iterator has, and more than the number of
-- items is enough.
--
-- Not modelled: src/cache.rs (alignment), the raw accessors of the ring buffer, writes through `IterMut`
-- but in `for_each`, `fold` and `rfold`, its `all`, `any`, `find`, `position` and `rposition`, the wrappers for `lock_api` (they call the methods of the same
-- name), fairness of the schedule, src/park.rs (calls of the operating system),
-- src/sync.rs and src/sync_loom.rs (names of atomics). The crate's root does not declare src/condvar.rs,
-- src/mutex.rs, src/rwlock.rs and src/arena.rs either; the first calls `merge_ordering` and
-- `lock_free_wait`, which no file defines: they choose an ordering and wait.
pub mod Prelude
pub mod RingBuffer
pub mod Triple
mod Threads
mod Samples
pub mod Spin
pub mod FlipQueue
pub mod Broad
pub mod Arena
pub mod BackOff
mod Bits
pub mod StatePtr
pub mod CondVar
pub mod Mutex
pub mod RwLock

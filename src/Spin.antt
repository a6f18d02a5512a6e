-- ===== src/Spin.antt =====
-- src/spin.rs: the spin lock `RawSpin` and the read-write spin lock `RawRwSpin`. Every atomic access
-- is one step, and the steps of any number of callers interleave.
pub mod Mutex
pub mod Rw

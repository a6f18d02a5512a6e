-- ===== src/StatePtr.antt =====
-- src/state_ptr.rs: a pointer and a state in one word. A type's alignment is `2 ^ k`; a pointer is
-- its address. The atomic operations are on the cell that holds the word, one access each.
pub mod Parts
pub mod Cells
mod Tests
use amity.Prelude.{
  ℕ, ◌-◌, ◌^◌, Bool, Option, none, some, if◌then◌else◌, ◌==◌, ◌⊎◌, inl, inr, bit_and, add_word,
  sub_word,
}

-- `align_of::<T>() - 1`, for a type of alignment `2 ^ k`.
abbrev pub state_mask : ℕ → ℕ
state_mask k = 2 ^ k - 1

-- `align_of::<T>().trailing_zeros()`.
abbrev pub state_bits : ℕ → ℕ
state_bits k = k

-- `State::new` and `State::new_truncated`. A state is its value.
pub state_new : ℕ → ℕ → Option ℕ
state_new k value = if bit_and value (state_mask k) == value then some value else none

pub new_truncated : ℕ → ℕ → ℕ
new_truncated k value = bit_and value (state_mask k)

-- `State::zero`, and `State::value` with the conversion to `usize`.
abbrev pub state_zero : ℕ
state_zero = 0

abbrev pub state_value : ℕ → ℕ
state_value state = state

-- `PtrState::new`, `new_zero`, `null_state`: the merged word.
unfoldable pub new : ℕ → ℕ → ℕ
new ptr state = add_word ptr state

pub new_zero : ℕ → ℕ
new_zero ptr = ptr

unfoldable pub null_state : ℕ → ℕ
unfolding new
null_state state = new 0 state

abbrev pub null_zero : ℕ
null_zero = 0

-- A raw pointer keeps the state bits that it has.
abbrev pub from_raw : ℕ → ℕ
from_raw ptr = ptr

abbrev pub raw : ℕ → ℕ
raw s = s

pub state : ℕ → ℕ → ℕ
state k s = bit_and s (state_mask k)

pub ptr : ℕ → ℕ → ℕ
ptr k s = let low = bit_and s (state_mask k) in sub_word s low

unfoldable pub with_state : ℕ → ℕ → ℕ → ℕ
unfolding new ptr
with_state k s st = new (ptr k s) st

pub with_ptr : ℕ → ℕ → ℕ → ℕ
unfolding new state
with_ptr k s p = new p (state k s)

-- The result of an atomic access, and the cell after it.
pub load : ℕ → ℕ × ℕ
load cell = (cell, cell)

pub store : ℕ → ℕ → ℕ
store value cell = value

pub swap : ℕ → ℕ → ℕ × ℕ
swap value cell = (cell, value)

-- The left side is `Ok`.
unfoldable pub compare_exchange : ℕ → ℕ → ℕ → (ℕ ⊎ ℕ) × ℕ
compare_exchange current value cell =
    if cell == current then (inl cell, value) else (inr cell, cell)

-- The weak one may fail on an equal word: `spurious` says whether it does.
pub compare_exchange_weak : Bool → ℕ → ℕ → ℕ → (ℕ ⊎ ℕ) × ℕ
unfolding compare_exchange
compare_exchange_weak spurious current value cell =
    if spurious then (inr cell, cell) else compare_exchange current value cell

-- The cells that the constructors of `AtomicPtrState` make.
abbrev pub cell_null_zero : ℕ
cell_null_zero = 0

pub cell_new : ℕ → ℕ → ℕ
cell_new ptr state = add_word ptr state

pub cell_null_state : ℕ → ℕ
unfolding cell_new
cell_null_state state = cell_new 0 state

abbrev pub cell_new_zero : ℕ → ℕ
cell_new_zero ptr = ptr

abbrev pub cell_from_raw : ℕ → ℕ
cell_from_raw ptr = ptr

abbrev pub cell_from_ptr_state : ℕ → ℕ
cell_from_ptr_state ptr_state = raw ptr_state

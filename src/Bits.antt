-- ===== src/Bits.antt =====
-- `bit_and` with a mask of ones is a remainder, at every width.
use Prim.Native.Nat.{digits, bit_and-bitwise}
use native.Mathlib.Nat.{div-add-mod, pow-suc, mul-add-mod_self_left, mod-eq_of_lt, mod-lt}
use amity.Prelude.{
  ℕ, zero, suc, ◌+◌, ◌-◌, ◌*◌, ◌/◌, ◌%◌, ◌^◌, ◌≤◌, ◌<◌, ◌≡◌, refl, ap, ap₂, ◌∙◌, sym, arith, min,
  bit_and,
}

-- The recursion that `bit_and` stands for, at the fuel `n`.
abbrev conj : ℕ → ℕ → ℕ → ℕ
conj n a b = digits (λ x. 0) min n a b

-- Any fuel from the number on gives the same digits.
conj_fuel : (a n m b : ℕ) → a ≤ n → a ≤ m → conj n a b ≡ conj m a b
conj_fuel a zero zero b h g = refl
conj_fuel zero zero (suc m) b h g = refl
conj_fuel zero (suc n) zero b h g = refl
conj_fuel zero (suc n) (suc m) b h g = refl
conj_fuel (suc a) zero (suc m) b h g = absurd (omega arith)
conj_fuel (suc a) (suc n) zero b h g = absurd (omega arith)
conj_fuel (suc a) (suc n) (suc m) b h g =
    omega (arith, conj_fuel (suc a / 2) n m (b / 2) (omega arith) (omega arith))

-- The lowest digit, and the rest.
bit_and_digits : (a b : ℕ) → bit_and a b ≡ bit_and (a / 2) (b / 2) * 2 + min (a % 2) (b % 2)
bit_and_digits zero b = omega (arith, bit_and-bitwise 0 b, bit_and-bitwise 0 (b / 2))
bit_and_digits (suc a) b = omega (
  arith,
  conj_fuel (suc a / 2) a (suc a / 2) (b / 2) (omega arith) (omega arith),
  bit_and-bitwise (suc a) b,
  bit_and-bitwise (suc a / 2) (b / 2),
)

mod_digit : (a m : ℕ) → 0 < m → (a / 2 % m) * 2 + a % 2 ≡ a % (m * 2)
mod_digit a m h = sym (
    ap (λ t. t % (m * 2)) (omega (arith, div-add-mod (a / 2) m))
    ∙ mul-add-mod_self_left (m * 2) (a / 2 / m) (a / 2 % m * 2 + a % 2)
    ∙ mod-eq_of_lt (omega (arith, mod-lt (a / 2) h)))

conj_none : (n a : ℕ) → conj n a 0 ≡ 0
conj_none zero a = refl
conj_none (suc n) zero = refl
conj_none (suc n) (suc a) = omega (arith, conj_none n (suc a / 2))

and_none : (a : ℕ) → bit_and a 0 ≡ 0
and_none a = bit_and-bitwise a 0 ∙ conj_none a a

pub pow_pos : (k : ℕ) → 0 < 2 ^ k
pow_pos zero = omega arith
pow_pos (suc k) = omega (arith, pow-suc 2 k, pow_pos k)

-- The mask of the lowest `k` bits takes the remainder by `2 ^ k`.
pub bit_and_mask : (k a : ℕ) → bit_and a (2 ^ k - 1) ≡ a % 2 ^ k
bit_and_mask zero a = and_none a ∙ omega arith
bit_and_mask (suc k) a =
    bit_and_digits a (2 ^ suc k - 1)
    ∙ ap₂ (λ rest low. bit_and (a / 2) rest * 2 + low) (omega (arith, pow-suc 2 k, pow_pos k))
        (omega (arith, pow-suc 2 k, pow_pos k))
    ∙ ap (λ t. t * 2 + a % 2) (bit_and_mask k (a / 2))
    ∙ mod_digit a (2 ^ k) (pow_pos k)
    ∙ ap (λ t. a % t) (sym (pow-suc 2 k))

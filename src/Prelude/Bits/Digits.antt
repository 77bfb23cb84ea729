-- ===== src/Prelude/Bits/Digits.antt =====
-- The lowest binary digit of `&`, `|` and `^`. The native operations stand for a recursion whose
-- fuel is the first operand; spare fuel changes nothing.
use Prim.Native.Nat.{
  ℕ, zero, suc, ◌+◌, ◌*◌, ◌/◌, ◌%◌, ◌≤◌, min, max, digits, bitwise, differ, bit_and, bit_or,
  bit_xor, bit_and-bitwise, bit_or-bitwise, bit_xor-bitwise,
}
use mathlib.Core.Path.{◌≡◌, refl, ap, ◌∙◌}
use native.Mathlib.Decide.{dec_le}
use native.Mathlib.Omega.{arith}

module _ (last : ℕ → ℕ) (on : ℕ → ℕ → ℕ) where
  spare_round : (n a b : ℕ) → a ≤ n → digits last on (suc n) a b ≡ digits last on n a b
  spare_round zero zero b le = refl
  spare_round (suc n) zero b le = refl
  spare_round zero (suc a) b le = absurd (omega arith)
  spare_round (suc n) (suc a) b le =
      ap (λ t. t * 2 + on (suc a % 2) (b % 2)) (spare_round n (suc a / 2) (b / 2) (omega arith))

  -- Any fuel from the operand on gives the recursion that the operation stands for.
  enough_fuel : (n a b : ℕ) → a ≤ n → digits last on n a b ≡ bitwise last on a b
  enough_fuel zero a b le = ap (λ k. digits last on k a b) {x = 0} {y = a} (omega arith)
  enough_fuel (suc n) a b le = elim (dec_le a n) [
    | yes enough ↦ spare_round n a b enough ∙ enough_fuel n a b enough
    | no short ↦ ap (λ k. digits last on k a b) {x = suc n} {y = a} (omega arith)
  ]

  lowest_digit :
      (a b : ℕ)
      → bitwise last on (suc a) b ≡ on (suc a % 2) (b % 2) + 2 * bitwise last on (suc a / 2) (b / 2)
  lowest_digit a b = omega (arith, enough_fuel a (suc a / 2) (b / 2) (omega arith))

differ_digits : (a b : ℕ) → a ≤ 1 → b ≤ 1 → differ a b ≡ (a + b) % 2
differ_digits zero b p q = omega arith
differ_digits (suc zero) zero p q = refl
differ_digits (suc zero) (suc zero) p q = refl
differ_digits (suc zero) (suc (suc b)) p q = absurd (omega arith)
differ_digits (suc (suc a)) b p q = absurd (omega arith)

pub bit_xor_step : (a b : ℕ) → bit_xor a b ≡ (a % 2 + b % 2) % 2 + 2 * bit_xor (a / 2) (b / 2)
bit_xor_step zero b = simp bit_xor-bitwise (omega arith)
bit_xor_step (suc a) b =
    omega (arith, digit, differ_digits (suc a % 2) (b % 2) (omega arith) (omega arith))
  where
    digit : bit_xor (suc a) b ≡ differ (suc a % 2) (b % 2) + 2 * bit_xor (suc a / 2) (b / 2)
    digit = simp bit_xor-bitwise (lowest_digit (λ y. y) differ a b)

pub bit_and_step : (a b : ℕ) → bit_and a b ≡ min (a % 2) (b % 2) + 2 * bit_and (a / 2) (b / 2)
bit_and_step zero b = simp bit_and-bitwise (omega arith)
bit_and_step (suc a) b = simp bit_and-bitwise (lowest_digit (λ y. 0) min a b)

pub bit_or_step : (a b : ℕ) → bit_or a b ≡ max (a % 2) (b % 2) + 2 * bit_or (a / 2) (b / 2)
bit_or_step zero b = simp bit_or-bitwise (omega arith)
bit_or_step (suc a) b = simp bit_or-bitwise (lowest_digit (λ y. y) max a b)

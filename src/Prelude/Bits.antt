-- ===== src/Prelude/Bits.antt =====
-- `&`, `|` and `^` of C at variables: one equation for the lowest digit of each, and the laws that
-- follow from it by strong induction.
mod Digits
pub use Digits.{bit_or_step, bit_and_step, bit_xor_step}
use mathlib.Core.Path.{◌≡◌, refl, sym, ap, ap₂, ◌∙◌}
use Prim.Native.Nat.{ℕ, zero, suc, ◌+◌, ◌-◌, ◌*◌, ◌/◌, ◌%◌, ◌^◌, ◌<◌, ◌≤◌, bit_and, bit_or, bit_xor}
use Prim.Native.Nat.{bit_or-bitwise, bit_xor-bitwise}
use native.Mathlib.Omega.{arith}
use native.Mathlib.Nat.{pow-suc, one-le-pow, div-add-mod, mod-lt, mod-eq_of_lt}
use native.Mathlib.Nat.{add-mul-mod_self_left, div-div-eq-div-mul}

-- A statement that descends from `a` to `a / 2` holds for every `a`.
module _ {ℓ} (P : ℕ → Type ℓ) (base : P 0) (step : (a : ℕ) → P (a / 2) → P a) where
  halving_below : (k a : ℕ) → a ≤ k → P a
  halving_below k zero h = base
  halving_below zero (suc a) h = absurd (omega arith)
  halving_below (suc k) (suc a) h = step (suc a) (halving_below k (suc a / 2) (omega arith))

  pub halving : (a : ℕ) → P a
  halving a = halving_below a a (omega arith)

pub bit_or-zero : (a : ℕ) → bit_or a 0 ≡ a
bit_or-zero = halving (λ a. bit_or a 0 ≡ a) refl (λ a ih. omega (arith, bit_or_step a 0))

pub zero-bit_or : (b : ℕ) → bit_or 0 b ≡ b
zero-bit_or b = bit_or-bitwise 0 b

pub zero-bit_xor : (b : ℕ) → bit_xor 0 b ≡ b
zero-bit_xor b = bit_xor-bitwise 0 b

pub bit_and-zero : (a : ℕ) → bit_and a 0 ≡ 0
bit_and-zero = halving (λ a. bit_and a 0 ≡ 0) refl (λ a ih. omega (arith, bit_and_step a 0))

pub bit_xor-zero : (a : ℕ) → bit_xor a 0 ≡ a
bit_xor-zero = halving (λ a. bit_xor a 0 ≡ a) refl (λ a ih. omega (arith, bit_xor_step a 0))

pub two_pow_pos : (k : ℕ) → 0 < 2 ^ k
two_pow_pos k = one-le-pow k 2 (omega arith)

pub two_pow_suc : (q k : ℕ) → q * 2 ^ suc k ≡ 2 * (q * 2 ^ k)
two_pow_suc q k = omega (arith, ap (λ (t : ℕ). q * t) (pow-suc 2 k))

-- `r | (q << k)` is a sum when `r` fits in `k` bits.
pub bit_or_disjoint : (k r q : ℕ) → r < 2 ^ k → bit_or r (q * 2 ^ k) ≡ r + q * 2 ^ k
bit_or_disjoint zero r q h = let e : r ≡ 0 = omega arith in rw (e, zero-bit_or) (omega arith)
bit_or_disjoint (suc k) r q h = ground (
  arith,
  bit_or_step r (q * 2 ^ suc k),
  two_pow_suc q k,
  pow-suc 2 k,
  bit_or_disjoint k (r / 2) q,
)

-- `x & (1 << k)` tests digit `k`; the code uses the single-bit masks below.
pub bit_and-one : (a : ℕ) → bit_and a 1 ≡ a % 2
bit_and-one a = omega (arith, bit_and_step a 1, bit_and-zero (a / 2))

pub bit_and_eight : (a : ℕ) → bit_and a 8 ≡ a / 8 % 2 * 8
bit_and_eight a = omega (
  arith,
  bit_and_step a 8,
  bit_and_step (a / 2) 4,
  bit_and_step (a / 2 / 2) 2,
  bit_and-one (a / 2 / 2 / 2),
)

mask_half : (k : ℕ) → (2 ^ suc k - 1) / 2 ≡ 2 ^ k - 1
mask_half k = omega (arith, pow-suc 2 k, one-le-pow k 2)

mod_halves : (a m : ℕ) → 0 < m → a % (2 * m) ≡ a / 2 % m * 2 + a % 2
mod_halves a m h =
    ap (λ t. t % (2 * m)) split
    ∙ add-mul-mod_self_left (a / 2 % m * 2 + a % 2) (2 * m) (a / 2 / m)
    ∙ mod-eq_of_lt (omega (arith, mod-lt (a / 2) h))
  where
    split : a ≡ a / 2 % m * 2 + a % 2 + 2 * m * (a / 2 / m)
    split = omega (arith, div-add-mod (a / 2) m)

-- A mask of `k` ones keeps the remainder by `2 ^ k`.
pub bit_and_ones : (k a : ℕ) → bit_and a (2 ^ k - 1) ≡ a % 2 ^ k
bit_and_ones zero a = ground (arith, bit_and-zero a)
bit_and_ones (suc k) a = ground (
  arith,
  bit_and_step a (2 ^ suc k - 1),
  pow-suc 2 k,
  one-le-pow k 2,
  mask_half k,
  bit_and_ones k (a / 2),
  mod_halves a (2 ^ k),
)

pub bit_xor-div : (a b : ℕ) → bit_xor a b / 2 ≡ bit_xor (a / 2) (b / 2)
bit_xor-div a b = omega (arith, bit_xor_step a b)

pub bit_xor-mod : (a b : ℕ) → bit_xor a b % 2 ≡ (a % 2 + b % 2) % 2
bit_xor-mod a b = omega (arith, bit_xor_step a b)

-- Two numbers with the same half and the same parity are equal.
same_digits : (a b : ℕ) → a / 2 ≡ b / 2 → a % 2 ≡ b % 2 → a ≡ b
same_digits a b p q = omega arith

pub bit_xor_comm : (a b : ℕ) → bit_xor a b ≡ bit_xor b a
bit_xor_comm =
    halving (λ a. (b : ℕ) → bit_xor a b ≡ bit_xor b a)
      (λ b. omega (arith, zero-bit_xor b, bit_xor-zero b))
      (λ a ih b. omega (arith, bit_xor_step a b, bit_xor_step b a, ih (b / 2)))

pub bit_xor_assoc : (a b c : ℕ) → bit_xor (bit_xor a b) c ≡ bit_xor a (bit_xor b c)
bit_xor_assoc =
    halving (λ a. (b c : ℕ) → bit_xor (bit_xor a b) c ≡ bit_xor a (bit_xor b c))
      (λ b c. rw (zero-bit_xor, zero-bit_xor))
      (λ a ih b c.
        same_digits _ _
          (rw (bit_xor-div, bit_xor-div, bit_xor-div, bit_xor-div) (ih (b / 2) (c / 2)))
          (omega (
            arith,
            bit_xor-mod (bit_xor a b) c,
            bit_xor-mod a b,
            bit_xor-mod a (bit_xor b c),
            bit_xor-mod b c,
          )))

pub bit_xor_self : (a : ℕ) → bit_xor a a ≡ 0
bit_xor_self = halving (λ a. bit_xor a a ≡ 0) refl (λ a ih. omega (arith, bit_xor_step a a))

pub bit_xor_cancel : (a b : ℕ) → bit_xor (bit_xor a b) b ≡ a
bit_xor_cancel a b = bit_xor_assoc a b b ∙ rw (bit_xor_self, bit_xor-zero)

pub bit_xor_injective : (a b c : ℕ) → bit_xor a c ≡ bit_xor b c → a ≡ b
bit_xor_injective a b c e = cc (bit_xor_cancel a c, bit_xor_cancel b c)

-- The result is no wider than its operands.
pub bit_xor-lt : (k a b : ℕ) → a < 2 ^ k → b < 2 ^ k → bit_xor a b < 2 ^ k
bit_xor-lt zero a b p q = let e : a ≡ 0 = omega arith in rw (e, zero-bit_xor) q
bit_xor-lt (suc k) a b p q =
    omega (arith, bit_xor_step a b, pow-suc 2 k, bit_xor-lt k (a / 2) (b / 2))

-- `r ^ (q << k)` is a sum when `r` fits in `k` bits.
pub bit_xor_disjoint : (k r q : ℕ) → r < 2 ^ k → bit_xor r (q * 2 ^ k) ≡ r + q * 2 ^ k
bit_xor_disjoint zero r q h = let e : r ≡ 0 = omega arith in rw (e, zero-bit_xor) (omega arith)
bit_xor_disjoint (suc k) r q h = ground (
  arith,
  bit_xor_step r (q * 2 ^ suc k),
  two_pow_suc q k,
  pow-suc 2 k,
  bit_xor_disjoint k (r / 2) q,
)

pub bit_xor-div_pow : (k a b : ℕ) → bit_xor a b / 2 ^ k ≡ bit_xor (a / 2 ^ k) (b / 2 ^ k)
bit_xor-div_pow zero a b = omega (arith, ap₂ bit_xor (div_one a) (div_one b))
  where
    div_one : (n : ℕ) → n ≡ n / 2 ^ 0
    div_one n = omega arith
bit_xor-div_pow (suc k) a b =
    halve (bit_xor a b)
    ∙ ap (λ t. t / 2 ^ k) (bit_xor-div a b)
    ∙ bit_xor-div_pow k (a / 2) (b / 2)
    ∙ sym (ap₂ bit_xor (halve a) (halve b))
  where
    halve : (n : ℕ) → n / 2 ^ suc k ≡ n / 2 / 2 ^ k
    halve n = ap (λ t. n / t) (omega (arith, pow-suc 2 k)) ∙ sym (div-div-eq-div-mul n 2 (2 ^ k))

-- ===== src/Protocol/Crc/Linear.antt =====
-- One shift of the register is linear over exclusive or, and injective on 32-bit words.
use prospero_ai.Prelude.{
  ℕ, zero, suc, ◌+◌, ◌*◌, ◌/◌, ◌%◌, ◌^◌, ◌<◌, ◌≡◌, refl, sym, ap, ap₂, ◌∙◌, ◌⊎◌, inl, inr, bit_xor,
  arith,
}
use prospero_ai.Prelude.Bits.{
  bit_and-one, bit_xor-div, bit_xor-mod, bit_xor_comm, bit_xor_assoc, bit_xor_self, bit_xor-zero,
  zero-bit_xor, bit_xor-lt, bit_xor_cancel, two_pow_suc,
}
use prospero_ai.Protocol.Crc.{polynomial, crc_bit, crc_rounds}

-- What is folded back into the register: the polynomial when the lowest bit was set.
feedback : ℕ → ℕ
feedback bit = bit * polynomial

crc_bit-feedback : (c : ℕ) → crc_bit c ≡ bit_xor (c / 2) (feedback (c % 2))
unfolding crc_bit feedback
crc_bit-feedback c = elim (parity c) [
  | inl e ↦ rw (bit_and-one, e) (sym (bit_xor-zero (c / 2)))
  | inr e ↦ rw (bit_and-one, e)
]
  where
    parity : (c : ℕ) → (c % 2 ≡ 0) ⊎ (c % 2 ≡ 1)
    parity c = omega arith

xor_digits : (a b : ℕ) → a < 2 → b < 2 → feedback ((a + b) % 2) ≡ bit_xor (feedback a) (feedback b)
unfolding feedback
xor_digits zero zero p q = refl
xor_digits zero (suc zero) p q = refl
xor_digits zero (suc (suc b)) p q = absurd (omega arith)
xor_digits (suc zero) zero p q = refl
xor_digits (suc zero) (suc zero) p q = refl
xor_digits (suc zero) (suc (suc b)) p q = absurd (omega arith)
xor_digits (suc (suc a)) b p q = absurd (omega arith)

xor_interchange :
    (a b c d : ℕ) → bit_xor (bit_xor a b) (bit_xor c d) ≡ bit_xor (bit_xor a c) (bit_xor b d)
xor_interchange a b c d =
    bit_xor_assoc a b (bit_xor c d)
    ∙ ap (bit_xor a)
        (sym (bit_xor_assoc b c d) ∙ ap (λ t. bit_xor t d) (bit_xor_comm b c) ∙ bit_xor_assoc c b d)
    ∙ sym (bit_xor_assoc a c (bit_xor b d))

pub crc_bit-bit_xor : (a b : ℕ) → crc_bit (bit_xor a b) ≡ bit_xor (crc_bit a) (crc_bit b)
crc_bit-bit_xor a b =
    crc_bit-feedback (bit_xor a b)
    ∙ ap₂ bit_xor (bit_xor-div a b)
        (ap feedback (bit_xor-mod a b) ∙ xor_digits (a % 2) (b % 2) (omega arith) (omega arith))
    ∙ xor_interchange (a / 2) (b / 2) (feedback (a % 2)) (feedback (b % 2))
    ∙ sym (ap₂ bit_xor (crc_bit-feedback a) (crc_bit-feedback b))

pub crc_rounds-bit_xor :
    (n a b : ℕ) → crc_rounds n (bit_xor a b) ≡ bit_xor (crc_rounds n a) (crc_rounds n b)
unfolding crc_rounds
crc_rounds-bit_xor zero a b = refl
crc_rounds-bit_xor (suc n) a b =
    ap (crc_rounds n) (crc_bit-bit_xor a b) ∙ crc_rounds-bit_xor n (crc_bit a) (crc_bit b)

crc_bit-even : (c : ℕ) → crc_bit (c * 2) ≡ c
unfolding crc_bit
crc_bit-even c = ground (arith, bit_and-one (c * 2))

-- Bits that stand above the shifted ones only move down.
pub crc_rounds-shift : (n c : ℕ) → crc_rounds n (c * 2 ^ n) ≡ c
unfolding crc_rounds
crc_rounds-shift zero c = omega arith
crc_rounds-shift (suc n) c =
    ap (crc_rounds n) (ap crc_bit twice ∙ crc_bit-even (c * 2 ^ n)) ∙ crc_rounds-shift n c
  where
    twice : c * 2 ^ suc n ≡ c * 2 ^ n * 2
    twice = omega (arith, two_pow_suc c n)

pub crc_bit-lt : (c : ℕ) → c < 2 ^ 32 → crc_bit c < 2 ^ 32
crc_bit-lt c h =
    rw crc_bit-feedback
      (bit_xor-lt 32 (c / 2) (feedback (c % 2)) (omega arith) (small (c % 2) (omega arith)))
  where
    small : (b : ℕ) → b < 2 → feedback b < 2 ^ 32
    small b l = unfold feedback in omega arith

pub crc_rounds-lt : (n c : ℕ) → c < 2 ^ 32 → crc_rounds n c < 2 ^ 32
unfolding crc_rounds
crc_rounds-lt zero c h = h
crc_rounds-lt (suc n) c h = crc_rounds-lt n (crc_bit c) (crc_bit-lt c h)

eq_of_xor_zero : (a b : ℕ) → bit_xor a b ≡ 0 → a ≡ b
eq_of_xor_zero a b e = sym (bit_xor_cancel a b) ∙ ap (λ t. bit_xor t b) e ∙ zero-bit_xor b

-- The register becomes 0 only from 0: the polynomial has the top bit, which `c >> 1` lacks.
crc_bit-eq_zero : (c : ℕ) → c < 2 ^ 32 → crc_bit c ≡ 0 → c ≡ 0
unfolding crc_bit
crc_bit-eq_zero c h e = ground (arith, bit_and-one c, eq_of_xor_zero (c / 2) polynomial)

pub crc_bit_injective : (a b : ℕ) → a < 2 ^ 32 → b < 2 ^ 32 → crc_bit a ≡ crc_bit b → a ≡ b
crc_bit_injective a b ha hb e = eq_of_xor_zero a b (
    crc_bit-eq_zero (bit_xor a b) (bit_xor-lt 32 a b ha hb)
      (crc_bit-bit_xor a b ∙ ap (λ t. bit_xor t (crc_bit b)) e ∙ bit_xor_self (crc_bit b)))

pub crc_rounds_injective :
    (n a b : ℕ) → a < 2 ^ 32 → b < 2 ^ 32 → crc_rounds n a ≡ crc_rounds n b → a ≡ b
unfolding crc_rounds
crc_rounds_injective zero a b ha hb e = e
crc_rounds_injective (suc n) a b ha hb e =
    crc_bit_injective a b ha hb
      (crc_rounds_injective n (crc_bit a) (crc_bit b) (crc_bit-lt a ha) (crc_bit-lt b hb) e)

-- ===== src/Memory/Align/Pow2.antt =====
-- `pai_mem_is_pow2` decides whether a word is a power of two.
use prospero_ai.Prelude.{
  ℕ, zero, suc, ◌-◌, ◌/◌, ◌%◌, ◌^◌, ◌<◌, ◌≡◌, ◌≢◌, ◌⊎◌, inl, inr, refl, sym, ap, ◌∙◌, bit_and, true,
  arith,
}
use prospero_ai.Prelude.Bits.{halving, bit_and_step}
use native.Mathlib.Nat.{pow-suc, one-le-pow}
use prospero_ai.Memory.Align.{is_pow2, sub64}

bit_and_self : (a : ℕ) → bit_and a a ≡ a
bit_and_self = halving (λ a. bit_and a a ≡ a) refl (λ a ih. omega (arith, bit_and_step a a))

parity : (v : ℕ) → (v % 2 ≡ 0) ⊎ (v % 2 ≡ 1)
parity v = omega arith

-- Clearing the lowest set bit leaves 0 only when no other bit was set.
pow2_of_masked : (v : ℕ) → v ≢ 0 → bit_and v (v - 1) ≡ 0 → (k : ℕ) × (v ≡ 2 ^ k)
pow2_of_masked =
    halving (λ v. v ≢ 0 → bit_and v (v - 1) ≡ 0 → (k : ℕ) × (v ≡ 2 ^ k)) (λ h e. absurd (h refl))
      step
  where
    step :
        (v : ℕ)
        → (v / 2 ≢ 0 → bit_and (v / 2) (v / 2 - 1) ≡ 0 → (k : ℕ) × (v / 2 ≡ 2 ^ k))
        → v ≢ 0
        → bit_and v (v - 1) ≡ 0
        → (k : ℕ) × (v ≡ 2 ^ k)
    step v ih h e = elim (parity v) [
      | inl even ↦
          let half : (v - 1) / 2 ≡ v / 2 - 1 = omega arith in
          let (k, p) =
            ih (omega arith)
              (ap (bit_and (v / 2)) (sym half) ∙ omega (arith, bit_and_step v (v - 1))) in
          (suc k, omega (arith, pow-suc 2 k))
      | inr odd ↦
          let half : (v - 1) / 2 ≡ v / 2 = omega arith in
          (
            0,
            omega (arith, bit_and_step v (v - 1), ap (bit_and (v / 2)) half, bit_and_self (v / 2)),
          )
    ]

masked_pow2 : (k : ℕ) → bit_and (2 ^ k) (2 ^ k - 1) ≡ 0
masked_pow2 zero = refl
masked_pow2 (suc k) = ground (
  arith,
  bit_and_step (2 ^ suc k) (2 ^ suc k - 1),
  pow-suc 2 k,
  one-le-pow k 2,
  masked_pow2 k,
  half,
)
  where
    half : (2 ^ suc k - 1) / 2 ≡ 2 ^ k - 1
    half = omega (arith, pow-suc 2 k, one-le-pow k 2)

-- A word passes the test exactly when it is a power of two.
pub is_pow2_iff :
    (v : ℕ)
    → v < 2 ^ 64
    → (is_pow2 v ≡ true → (k : ℕ) × (v ≡ 2 ^ k)) × ((k : ℕ) → v ≡ 2 ^ k → is_pow2 v ≡ true)
unfolding is_pow2
is_pow2_iff v h = (to, from)
  where
    nonzero : is_pow2 v ≡ true → v ≢ 0
    nonzero t = ground arith

    down : v ≢ 0 → sub64 v 1 ≡ v - 1
    down ne = omega arith

    masked : is_pow2 v ≡ true → bit_and v (sub64 v 1) ≡ 0
    masked t = ground arith

    to : is_pow2 v ≡ true → (k : ℕ) × (v ≡ 2 ^ k)
    to t = pow2_of_masked v (nonzero t) (ap (bit_and v) (sym (down (nonzero t))) ∙ masked t)

    from : (k : ℕ) → v ≡ 2 ^ k → is_pow2 v ≡ true
    from k e = ground (arith, ne, clear)
      where
        ne : v ≢ 0
        ne = omega (arith, one-le-pow k 2)

        clear : bit_and v (sub64 v 1) ≡ 0
        clear = ap (bit_and v) (down ne) ∙ ap (λ (x : ℕ). bit_and x (x - 1)) e ∙ masked_pow2 k

-- ===== src/Memory/Buddy/Sibling.antt =====
-- The address of a block's other half, as pai_buddy_free computes it.
use prospero_ai.Prelude.{
  ℕ, suc, ◌+◌, ◌-◌, ◌*◌, ◌%◌, ◌^◌, ◌≤◌, ◌<◌, ◌≡◌, sym, ap, ◌∙◌, bit_xor, List, [], ◌∷◌, Bool-cases,
  inl, inr, arith,
}
use native.Mathlib.Nat.{pow-suc}
use prospero_ai.Prelude.Bits.{
  bit_xor_disjoint, bit_xor_comm, bit_xor_cancel, two_pow_suc, two_pow_pos,
}
use prospero_ai.Memory.Buddy.Tree.{Turn, Fits, opposite}
use prospero_ai.Memory.Buddy.Tree.Sound.{Fits-range}

mul_twice : (q n : ℕ) → 2 * q * n ≡ 2 * (q * n)
mul_twice q n = grind arith

mul_odd : (q n : ℕ) → (2 * q + 1) * n ≡ 2 * (q * n) + n
mul_odd q n = grind arith

-- Blocks of order `j` start at multiples of 2 ^ j from the base.
pub Fits-multiple : (fs : List Turn) (j x k a : ℕ) → Fits fs j x k a → (q : ℕ) × (x ≡ a + q * 2 ^ j)
unfolding Fits
Fits-multiple [] j x k a fit = (0, omega (arith, fit.1))
Fits-multiple (f ∷ fs) j x k a fit =
    let ih = Fits-multiple fs (suc j) f.address k a fit.1 in
    elim (Bool-cases f.left) [
      | inl e ↦
          (2 * ih.0, fit.0 ∙ rw e (omega (arith, ih.1, two_pow_suc ih.0 j, mul_twice ih.0 (2 ^ j))))
      | inr e ↦ (
        2 * ih.0 + 1,
        fit.0 ∙ rw e (omega (arith, ih.1, two_pow_suc ih.0 j, mul_odd ih.0 (2 ^ j))),
      )
    ]

xor_even : (q j : ℕ) → bit_xor (q * 2 ^ suc j) (2 ^ j) ≡ q * 2 ^ suc j + 2 ^ j
xor_even q j =
    bit_xor_comm (q * 2 ^ suc j) (2 ^ j)
    ∙ bit_xor_disjoint (suc j) (2 ^ j) q (omega (arith, pow-suc 2 j, two_pow_pos j))
    ∙ omega arith

xor_odd : (q j : ℕ) → bit_xor (q * 2 ^ suc j + 2 ^ j) (2 ^ j) ≡ q * 2 ^ suc j
xor_odd q j =
    ap (λ n. bit_xor n (2 ^ j)) (sym (xor_even q j)) ∙ bit_xor_cancel (q * 2 ^ suc j) (2 ^ j)

pub sibling_lem :
    (f : Turn) (fs : List Turn) (j x k a : ℕ)
    → Fits (f ∷ fs) j x k a
    → 6 ≤ j
    → a % 64 ≡ 0
    → (a + bit_xor (x - a) (2 ^ j) ≡ opposite f j) × (bit_xor (x - a) (2 ^ j) < 2 ^ k)
unfolding Fits
sibling_lem f fs j x k a fit deep start =
    let up = Fits-multiple fs (suc j) f.address k a fit.1 in
    let range = Fits-range fs (suc j) f.address k a fit.1 (omega arith) start in
    elim (Bool-cases f.left) [
      | inl e ↦
          let at : x ≡ f.address = fit.0 ∙ rw e in
          let off : x - a ≡ up.0 * 2 ^ suc j = omega (arith, up.1, at) in
          rw (off, e) (omega (arith, xor_even up.0 j, range, up.1, pow-suc 2 j, two_pow_pos j))
      | inr e ↦
          let at : x ≡ f.address + 2 ^ j = fit.0 ∙ rw e in
          let off : x - a ≡ up.0 * 2 ^ suc j + 2 ^ j = omega (arith, up.1, at) in
          rw (off, e) (omega (arith, xor_odd up.0 j, range, up.1, pow-suc 2 j, two_pow_pos j))
    ]

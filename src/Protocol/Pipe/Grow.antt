-- ===== src/Protocol/Pipe/Grow.antt =====
-- The doubling of the capacity ends with room enough.
use prospero_ai.Prelude.{
  ℕ, zero, suc, ◌*◌, ◌%◌, ◌^◌, ◌≤◌, ◌<◌, ◌≡◌, refl, ap, ◌∙◌, inl, inr, Bool-cases, some, ltb,
  ltb→lt, arith,
}
use native.Mathlib.Nat.{mul_assoc, pow-suc}
use prospero_ai.Protocol.Pipe.{grow_cap}

-- A need of at most 2^31 bytes is met from any capacity that `rounds` doublings take that far.
pub grow_cap-ends :
    (rounds newcap need : ℕ)
    → need ≤ 2 ^ 31
    → newcap < 2 ^ 32
    → need ≤ newcap * 2 ^ rounds
    → (c : ℕ) × (grow_cap rounds newcap need ≡ some c) × (need ≤ c) × (c < 2 ^ 32)
unfolding grow_cap
grow_cap-ends zero newcap need small word enough = (newcap, ground arith, omega arith, word)
grow_cap-ends (suc rounds) newcap need small word enough = elim (Bool-cases (ltb newcap need)) [
  | inl more ↦
      let (c, e, le, lt) =
        grow_cap-ends rounds (newcap * 2 % 2 ^ 32) need small (omega arith)
          (doubled (ltb→lt newcap need more)) in
      (c, rw more e, le, lt)
  | inr stop ↦ (newcap, rw stop refl, ground arith, word)
]
  where
    doubled : newcap < need → need ≤ newcap * 2 % 2 ^ 32 * 2 ^ rounds
    doubled lt = omega (arith, pow-suc 2 rounds, ap (λ t. t * 2 ^ rounds) same, twice)
      where
        same : newcap * 2 % 2 ^ 32 ≡ newcap * 2
        same = omega arith

        twice : newcap * 2 * 2 ^ rounds ≡ newcap * 2 ^ suc rounds
        twice =
            mul_assoc newcap 2 (2 ^ rounds) ∙ ap (λ t. newcap * t) (omega (arith, pow-suc 2 rounds))

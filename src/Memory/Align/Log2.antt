-- ===== src/Memory/Align/Log2.antt =====
-- pai_mem_ceil_log2 and pai_mem_floor_log2 of memory/mem.h.
use prospero_ai.Prelude.{
  ℕ, zero, suc, ◌+◌, ◌*◌, ◌/◌, ◌%◌, ◌^◌, ◌≤◌, ◌<◌, ◌≡◌, ap, ◌∙◌, Bool-cases, inl, inr, ltb, ◌==◌,
  ◌&&◌, arith,
}
use native.Mathlib.Nat.{pow-suc}
use native.Mathlib.Numerals.{add-one}
use prospero_ai.Prelude.Bits.{two_pow_pos}
use prospero_ai.Memory.Align.{ceil_log2, ceil_log2_loop, floor_log2, floor_log2_loop}

pub pow_mono : (m n : ℕ) → m ≤ n → 2 ^ m ≤ 2 ^ n
pow_mono zero n h = omega (arith, two_pow_pos n)
pow_mono (suc m) zero h = absurd (omega arith)
pow_mono (suc m) (suc n) h = omega (arith, pow-suc 2 m, pow-suc 2 n, pow_mono m n (omega arith))

ceil_log2_loop-le :
    (rounds v p o : ℕ)
    → rounds + o ≡ 63
    → p ≡ 2 ^ o
    → ceil_log2_loop rounds v p o < 63
    → v ≤ 2 ^ ceil_log2_loop rounds v p o
unfolding ceil_log2_loop
ceil_log2_loop-le zero v p o h e small = absurd (omega arith)
ceil_log2_loop-le (suc rounds) v p o h e small = elim (Bool-cases (ltb p v && ltb o 63)) [
  | inl more ↦
      let doubled : p * 2 % 2 ^ 64 ≡ 2 ^ (o + 1) =
        rw add-one (omega (arith, e, pow-suc 2 o, pow_mono (suc o) 63 (omega arith))) in
      rw more (
        ceil_log2_loop-le rounds v (p * 2 % 2 ^ 64) (o + 1) (omega arith) doubled
          (rw more at small))
  | inr done ↦ rw done (ground (arith, done, h, e))
]

-- Below 63, `ceil_log2 v` is an order whose blocks hold `v` bytes.
pub le-ceil_log2 : (v : ℕ) → ceil_log2 v < 63 → v ≤ 2 ^ ceil_log2 v
unfolding ceil_log2
le-ceil_log2 v small = elim (Bool-cases (v == 0)) [
  | inl e ↦ ground (arith, e)
  | inr e ↦ rw e (ceil_log2_loop-le 63 v 1 0 (omega arith) (omega arith) (rw e at small))
]

floor_log2_loop_pow : (k rounds o : ℕ) → k ≤ rounds → floor_log2_loop rounds (2 ^ k) o ≡ o + k
unfolding floor_log2_loop
floor_log2_loop_pow zero zero o h = omega arith
floor_log2_loop_pow zero (suc rounds) o h = omega arith
floor_log2_loop_pow (suc k) zero o h = absurd (omega arith)
floor_log2_loop_pow (suc k) (suc rounds) o h =
    let half : 2 ^ suc k / 2 ≡ 2 ^ k = omega (arith, pow-suc 2 k) in
    ground (
      arith,
      pow-suc 2 k,
      two_pow_pos k,
      half,
      floor_log2_loop_pow k rounds (o + 1),
      ap (λ (n : ℕ). floor_log2_loop rounds n (o + 1)) half,
    )

pub floor_log2_pow : (k : ℕ) → k < 64 → floor_log2 (2 ^ k) ≡ k
unfolding floor_log2
floor_log2_pow k h = floor_log2_loop_pow k 64 0 (omega arith) ∙ omega arith

-- ===== src/Memory/Align/Round.antt =====
-- `pai_mem_align_up` and `pai_mem_align_down` round to a multiple of a power of two.
use prospero_ai.Prelude.{
  ℕ, zero, suc, ◌+◌, ◌-◌, ◌*◌, ◌/◌, ◌%◌, ◌^◌, ◌≤◌, ◌<◌, ◌≡◌, sym, ap, ◌∙◌, subst, bit_and, true,
  arith,
}
use prospero_ai.Prelude.Bits.{bit_and_step, bit_and_ones, two_pow_suc, two_pow_pos}
use native.Mathlib.Decide.{dec_lt, dec_le}
use native.Mathlib.Nat.{
  div-eq_of_lt, pow-suc, div-div-eq-div-mul, div-lt_iff_lt-mul, mul-mod_left, mod-lt, div-add-mod,
  mul-le-mul_left, mul-add, mod-eq_of_lt,
}
use prospero_ai.Memory.Align.{is_pow2, align_up, align_down, sub64, not64, add64}
use prospero_ai.Memory.Align.Pow2.{is_pow2_iff}

div_two_pow : (k x : ℕ) → x / 2 ^ suc k ≡ x / 2 / 2 ^ k
div_two_pow k x =
    ap (λ t. x / t) (omega (arith, pow-suc 2 k)) ∙ sym (div-div-eq-div-mul x 2 (2 ^ k))

-- A mask of `j` ones above `k` zeros keeps `j` digits and clears the `k` below.
bit_and_high : (k j x : ℕ) → bit_and x ((2 ^ j - 1) * 2 ^ k) ≡ x / 2 ^ k % 2 ^ j * 2 ^ k
bit_and_high zero j x =
    ap (bit_and x) (omega arith) ∙ bit_and_ones j x ∙ omega (arith, ap (λ t. t % 2 ^ j) (one x))
  where
    one : (x : ℕ) → x ≡ x / 2 ^ 0
    one x = omega arith
bit_and_high (suc k) j x =
    bit_and_step x ((2 ^ j - 1) * 2 ^ suc k)
    ∙ omega (
      arith,
      two_pow_suc (2 ^ j - 1) k,
      ap (bit_and (x / 2)) half,
      bit_and_high k j (x / 2),
      ap (λ t. t % 2 ^ j * 2 ^ suc k) (div_two_pow k x),
      two_pow_suc (x / 2 / 2 ^ k % 2 ^ j) k,
    )
  where
    half : (2 ^ j - 1) * 2 ^ suc k / 2 ≡ (2 ^ j - 1) * 2 ^ k
    half = omega (arith, two_pow_suc (2 ^ j - 1) k)

pow_add : (j k : ℕ) → 2 ^ (j + k) ≡ 2 ^ j * 2 ^ k
pow_add zero k = ap (λ (n : ℕ). 2 ^ n) {y = k} (omega arith) ∙ omega arith
pow_add (suc j) k =
    ap (λ (n : ℕ). 2 ^ n) {y = suc (j + k)} (omega arith)
    ∙ omega (arith, pow-suc 2 (j + k), pow_add j k, ap (λ t. t * 2 ^ k) (pow-suc 2 j))

pred_mul : (a b : ℕ) → 0 < a → (a - 1) * b + b ≡ a * b
pred_mul zero b h = absurd (omega arith)
pred_mul (suc a) b h = omega (arith, ap (λ (t : ℕ). t * b) pred_suc)
  where
    pred_suc : suc a - 1 ≡ a
    pred_suc = omega arith

-- A word masked with the complement of `align - 1`.
mask_low : (k x : ℕ) → k < 64 → x < 2 ^ 64 → bit_and x (not64 (sub64 (2 ^ k) 1)) ≡ x / 2 ^ k * 2 ^ k
mask_low k x hk hx = ap (bit_and x) mask ∙ bit_and_high k j x ∙ ap (λ t. t * 2 ^ k) whole
  where
    j : ℕ
    j = 64 - k

    parts : 2 ^ 64 ≡ 2 ^ j * 2 ^ k
    parts = ap (λ (n : ℕ). 2 ^ n) {x = 64} (omega arith) ∙ pow_add j k

    mask : not64 (sub64 (2 ^ k) 1) ≡ (2 ^ j - 1) * 2 ^ k
    mask = omega (arith, parts, pred_mul (2 ^ j) (2 ^ k) (two_pow_pos j), two_pow_pos k)

    whole : x / 2 ^ k % 2 ^ j ≡ x / 2 ^ k
    whole = mod-eq_of_lt ((div-lt_iff_lt-mul (two_pow_pos k)).1 (omega (arith, parts)))

-- Rounding a word down keeps its digits from the alignment on.
pub align_down_lem : (v k : ℕ) → k < 64 → v < 2 ^ 64 → align_down v (2 ^ k) ≡ v / 2 ^ k * 2 ^ k
unfolding align_down
align_down_lem v k hk hv = mask_low k v hk hv

pub align_up_lem :
    (v k : ℕ) → k < 64 → v + 2 ^ k ≤ 2 ^ 64 → align_up v (2 ^ k) ≡ (v + 2 ^ k - 1) / 2 ^ k * 2 ^ k
unfolding align_up
align_up_lem v k hk fits =
    ap (λ x. bit_and x (not64 (sub64 (2 ^ k) 1))) sum
    ∙ mask_low k (v + 2 ^ k - 1) hk (omega (arith, two_pow_pos k))
  where
    sum : sub64 (add64 v (2 ^ k)) 1 ≡ v + 2 ^ k - 1
    sum = omega (arith, two_pow_pos k)

exponent-lt : (k : ℕ) → 2 ^ k < 2 ^ 64 → k < 64
exponent-lt k h = elim (dec_lt k 64) [
  | yes l ↦ l
  | no ge ↦
      let split : 2 ^ k ≡ 2 ^ (k - 64) * 2 ^ 64 =
        ap (λ (n : ℕ). 2 ^ n) {x = k} (omega arith) ∙ pow_add (k - 64) 64 in
      absurd (omega (arith, two_pow_pos (k - 64)))
]

-- The multiple of `m` that rounding up the number `v` gives.
rounded : (v m : ℕ) → 0 < m → let up = (v + m - 1) / m * m in (v ≤ up) × (up < v + m) × (up % m ≡ 0)
rounded v m pos = (
  omega (arith, div-add-mod (v + m - 1) m, mod-lt (v + m - 1) pos),
  omega (arith, div-add-mod (v + m - 1) m),
  mul-mod_left ((v + m - 1) / m) m,
)

-- For a power of two `align` with `v + align` at most 2^64, `align_up v align` is a multiple of
-- `align`, not below `v`, and less than `align` above it.
pub align_up_bounds :
    (v align : ℕ)
    → is_pow2 align ≡ true
    → align < 2 ^ 64
    → v + align ≤ 2 ^ 64
    → (v ≤ align_up v align) × (align_up v align < v + align) × (align_up v align % align ≡ 0)
align_up_bounds v align p small fits =
    let (k, e) = (is_pow2_iff align small).0 p in
    subst (λ a. (v ≤ align_up v a) × (align_up v a < v + a) × (align_up v a % a ≡ 0)) (sym e)
      (at_power k e)
  where
    at_power :
        (k : ℕ)
        → align ≡ 2 ^ k
        → (v ≤ align_up v (2 ^ k))
          × (align_up v (2 ^ k) < v + 2 ^ k)
          × (align_up v (2 ^ k) % 2 ^ k ≡ 0)
    at_power k e =
        rw (align_up_lem v k (exponent-lt k (omega arith)) (omega arith))
          (rounded v (2 ^ k) (two_pow_pos k))

-- For a power of two `align` and a number `v` less than `align` below 2^64, rounding up wraps to 0.
pub align_up_wraps :
    (v align : ℕ)
    → is_pow2 align ≡ true
    → align < 2 ^ 64
    → v < 2 ^ 64
    → 2 ^ 64 < v + align
    → align_up v align ≡ 0
align_up_wraps v align p small hv wraps =
    let (k, e) = (is_pow2_iff align small).0 p in
    subst (λ a. align_up v a ≡ 0) (sym e) (at_power k e)
  where
    at_power : (k : ℕ) → align ≡ 2 ^ k → align_up v (2 ^ k) ≡ 0
    at_power k e =
        unfold align_up in
        ap (λ x. bit_and x (not64 (sub64 (2 ^ k) 1))) sum
        ∙ mask_low k (v + 2 ^ k - 1 - 2 ^ 64) (exponent-lt k (omega arith)) (omega arith)
        ∙ omega (arith, ap (λ t. t * 2 ^ k) nothing)
      where
        sum : sub64 (add64 v (2 ^ k)) 1 ≡ v + 2 ^ k - 1 - 2 ^ 64
        sum = omega arith

        nothing : (v + 2 ^ k - 1 - 2 ^ 64) / 2 ^ k ≡ 0
        nothing = div-eq_of_lt (omega arith)

-- The next multiple is no later than any other one.
pub least_multiple : (p q align : ℕ) → p % align ≡ 0 → q % align ≡ 0 → p < q + align → p ≤ q
least_multiple p q align hp hq lt = elim (dec_le (p / align) (q / align)) [
  | yes le ↦
      omega (arith, mul-le-mul_left align le, div-add-mod p align, div-add-mod q align, hp, hq)
  | no gt ↦
      let above : q / align + 1 ≤ p / align = omega (arith, gt) in
      absurd (
        omega (
          arith,
          mul-le-mul_left align above,
          mul-add align (q / align) 1,
          div-add-mod p align,
          div-add-mod q align,
          hp,
          hq,
          lt,
        ))
]

-- ===== src/Memory/Align.antt =====
-- memory/mem.h over uint64_t. A number is a word when it is below 2 ^ 64.
pub mod Pow2
pub mod Round
pub mod Log2
use prospero_ai.Prelude.{
  ℕ, zero, suc, ◌+◌, ◌-◌, ◌*◌, ◌/◌, ◌%◌, ◌^◌, bit_and, Bool, not, ◌&&◌, ltb, leb, ◌==◌,
  if◌then◌else◌,
}

-- Sums, differences and the complement of uint64_t.
abbrev pub add64 : ℕ → ℕ → ℕ
add64 a b = (a + b) % 2 ^ 64

abbrev pub sub64 : ℕ → ℕ → ℕ
sub64 a b = (a + (2 ^ 64 - b)) % 2 ^ 64

abbrev pub not64 : ℕ → ℕ
not64 a = 2 ^ 64 - 1 - a

unfoldable pub is_pow2 : ℕ → Bool
is_pow2 v = not (v == 0) && bit_and v (sub64 v 1) == 0

unfoldable pub align_up : ℕ → ℕ → ℕ
align_up v align = bit_and (sub64 (add64 v align) 1) (not64 (sub64 align 1))

unfoldable pub align_down : ℕ → ℕ → ℕ
align_down v align = bit_and v (not64 (sub64 align 1))

-- while (p < v && o < 63) { p <<= 1; o++; }, with at most 63 rounds.
unfoldable pub ceil_log2_loop : (rounds v p o : ℕ) → ℕ
ceil_log2_loop zero v p o = o
ceil_log2_loop (suc rounds) v p o =
    let rest = ceil_log2_loop rounds v (p * 2 % 2 ^ 64) (o + 1) in
    if ltb p v && ltb o 63 then rest else o

unfoldable pub ceil_log2 : ℕ → ℕ
unfolding ceil_log2_loop
ceil_log2 v = if v == 0 then 0 else ceil_log2_loop 63 v 1 0

-- while (v > 1) { v >>= 1; o++; }: a word is exhausted in at most 64 rounds.
unfoldable pub floor_log2_loop : (rounds v o : ℕ) → ℕ
floor_log2_loop zero v o = o
floor_log2_loop (suc rounds) v o =
    let rest = floor_log2_loop rounds (v / 2) (o + 1) in if ltb 1 v then rest else o

unfoldable pub floor_log2 : ℕ → ℕ
unfolding floor_log2_loop
floor_log2 v = floor_log2_loop 64 v 0

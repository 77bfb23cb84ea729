-- ===== src/Protocol/Crc/Bitwise.antt =====
-- The table-driven update against the definition of the CRC bit by bit.
use prospero_ai.Prelude.{
  ℕ, zero, suc, ◌+◌, ◌*◌, ◌/◌, ◌%◌, ◌^◌, ◌<◌, ◌≡◌, refl, sym, ap, ap₂, ◌∙◌, List, [], ◌∷◌, ◌++◌,
  All, get_or, bit_and, bit_xor, arith,
}
use prospero_ai.Prelude.Bits.{
  bit_and_ones, bit_xor-div_pow, bit_xor_disjoint, bit_xor-zero, bit_xor-lt,
}
use prospero_ai.Wire.Value.{IsByte}
use prospero_ai.Protocol.Crc.{crc_rounds, crc_table_build, crc_table, crc32_upd}
use prospero_ai.Protocol.Crc.Linear.{crc_rounds-bit_xor, crc_rounds-shift, crc_rounds-lt}

-- The textbook register: a byte is folded in at the low end, and eight bits are shifted out.
unfoldable pub crc_bitwise : ℕ → List ℕ → ℕ
crc_bitwise running [] = running
crc_bitwise running (b ∷ rest) = crc_bitwise (crc_rounds 8 (bit_xor running b)) rest

crc_table_build-entry :
    (n i k : ℕ) → k < n → get_or (crc_table_build n i) k 0 ≡ crc_rounds 8 (i + k)
unfolding crc_table_build
crc_table_build-entry zero i k h = absurd (omega arith)
crc_table_build-entry (suc n) i zero h = ap (crc_rounds 8) (omega arith)
crc_table_build-entry (suc n) i (suc k) h =
    crc_table_build-entry n (i + 1) k (omega arith) ∙ ap (crc_rounds 8) (omega arith)

-- Every entry of the table is eight rounds from its index.
pub crc_table-entry : (i : ℕ) → i < 256 → get_or crc_table i 0 ≡ crc_rounds 8 i
crc_table-entry i h =
    unfold crc_table in crc_table_build-entry 256 0 i h ∙ ap (crc_rounds 8) (omega arith)

crc_rounds-split : (x : ℕ) → crc_rounds 8 x ≡ bit_xor (crc_rounds 8 (x % 256)) (x / 2 ^ 8)
crc_rounds-split x =
    ap (crc_rounds 8) whole
    ∙ crc_rounds-bit_xor 8 (x % 256) (x / 2 ^ 8 * 2 ^ 8)
    ∙ ap (bit_xor (crc_rounds 8 (x % 256))) (crc_rounds-shift 8 (x / 2 ^ 8))
  where
    whole : x ≡ bit_xor (x % 256) (x / 2 ^ 8 * 2 ^ 8)
    whole = omega (arith, bit_xor_disjoint 8 (x % 256) (x / 2 ^ 8) (omega arith))

-- One byte through the table is one byte through the register.
crc_step :
    (running b : ℕ)
    → b < 256
    → bit_xor (get_or crc_table (bit_and (bit_xor running b) 0xFF) 0) (running / 2 ^ 8)
      ≡ crc_rounds 8 (bit_xor running b)
crc_step running b h = ap₂ bit_xor entry high ∙ sym (crc_rounds-split (bit_xor running b))
  where
    low : bit_and (bit_xor running b) 0xFF ≡ bit_xor running b % 256
    low = bit_and_ones 8 (bit_xor running b)

    entry :
        get_or crc_table (bit_and (bit_xor running b) 0xFF) 0
        ≡ crc_rounds 8 (bit_xor running b % 256)
    entry =
        ap (λ i. get_or crc_table i 0) low ∙ crc_table-entry (bit_xor running b % 256) (omega arith)

    none_left : b / 2 ^ 8 ≡ 0
    none_left = omega arith

    high : running / 2 ^ 8 ≡ bit_xor running b / 2 ^ 8
    high = sym (
        bit_xor-div_pow 8 running b
        ∙ ap (bit_xor (running / 2 ^ 8)) none_left
        ∙ bit_xor-zero (running / 2 ^ 8))

-- Over a list of bytes, the update by lookups in the table of 256 entries gives the register that
-- eight single-bit rounds for each byte give.
pub crc32_upd-crc_bitwise :
    (data' : List ℕ) (running : ℕ)
    → All IsByte data'
    → crc32_upd running data' ≡ crc_bitwise running data'
unfolding crc32_upd crc_bitwise
crc32_upd-crc_bitwise [] running h = refl
crc32_upd-crc_bitwise (b ∷ rest) running (hb, hrest) =
    ap (λ r. crc32_upd r rest) (crc_step running b hb)
    ∙ crc32_upd-crc_bitwise rest (crc_rounds 8 (bit_xor running b)) hrest

-- Updating the register with `xs` and then with `ys` gives what one update with `xs` followed by
-- `ys` gives.
pub crc32_upd-append :
    (xs ys : List ℕ) (running : ℕ)
    → crc32_upd running (xs ++ ys) ≡ crc32_upd (crc32_upd running xs) ys
unfolding crc32_upd
crc32_upd-append [] ys running = refl
crc32_upd-append (x ∷ xs) ys running = crc32_upd-append xs ys _

pub crc_bitwise-lt :
    (data' : List ℕ) (running : ℕ)
    → All IsByte data'
    → running < 2 ^ 32
    → crc_bitwise running data' < 2 ^ 32
unfolding crc_bitwise
crc_bitwise-lt [] running h r = r
crc_bitwise-lt (b ∷ rest) running (hb, hrest) r =
    crc_bitwise-lt rest _ hrest (crc_rounds-lt 8 _ (bit_xor-lt 32 running b r (omega arith)))

-- The register stays a 32-bit word, whatever is fed in.
pub crc32_upd-lt :
    (data' : List ℕ) (running : ℕ) → running < 2 ^ 32 → crc32_upd running data' < 2 ^ 32
unfolding crc32_upd
crc32_upd-lt [] running h = h
crc32_upd-lt (b ∷ rest) running h =
    crc32_upd-lt rest _ (bit_xor-lt 32 _ (running / 2 ^ 8) entry (omega arith))
  where
    index : ℕ
    index = bit_and (bit_xor running b) 0xFF

    small : index < 256
    small = omega (arith, bit_and_ones 8 (bit_xor running b))

    entry : get_or crc_table index 0 < 2 ^ 32
    entry = rw (crc_table-entry index small) (crc_rounds-lt 8 index (omega (arith, small)))

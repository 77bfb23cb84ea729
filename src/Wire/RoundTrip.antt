-- ===== src/Wire/RoundTrip.antt =====
-- The helpers of `Wire` against `le_bytes` and `le_value`.
use prospero_ai.Prelude.{
  ℕ, zero, suc, ◌+◌, ◌*◌, ◌/◌, ◌%◌, ◌^◌, ◌<◌, ◌≡◌, refl, ap, ap₂, ◌∙◌, sym, List, [], ◌∷◌, ◌++◌,
  length, All, arith, bit_and, bit_or, get_or, get_or-append,
}
use prospero_ai.Prelude.Bits.{bit_and_ones, bit_or_disjoint}
use native.Mathlib.Nat.{div-div-eq-div-mul}
use native.Mathlib.Numerals.{towards_suc}
use prospero_ai.Wire.{
  put_le16, put_le32, put_le64, put_le64_loop, get_le16, get_le32, get_le64, get_le64_loop,
  put_le64_halves, get_le64_halves,
}
use prospero_ai.Wire.Value.{
  IsByte, le_bytes, le_value, length-le_bytes, le_bytes-IsByte, le_value-le_bytes,
}

pub low_byte : (a : ℕ) → bit_and a 0xFF ≡ a % 256
low_byte a = bit_and_ones 8 a

pub put_le16-le_bytes : (v : ℕ) → put_le16 v ≡ le_bytes 2 v
unfolding put_le16 le_bytes
put_le16-le_bytes v = rw low_byte (ap₂ (λ a b. a ∷ b ∷ []) refl (omega arith))

pub put_le32-le_bytes : (v : ℕ) → put_le32 v ≡ le_bytes 4 v
unfolding put_le32 le_bytes
put_le32-le_bytes v =
    rw (low_byte, low_byte, low_byte)
      (ap₂ (λ a (t : List ℕ). (v % 256) ∷ a ∷ t) (omega arith)
        (ap₂ (λ a b. a ∷ b ∷ []) (omega arith) (omega arith)))

-- `v >> (8 * (i + 1))` is one byte further than `v >> (8 * i)`.
shift_suc : (i : ℕ) → 2 ^ (8 * (i + 1)) ≡ 2 ^ (8 * i) * 256
shift_suc i = ap (λ (n : ℕ). 2 ^ n) next ∙ eight (8 * i)
  where
    next : 8 * (i + 1) ≡ 8 * i + 8
    next = omega arith

    eight : (n : ℕ) → 2 ^ (n + 8) ≡ 2 ^ n * 256
    eight n = simp towards_suc (omega arith)

pub put_le64_loop-le_bytes : (n i v : ℕ) → put_le64_loop n i v ≡ le_bytes n (v / 2 ^ (8 * i))
unfolding put_le64_loop le_bytes
put_le64_loop-le_bytes zero i v = refl
put_le64_loop-le_bytes (suc n) i v = ap₂ ◌∷◌ (low_byte _) (
    put_le64_loop-le_bytes n (i + 1) v
    ∙ ap (le_bytes n) (rw shift_suc (sym (div-div-eq-div-mul v (2 ^ (8 * i)) 256))))

pub put_le64-le_bytes : (v : ℕ) → put_le64 v ≡ le_bytes 8 v
put_le64-le_bytes v =
    unfold put_le64 in put_le64_loop-le_bytes 8 0 v ∙ ap (le_bytes 8) (omega arith)

-- Reading a field through `|` of shifted bytes gives the value of the bytes, whatever follows.
pub get_le16-le_value :
    (a b : ℕ) (rest : List ℕ) → a < 256 → b < 256 → get_le16 (a ∷ b ∷ rest) ≡ a + 2 ^ 8 * b
unfolding get_le16
get_le16-le_value a b rest ha hb = rw (bit_or_disjoint 8 a b ha) (omega arith)

pub get_le32-le_value :
    (a b c d : ℕ) (rest : List ℕ)
    → a < 256
    → b < 256
    → c < 256
    → d < 256
    → get_le32 (a ∷ b ∷ c ∷ d ∷ rest) ≡ a + 2 ^ 8 * b + 2 ^ 16 * c + 2 ^ 24 * d
unfolding get_le32
get_le32-le_value a b c d rest ha hb hc hd =
    rw
      (
        bit_or_disjoint 8 a b ha,
        bit_or_disjoint 16 (a + b * 2 ^ 8) c (omega arith),
        bit_or_disjoint 24 (a + b * 2 ^ 8 + c * 2 ^ 16) d (omega arith),
      )
      (omega arith)

get_le64_loop-le_value :
    (bs : List ℕ) (i acc : ℕ) (p : List ℕ)
    → All IsByte bs
    → acc < 2 ^ (8 * i)
    → ((k : ℕ) → k < length bs → get_or p (i + k) 0 ≡ get_or bs k 0)
    → get_le64_loop (length bs) i p acc ≡ acc + le_value bs * 2 ^ (8 * i)
unfolding get_le64_loop le_value
get_le64_loop-le_value [] i acc p h lt at = omega arith
get_le64_loop-le_value (b ∷ bs) i acc p (hb, hbs) lt at =
    ap (get_le64_loop (length bs) (i + 1) p)
      (ap (λ x. bit_or acc (x * 2 ^ (8 * i))) first ∙ bit_or_disjoint (8 * i) acc b lt)
    ∙ get_le64_loop-le_value bs (i + 1) (acc + b * 2 ^ (8 * i)) p hbs below later
    ∙ rw shift_suc (omega arith)
  where
    first : get_or p i 0 ≡ b
    first = ap (λ (n : ℕ). get_or p n 0) (omega arith) ∙ at 0 (omega arith)

    below : acc + b * 2 ^ (8 * i) < 2 ^ (8 * (i + 1))
    below = rw shift_suc (grind arith)

    later : (k : ℕ) → k < length bs → get_or p (i + 1 + k) 0 ≡ get_or bs k 0
    later k h = ap (λ (n : ℕ). get_or p n 0) (omega arith) ∙ at (suc k) (omega arith)

pub get_le64-le_value :
    (bs rest : List ℕ) → length bs ≡ 8 → All IsByte bs → get_le64 (bs ++ rest) ≡ le_value bs
unfolding get_le64
get_le64-le_value bs rest n h =
    ap (λ k. get_le64_loop k 0 (bs ++ rest) 0) (sym n)
    ∙ get_le64_loop-le_value bs 0 0 (bs ++ rest) h (omega arith) reads
    ∙ omega arith
  where
    reads : (k : ℕ) → k < length bs → get_or (bs ++ rest) (0 + k) 0 ≡ get_or bs k 0
    reads k l =
        ap (λ (n : ℕ). get_or (bs ++ rest) n 0) {x = 0 + k} (omega arith)
        ∙ get_or-append bs rest k 0 l

-- What is written is read back, whatever follows it.
pub get_le16-put_le16 : (v : ℕ) (rest : List ℕ) → v < 2 ^ 16 → get_le16 (put_le16 v ++ rest) ≡ v
unfolding le_bytes
get_le16-put_le16 v rest h =
    rw put_le16-le_bytes (get_le16-le_value _ _ rest (omega arith) (omega arith) ∙ omega arith)

pub get_le32-le_bytes : (v : ℕ) (rest : List ℕ) → v < 2 ^ 32 → get_le32 (le_bytes 4 v ++ rest) ≡ v
unfolding le_bytes
get_le32-le_bytes v rest h =
    get_le32-le_value _ _ _ _ rest (omega arith) (omega arith) (omega arith) (omega arith)
    ∙ omega arith

pub get_le32-put_le32 : (v : ℕ) (rest : List ℕ) → v < 2 ^ 32 → get_le32 (put_le32 v ++ rest) ≡ v
get_le32-put_le32 v rest h = rw put_le32-le_bytes (get_le32-le_bytes v rest h)

pub get_le64-put_le64 : (v : ℕ) (rest : List ℕ) → v < 2 ^ 64 → get_le64 (put_le64 v ++ rest) ≡ v
get_le64-put_le64 v rest h = rw put_le64-le_bytes (
    get_le64-le_value (le_bytes 8 v) rest (length-le_bytes 8 v) (le_bytes-IsByte 8 v)
    ∙ le_value-le_bytes 8 v (omega arith))

-- The two 64-bit writers, the loop of frame.c and the halves of message.c, agree.
pub put_le64_halves-eq : (v : ℕ) → put_le64_halves v ≡ put_le64 v
unfolding put_le64_halves le_bytes
put_le64_halves-eq v =
    rw (put_le32-le_bytes, put_le32-le_bytes, put_le64-le_bytes)
      (ap₂ ◌∷◌ (omega arith) (
        ap₂ ◌∷◌ (omega arith) (
          ap₂ ◌∷◌ (omega arith) (
            ap₂ ◌∷◌ (omega arith) (
              ap₂ ◌∷◌ (omega arith)
                (ap₂ ◌∷◌ (omega arith) (ap₂ ◌∷◌ (omega arith) (ap₂ ◌∷◌ (omega arith) refl))))))))

pub get_le64_halves-put_le64_halves :
    (v : ℕ) (rest : List ℕ) → v < 2 ^ 64 → get_le64_halves (put_le64_halves v ++ rest) ≡ v
unfolding get_le64_halves put_le64_halves le_bytes
get_le64_halves-put_le64_halves v rest h =
    rw (put_le32-le_bytes, put_le32-le_bytes)
      (ap₂ (λ a b. bit_or a (b * 2 ^ 32)) low high
        ∙ bit_or_disjoint 32 (v % 2 ^ 32) (v / 2 ^ 32) (omega arith)
        ∙ omega arith)
  where
    low : get_le32 (le_bytes 4 (v % 2 ^ 32) ++ (le_bytes 4 (v / 2 ^ 32) ++ rest)) ≡ v % 2 ^ 32
    low = get_le32-le_bytes (v % 2 ^ 32) (le_bytes 4 (v / 2 ^ 32) ++ rest) (omega arith)

    high : get_le32 (le_bytes 4 (v / 2 ^ 32) ++ rest) ≡ v / 2 ^ 32
    high = get_le32-le_bytes (v / 2 ^ 32) rest (omega arith)

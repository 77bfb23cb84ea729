-- ===== src/Wire.antt =====
-- The little-endian helpers of protocol/frame.c and protocol/message.c. A pointer into a buffer is
-- the list of the bytes from there on, so `p + n` is `drop n p`; a byte past the end reads as 0.
pub mod Value
pub mod RoundTrip
use prospero_ai.Prelude.{
  ℕ, zero, suc, ◌+◌, ◌*◌, ◌/◌, ◌%◌, ◌^◌, bit_or, bit_and, List, [], ◌∷◌, ◌++◌, get_or, drop,
}

unfoldable pub put_le16 : ℕ → List ℕ
put_le16 v = bit_and v 0xFF ∷ (v / 2 ^ 8 % 256) ∷ []

unfoldable pub put_le32 : ℕ → List ℕ
put_le32 v =
    bit_and v 0xFF ∷ bit_and (v / 2 ^ 8) 0xFF ∷ bit_and (v / 2 ^ 16) 0xFF ∷ (v / 2 ^ 24 % 256) ∷ []

-- frame.c: for (i = 0; i < 8; i++) p[i] = (v >> (8 * i)) & 0xFF
unfoldable pub put_le64_loop : ℕ → ℕ → ℕ → List ℕ
put_le64_loop zero i v = []
put_le64_loop (suc rounds) i v = bit_and (v / 2 ^ (8 * i)) 0xFF ∷ put_le64_loop rounds (i + 1) v

unfoldable pub put_le64 : ℕ → List ℕ
unfolding put_le64_loop
put_le64 v = put_le64_loop 8 0 v

unfoldable pub get_le16 : List ℕ → ℕ
get_le16 p = bit_or (get_or p 0 0) (get_or p 1 0 * 2 ^ 8) % 2 ^ 16

unfoldable pub get_le32 : List ℕ → ℕ
get_le32 p =
    bit_or (bit_or (bit_or (get_or p 0 0) (get_or p 1 0 * 2 ^ 8)) (get_or p 2 0 * 2 ^ 16))
      (get_or p 3 0 * 2 ^ 24)

-- frame.c: for (i = 0; i < 8; i++) v |= (uint64_t)p[i] << (8 * i)
unfoldable pub get_le64_loop : ℕ → ℕ → List ℕ → ℕ → ℕ
get_le64_loop zero i p v = v
get_le64_loop (suc rounds) i p v =
    get_le64_loop rounds (i + 1) p (bit_or v (get_or p i 0 * 2 ^ (8 * i)))

unfoldable pub get_le64 : List ℕ → ℕ
unfolding get_le64_loop
get_le64 p = get_le64_loop 8 0 p 0

-- message.c writes and reads a 64-bit number as two 32-bit halves.
unfoldable pub put_le64_halves : ℕ → List ℕ
put_le64_halves v = put_le32 (v % 2 ^ 32) ++ put_le32 (v / 2 ^ 32)

unfoldable pub get_le64_halves : List ℕ → ℕ
get_le64_halves p = bit_or (get_le32 p) (get_le32 (drop 4 p) * 2 ^ 32)

-- ===== src/Protocol/Crc.antt =====
-- protocol/crc32.c. `data` with `nbytes` is the list of those bytes. `crc_table_ready` only says
-- whether the table stands in memory already, so here the table is a value.
pub mod Linear
pub mod Bitwise
pub mod Detect
use prospero_ai.Prelude.{
  ℕ, zero, suc, ◌+◌, ◌/◌, ◌^◌, bit_and, bit_xor, List, [], ◌∷◌, get_or, ◌==◌, if◌then◌else◌,
}

abbrev pub polynomial : ℕ
polynomial = 0xEDB88320

-- crc = (crc & 1) ? (crc >> 1) ^ 0xEDB88320 : crc >> 1
unfoldable pub crc_bit : ℕ → ℕ
crc_bit crc = if bit_and crc 1 == 0 then crc / 2 else bit_xor (crc / 2) polynomial

unfoldable pub crc_rounds : ℕ → ℕ → ℕ
unfolding crc_bit
crc_rounds zero crc = crc
crc_rounds (suc n) crc = crc_rounds n (crc_bit crc)

-- The entries from index `i` on.
unfoldable pub crc_table_build : ℕ → ℕ → List ℕ
unfolding crc_rounds
crc_table_build zero i = []
crc_table_build (suc n) i = crc_rounds 8 i ∷ crc_table_build n (i + 1)

unfoldable pub crc_table : List ℕ
unfolding crc_table_build
crc_table = crc_table_build 256 0

unfoldable pub crc32_init : ℕ
crc32_init = 0xFFFFFFFF

unfoldable pub crc32_upd : ℕ → List ℕ → ℕ
unfolding crc_table
crc32_upd running [] = running
crc32_upd running (b ∷ rest) =
    crc32_upd (bit_xor (get_or crc_table (bit_and (bit_xor running b) 0xFF) 0) (running / 2 ^ 8))
      rest

unfoldable pub crc32_fin : ℕ → ℕ
crc32_fin running = bit_xor running 0xFFFFFFFF

unfoldable pub crc32 : List ℕ → ℕ
unfolding crc32_upd crc32_init crc32_fin
crc32 bytes = crc32_fin (crc32_upd crc32_init bytes)

-- ===== src/Protocol/Crc/Detect.antt =====
-- Error detection: a change confined to four consecutive bytes always changes the checksum.
use prospero_ai.Prelude.{
  ℕ, zero, suc, ◌+◌, ◌*◌, ◌^◌, ◌<◌, ◌≤◌, ◌≡◌, ◌≢◌, sym, ap, ap₂, ◌∙◌, List, [], ◌∷◌, ◌++◌, All,
  bit_xor, arith, length,
}
use prospero_ai.Prelude.Bits.{
  bit_xor_disjoint, bit_xor-zero, bit_xor-lt, bit_xor_assoc, bit_xor_comm, bit_xor_injective,
}
use prospero_ai.Wire.Value.{IsByte, le_value, le_bytes, le_bytes-le_value, le_value-lt}
use prospero_ai.Protocol.Crc.{crc_rounds, crc32_upd, crc32_init, crc32_fin, crc32}
use prospero_ai.Protocol.Crc.Linear.{
  crc_rounds-bit_xor, crc_rounds-shift, crc_rounds-lt, crc_rounds_injective,
}
use prospero_ai.Protocol.Crc.Bitwise.{
  crc_bitwise, crc32_upd-crc_bitwise, crc32_upd-append, crc_bitwise-lt,
}

byte_rounds : ℕ → ℕ → ℕ
byte_rounds zero c = c
byte_rounds (suc n) c = byte_rounds n (crc_rounds 8 c)

byte_rounds_injective :
    (n a b : ℕ) → a < 2 ^ 32 → b < 2 ^ 32 → byte_rounds n a ≡ byte_rounds n b → a ≡ b
unfolding byte_rounds
byte_rounds_injective zero a b ha hb e = e
byte_rounds_injective (suc n) a b ha hb e =
    crc_rounds_injective 8 a b ha hb
      (byte_rounds_injective n _ _ (crc_rounds-lt 8 a ha) (crc_rounds-lt 8 b hb) e)

-- Folding bytes in one by one is folding their little-endian value in at once.
crc_bitwise-window :
    (bs : List ℕ) (running : ℕ)
    → All IsByte bs
    → crc_bitwise running bs ≡ byte_rounds (length bs) (bit_xor running (le_value bs))
unfolding crc_bitwise byte_rounds le_value
crc_bitwise-window [] running h = sym (bit_xor-zero running)
crc_bitwise-window (b ∷ bs) running (hb, hbs) =
    crc_bitwise-window bs (crc_rounds 8 (bit_xor running b)) hbs
    ∙ ap (byte_rounds (length bs)) (sym one_byte)
  where
    v : ℕ
    v = le_value bs

    value : b + 256 * v ≡ bit_xor b (v * 2 ^ 8)
    value = omega (arith, bit_xor_disjoint 8 b v hb)

    one_byte :
        crc_rounds 8 (bit_xor running (b + 256 * v)) ≡ bit_xor (crc_rounds 8 (bit_xor running b)) v
    one_byte =
        ap (crc_rounds 8) (ap (bit_xor running) value ∙ sym (bit_xor_assoc running b (v * 2 ^ 8)))
        ∙ crc_rounds-bit_xor 8 (bit_xor running b) (v * 2 ^ 8)
        ∙ ap (bit_xor (crc_rounds 8 (bit_xor running b))) (crc_rounds-shift 8 v)

word-lt : (bs : List ℕ) → All IsByte bs → length bs ≤ 4 → le_value bs < 2 ^ 32
word-lt [] h l = unfold le_value in omega arith
word-lt (a ∷ []) h l = omega (arith, le_value-lt (a ∷ []) h)
word-lt (a ∷ b ∷ []) h l = omega (arith, le_value-lt (a ∷ b ∷ []) h)
word-lt (a ∷ b ∷ c ∷ []) h l = omega (arith, le_value-lt (a ∷ b ∷ c ∷ []) h)
word-lt (a ∷ b ∷ c ∷ d ∷ []) h l = omega (arith, le_value-lt (a ∷ b ∷ c ∷ d ∷ []) h)
word-lt (a ∷ b ∷ c ∷ d ∷ e ∷ r) h l = absurd (omega arith)

le_value_injective :
    (v w : List ℕ)
    → All IsByte v
    → All IsByte w
    → length v ≡ length w
    → le_value v ≡ le_value w
    → v ≡ w
le_value_injective v w hv hw n e =
    sym (le_bytes-le_value v hv) ∙ ap₂ le_bytes n e ∙ le_bytes-le_value w hw

crc_bitwise_injective :
    (bs : List ℕ) (a b : ℕ)
    → All IsByte bs
    → a < 2 ^ 32
    → b < 2 ^ 32
    → crc_bitwise a bs ≡ crc_bitwise b bs
    → a ≡ b
unfolding crc_bitwise
crc_bitwise_injective [] a b h ha hb e = e
crc_bitwise_injective (x ∷ bs) a b (hx, hbs) ha hb e = bit_xor_injective a b x (
    crc_rounds_injective 8 _ _ (word a ha) (word b hb) (
      crc_bitwise_injective bs _ _ hbs (crc_rounds-lt 8 _ (word a ha))
        (crc_rounds-lt 8 _ (word b hb)) e))
  where
    word : (c : ℕ) → c < 2 ^ 32 → bit_xor c x < 2 ^ 32
    word c hc = bit_xor-lt 32 c x hc (omega arith)

-- From one register, two windows of at most four bytes that lead to the same register are equal.
window_injective :
    (v w : List ℕ) (r : ℕ)
    → All IsByte v
    → All IsByte w
    → r < 2 ^ 32
    → length v ≡ length w
    → length v ≤ 4
    → crc_bitwise r v ≡ crc_bitwise r w
    → v ≡ w
window_injective v w r hv hw hr n l e = le_value_injective v w hv hw n (
    bit_xor_injective _ _ r (
      bit_xor_comm _ r
      ∙ byte_rounds_injective (length v) _ _ (bit_xor-lt 32 r _ hr (word-lt v hv l))
          (bit_xor-lt 32 r _ hr (word-lt w hw (omega arith)))
          (sym (crc_bitwise-window v r hv)
            ∙ e
            ∙ crc_bitwise-window w r hw
            ∙ ap (λ k. byte_rounds k (bit_xor r (le_value w))) (sym n))
      ∙ bit_xor_comm r _))

-- The running update, over a prefix, a window and a suffix.
pub crc32_upd-detects :
    (pre v w post : List ℕ) (running : ℕ)
    → All IsByte pre
    → All IsByte v
    → All IsByte w
    → All IsByte post
    → running < 2 ^ 32
    → length v ≡ length w
    → length v ≤ 4
    → crc32_upd running (pre ++ v ++ post) ≡ crc32_upd running (pre ++ w ++ post)
    → v ≡ w
crc32_upd-detects pre v w post running hpre hv hw hpost hr n l e =
    window_injective v w before hv hw hbefore n l (
      crc_bitwise_injective post _ _ hpost (crc_bitwise-lt v before hv hbefore)
        (crc_bitwise-lt w before hw hbefore) (sym (parts v hv) ∙ e ∙ parts w hw))
  where
    before : ℕ
    before = crc_bitwise running pre

    hbefore : before < 2 ^ 32
    hbefore = crc_bitwise-lt pre running hpre hr

    parts :
        (x : List ℕ)
        → All IsByte x
        → crc32_upd running (pre ++ x ++ post) ≡ crc_bitwise (crc_bitwise before x) post
    parts x hx =
        crc32_upd-append (pre ++ x) post running
        ∙ ap (λ r. crc32_upd r post)
            (crc32_upd-append pre x running
              ∙ ap (λ r. crc32_upd r x) (crc32_upd-crc_bitwise pre running hpre)
              ∙ crc32_upd-crc_bitwise x before hx)
        ∙ crc32_upd-crc_bitwise post (crc_bitwise before x) hpost

-- Two byte strings that differ only within one window of at most four bytes have different CRCs.
pub crc32-detects :
    (pre v w post : List ℕ)
    → All IsByte pre
    → All IsByte v
    → All IsByte w
    → All IsByte post
    → length v ≡ length w
    → length v ≤ 4
    → v ≢ w
    → crc32 (pre ++ v ++ post) ≢ crc32 (pre ++ w ++ post)
unfolding crc32 crc32_fin
crc32-detects pre v w post hpre hv hw hpost n l ne e = ne (
    crc32_upd-detects pre v w post crc32_init hpre hv hw hpost (unfold crc32_init in omega arith) n
      l (bit_xor_injective _ _ 0xFFFFFFFF e))

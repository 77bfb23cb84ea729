-- ===== src/Protocol/Message/Blob.antt =====
-- Length-prefixed bytes: TOKEN and EMBED.
use prospero_ai.Prelude.{
  ℕ, ◌+◌, ◌%◌, ◌^◌, ◌≤◌, ◌<◌, ◌≡◌, refl, ap, ◌∙◌, Bool, true, some, List, ◌++◌, length,
  length-append, take_all, drop, ltb, if◌then◌else◌, arith,
}
use prospero_ai.Status.{Result, ok, err, Status}
use prospero_ai.Wire.{put_le16}
use prospero_ai.Wire.RoundTrip.{get_le16-put_le16}
use prospero_ai.Protocol.Message.{
  encode_u16_blob, decode_u16_blob, encode_token, decode_token, encode_embed, decode_embed,
}

pub drop-put_le16 : (v : ℕ) (rest : List ℕ) → drop 2 (put_le16 v ++ rest) ≡ rest
unfolding put_le16
drop-put_le16 v rest = refl

length-put_le16 : (v : ℕ) → length (put_le16 v) ≡ 2
unfolding put_le16
length-put_le16 v = refl

-- A prefix that tells the truth is read back, with the bytes behind it.
pub decode_u16_blob-prefix :
    (n len : ℕ) (rest : List ℕ)
    → n < 2 ^ 16
    → 2 + n ≤ len
    → decode_u16_blob (some (put_le16 n ++ rest)) len true ≡ ok (rest, n)
unfolding decode_u16_blob
decode_u16_blob-prefix n len rest small fits =
    rw (get_le16-put_le16 n rest small, drop-put_le16 n rest) (ground arith)

pub encode_u16_blob-ok :
    (cap : ℕ) (blob : List ℕ)
    → length blob < 2 ^ 16
    → 2 + length blob ≤ cap
    → encode_u16_blob true cap (some blob) (length blob)
      ≡ ok (put_le16 (length blob) ++ blob, 2 + length blob)
unfolding encode_u16_blob
encode_u16_blob-ok cap blob small room =
    rw (take_all blob (length blob) (omega arith))
      (ap (λ (n : ℕ). written n) wrapped ∙ ground arith)
  where
    written : ℕ → Result (List ℕ × ℕ)
    written n =
        if ltb 0xFFFF (length blob)
        then err Status.invalid_arg
        else if ltb cap ((2 + length blob) % 2 ^ 32)
        then err Status.invalid_arg
        else ok (put_le16 n ++ blob, (2 + length blob) % 2 ^ 32)

    wrapped : length blob % 2 ^ 16 ≡ length blob
    wrapped = omega arith

-- Bytes within the limit of a 16-bit prefix and the buffer, sent as a TOKEN or an EMBED payload,
-- are read back by the decoder of either message, with their number.
pub decode_embed-encode_embed :
    (cap : ℕ) (text : List ℕ)
    → length text < 2 ^ 16
    → 2 + length text ≤ cap
    → (payload : List ℕ) × (len : ℕ) × (encode_embed true cap (some text) (length text)
        ≡ ok (payload, len))
      × (encode_token true cap (some text) (length text) ≡ ok (payload, len))
      × (length payload ≡ len)
      × (decode_embed (some payload) len ≡ ok (text, length text))
      × (decode_token (some payload) len true ≡ ok (text, length text))
unfolding encode_embed encode_token decode_token decode_embed
decode_embed-encode_embed cap text small room = (
  put_le16 (length text) ++ text,
  2 + length text,
  encode_u16_blob-ok cap text small room,
  encode_u16_blob-ok cap text small room,
  length-append (put_le16 (length text)) text
      ∙ ap (λ n. n + length text) (length-put_le16 (length text)),
  rw (read, decode_embed) (ground arith),
  read,
)
  where
    read :
        decode_u16_blob (some (put_le16 (length text) ++ text)) (2 + length text) true
        ≡ ok (text, length text)
    read = decode_u16_blob-prefix (length text) (2 + length text) text small (omega arith)

-- Whatever arrives, a decoder that accepts it hands out bytes that lie within the `len` bytes of the
-- payload, after the prefix; EMBED accepts only a payload that they fill.
pub decode_u16_blob_bounds :
    (payload : List ℕ) (len : ℕ) (outputs : Bool) (blob : List ℕ) (n : ℕ)
    → (decode_token (some payload) len outputs ≡ ok (blob, n)
        → (blob ≡ drop 2 payload) × (2 + n ≤ len))
      × (decode_embed (some payload) len ≡ ok (blob, n) → (blob ≡ drop 2 payload) × (2 + n ≡ len))
unfolding decode_token decode_embed decode_u16_blob
decode_u16_blob_bounds payload len outputs blob n =
    ((λ e. ground (arith, e)), (λ e. ground (arith, e)))

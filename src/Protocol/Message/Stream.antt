-- ===== src/Protocol/Message/Stream.antt =====
-- STREAM_DATA: a kind, an ordinal and length-prefixed bytes.
use prospero_ai.Prelude.{
  ℕ, ◌+◌, ◌-◌, ◌%◌, ◌^◌, ◌≤◌, ◌<◌, ◌≡◌, refl, ap, ◌∙◌, Bool, true, not, ◌||◌, Option, some, none,
  List, ◌∷◌, ◌++◌, length, take, take_all, drop, get_or, ltb, if◌then◌else◌, arith,
}
use prospero_ai.Status.{Result, ok, err, Status}
use prospero_ai.Wire.{put_le32, get_le32}
use prospero_ai.Wire.RoundTrip.{get_le32-put_le32}
use prospero_ai.Protocol.Message.{missing, bytes_of}

-- What is written to `out`.
unfoldable pub stream_image : (kind seq : ℕ) → List ℕ → (data_len : ℕ) → List ℕ
stream_image kind seq bytes data_len =
    kind ∷ 0 ∷ 0 ∷ 0 ∷ (put_le32 seq ++ (put_le32 data_len ++ take data_len bytes))

-- The bytes that the function writes, whatever the room, and the number in `*out_len`.
unfoldable pub encode_stream_data :
    (outputs : Bool) (cap kind seq : ℕ) → Option (List ℕ) → (data_len : ℕ) → Result (List ℕ × ℕ)
unfolding stream_image missing bytes_of
encode_stream_data outputs cap kind seq bytes data_len =
    let total = (12 + data_len) % 2 ^ 32 in
    if not outputs
    then err Status.invalid_arg
    else if missing bytes data_len
    then err Status.invalid_arg
    else if ltb cap total
    then err Status.invalid_arg
    else ok (stream_image kind seq (bytes_of bytes) data_len, total)

-- `*out_kind`, `*out_seq`, the bytes from `*out_data` on, and `*out_data_len`.
unfoldable pub decode_stream_data :
    Option (List ℕ) → (len : ℕ) → (outputs : Bool) → Result (ℕ × ℕ × List ℕ × ℕ)
decode_stream_data none len outputs = err Status.protocol
decode_stream_data (some payload) len outputs =
    let data_len = get_le32 (drop 8 payload) in
    if not outputs || ltb len 12
    then err Status.protocol
    else if ltb (len - 12) data_len
    then err Status.protocol
    else ok (get_or payload 0 0, get_le32 (drop 4 payload), drop 12 payload, data_len)

module _ (kind seq : ℕ) (bytes : List ℕ) where
  length-stream_image : length (stream_image kind seq bytes (length bytes)) ≡ 12 + length bytes
  unfolding stream_image put_le32
  length-stream_image = omega (arith, ap length (take_all bytes (length bytes) (omega arith)))

  accepts :
      (cap : ℕ)
      → (12 + length bytes) % 2 ^ 32 ≤ cap
      → encode_stream_data true cap kind seq (some bytes) (length bytes)
        ≡ ok (stream_image kind seq bytes (length bytes), (12 + length bytes) % 2 ^ 32)
  unfolding encode_stream_data
  accepts cap room = ground arith

  decode-stream_image :
      seq < 2 ^ 32
      → length bytes < 2 ^ 32
      → decode_stream_data
          (some (stream_image kind seq bytes (length bytes)))
          (12 + length bytes)
          true
        ≡ ok (kind, seq, bytes, length bytes)
  unfolding decode_stream_data
  decode-stream_image word small = rw (read_kind, read_seq, read_len, read_data) (ground arith)
    where
      image : List ℕ
      image = stream_image kind seq bytes (length bytes)

      read_kind : get_or image 0 0 ≡ kind
      read_kind = unfold stream_image in refl

      read_seq : get_le32 (drop 4 image) ≡ seq
      read_seq = unfold stream_image in get_le32-put_le32 seq _ word

      read_len : get_le32 (drop 8 image) ≡ length bytes
      read_len = unfold stream_image put_le32 in get_le32-put_le32 (length bytes) _ small

      read_data : drop 12 image ≡ bytes
      read_data = unfold stream_image put_le32 in take_all bytes (length bytes) (omega arith)

-- When header and data are below 2^32 bytes and within the room, they are sent, and the decoder gives
-- the kind, the ordinal and the data back. When header and data are 2^32 bytes or more but the room
-- is not less than what the sum wraps to, the call is accepted all the same, and writes more bytes
-- than there is room for.
pub encode_stream_data_outcome :
    (cap kind seq : ℕ) (bytes : List ℕ)
    → seq < 2 ^ 32
    → length bytes < 2 ^ 32
    → cap < 2 ^ 32
    → (12 + length bytes < 2 ^ 32
        → 12 + length bytes ≤ cap
        → (payload : List ℕ) × (encode_stream_data true cap kind seq (some bytes) (length bytes)
            ≡ ok (payload, 12 + length bytes))
          × (length payload ≡ 12 + length bytes)
          × (decode_stream_data (some payload) (12 + length bytes) true
              ≡ ok (kind, seq, bytes, length bytes)))
      × (2 ^ 32 ≤ 12 + length bytes
          → 12 + length bytes - 2 ^ 32 ≤ cap
          → (payload : List ℕ) × (encode_stream_data true cap kind seq (some bytes) (length bytes)
              ≡ ok (payload, 12 + length bytes - 2 ^ 32))
            × (cap < length payload))
encode_stream_data_outcome cap kind seq bytes word small room = (
  (λ fits enough. (
    image,
    accepts kind seq bytes cap (omega arith) ∙ ap (λ n. ok (image, n)) (omega arith),
    length-stream_image kind seq bytes,
    decode-stream_image kind seq bytes word small,
  )),
  (λ wraps enough. (
    image,
    accepts kind seq bytes cap (omega arith) ∙ ap (λ n. ok (image, n)) (omega arith),
    omega (arith, length-stream_image kind seq bytes),
  )),
)
  where
    image : List ℕ
    image = stream_image kind seq bytes (length bytes)

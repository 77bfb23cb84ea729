-- ===== src/Protocol/Tests.antt =====
-- Runs of protocol/crc32.c and protocol/frame.c at concrete inputs.
use prospero_ai.Prelude.{
  ℕ, ◌+◌, ◌-◌, ◌<◌, ◌≤◌, ◌^◌, ◌≡◌, ◌≢◌, refl, true, false, min, none, some, List, [], ◌∷◌, ◌++◌,
  length, take, drop, All, arith,
}
use prospero_ai.Status.{to_u32, ok, err, Status}
use prospero_ai.Wire.Value.{IsByte}
use prospero_ai.Protocol.Crc.{crc32, crc32_init, crc32_upd}
use prospero_ai.Protocol.Crc.Bitwise.{crc_bitwise, crc32_upd-crc_bitwise}
use prospero_ai.Protocol.Crc.Detect.{crc32-detects}
use prospero_ai.Protocol.Frame.{
  Frame, header_size, frame_image, frame_encode, frame_decode, frame_validate,
}
use prospero_ai.Protocol.Frame.Encode.{IsSendable, frame_encode_outcome}
use prospero_ai.Protocol.Frame.RoundTrip.{IsFrame, frame_decode-frame_encode}
use prospero_ai.Protocol.Frame.Integrity.{frame_validate_damaged}
use prospero_ai.Protocol.Message.Report.{encode_error, decode_error, decode_error-encode_error}
use prospero_ai.Protocol.Message.{
  Sampler, encode_generate2, decode_generate2, encode_embed, decode_embed, encode_token,
  decode_token,
}
use prospero_ai.Protocol.Message.Blob.{decode_embed-encode_embed, decode_u16_blob_bounds}
use prospero_ai.Protocol.Message.Generate.{IsSampler, decode_generate2-encode_generate2}
use prospero_ai.Protocol.Pipe.{Pipe, Outcome, pipe_push, pipe_pull}
use prospero_ai.Protocol.Pipe.Queue.{contents, IsPipe, IsStuck, Appends, pipe_push_outcome}
use prospero_ai.Protocol.Pipe.Pull.{pipe_pull_outcome}
use prospero_ai.Protocol.Message.Stream.{
  encode_stream_data, decode_stream_data, encode_stream_data_outcome,
}

abbrev letters : List ℕ
letters = 97 ∷ 98 ∷ 99 ∷ []

letters-IsByte : All IsByte letters
letters-IsByte = (omega arith, (omega arith, (omega arith, tt)))

abbrev digits : List ℕ
digits = 48 ∷ 49 ∷ []

digits-IsByte : All IsByte digits
digits-IsByte = (omega arith, (omega arith, tt))

letters≢digits : (120 ∷ 48 ∷ []) ≢ digits
letters≢digits e = cc

-- A request with a payload of three bytes.
abbrev request : Frame
request = record {
  version = 1;
  msg_type = 0x0101;
  flags = 1;
  request_id = 7;
  session_id = 2 ^ 40;
  payload = letters;
  payload_len = 3;
}

request-IsFrame : IsFrame request
request-IsFrame = record {
  flags_in = omega arith;
  type_in = omega arith;
  request_in = omega arith;
  session_in = omega arith;
  sized = refl;
  payload_in = letters-IsByte;
}

request-IsSendable : IsSendable request 64
request-IsSendable = record { within = omega arith; plain = refl; room = omega arith }

request_sent : frame_encode (some request) true 64 ≡ ok (frame_image request, 43)
request_sent = (frame_encode_outcome request 64).0 request-IsSendable

crc32_upd-crc_bitwise_example : crc32_upd crc32_init letters ≡ crc_bitwise crc32_init letters
crc32_upd-crc_bitwise_example = crc32_upd-crc_bitwise letters crc32_init letters-IsByte

crc32-detects_example :
    crc32 (letters ++ (120 ∷ 48 ∷ []) ++ digits) ≢ crc32 (letters ++ digits ++ digits)
crc32-detects_example =
    crc32-detects letters (120 ∷ 48 ∷ []) digits digits letters-IsByte
      (omega arith, (omega arith, tt)) digits-IsByte digits-IsByte refl (omega arith) letters≢digits

frame_encode_outcome_example :
    (IsSendable request 64 → frame_encode (some request) true 64 ≡ ok (frame_image request, 43))
    × ((IsSendable request 64 → ⊥) → frame_encode (some request) true 64 ≡ err Status.invalid_arg)
frame_encode_outcome_example = frame_encode_outcome request 64

frame_decode-frame_encode_example :
    (frame_decode (some (frame_image request)) true
      ≡ ok (record request { version = 1; payload = [] }))
    × (drop header_size (frame_image request) ≡ letters)
    × (frame_validate (some (frame_image request)) (some letters) ≡ ok tt)
    × (length (frame_image request) ≡ 43)
    × (43 ≤ 64)
frame_decode-frame_encode_example =
    frame_decode-frame_encode request 64 request-IsFrame request_sent

frame_validate_damaged_example :
    frame_validate (some (frame_image request)) (some (97 ∷ 48 ∷ 49 ∷ [])) ≡ err Status.protocol
frame_validate_damaged_example =
    frame_validate_damaged request 64 (97 ∷ []) (98 ∷ 99 ∷ []) digits [] request-IsFrame
      request_sent refl (omega arith, tt) (omega arith, (omega arith, tt)) digits-IsByte tt refl
      (omega arith) (λ e. cc)

-- A prompt with a sampler and without.
abbrev settings : Sampler
settings = record {
  temperature = 0x3F800000;
  top_p = 0x3F000000;
  top_k = 40;
  max_tokens = 128;
  seed = 2 ^ 33;
}

settings-IsSampler : IsSampler settings
settings-IsSampler = record {
  temperature_in = omega arith;
  top_p_in = omega arith;
  top_k_in = omega arith;
  max_tokens_in = omega arith;
  seed_in = omega arith;
}

decode_generate2-encode_generate2_example :
    (payload : List ℕ) × (bytes : List ℕ) × (encode_generate2 64 (some letters) (some settings)
      ≡ ok (payload, 33))
    × (length payload ≡ 33)
    × (decode_generate2 (some payload) 33 ≡ ok (bytes, 3, some settings))
    × (take 3 bytes ≡ letters)
decode_generate2-encode_generate2_example =
    decode_generate2-encode_generate2 64 letters (some settings) (omega arith) settings-IsSampler
      (omega arith)

decode_embed-encode_embed_example :
    (payload : List ℕ) × (len : ℕ) × (encode_embed true 5 (some letters) 3 ≡ ok (payload, len))
    × (encode_token true 5 (some letters) 3 ≡ ok (payload, len))
    × (length payload ≡ len)
    × (decode_embed (some payload) len ≡ ok (letters, 3))
    × (decode_token (some payload) len true ≡ ok (letters, 3))
decode_embed-encode_embed_example = decode_embed-encode_embed 5 letters (omega arith) (omega arith)

decode_u16_blob_bounds_example :
    (decode_token (some (2 ∷ 0 ∷ letters)) 5 true ≡ ok (letters, 2)
      → (letters ≡ drop 2 (2 ∷ 0 ∷ letters)) × (4 ≤ 5))
    × (decode_embed (some (2 ∷ 0 ∷ letters)) 5 ≡ ok (letters, 2)
        → (letters ≡ drop 2 (2 ∷ 0 ∷ letters)) × (length (3 ∷ letters) ≡ 5))
decode_u16_blob_bounds_example = decode_u16_blob_bounds (2 ∷ 0 ∷ letters) 5 true letters 2

-- A pipe from which two of five bytes were received.
abbrev half_read : Pipe
half_read = record { buf = 1 ∷ 2 ∷ letters; cap = 5; head = 2; len = 3; closed = false }

half_read-IsPipe : IsPipe half_read
half_read-IsPipe = record { sized = refl; inside = omega arith; word = omega arith }

pipe_push_outcome_example :
    ((IsStuck half_read 2 → ⊥) → Appends (pipe_push true half_read digits) half_read digits)
    × (IsStuck half_read 2 → pipe_push true half_read digits ≡ Outcome.overflows)
pipe_push_outcome_example = pipe_push_outcome half_read digits half_read-IsPipe refl (omega arith)

-- Two bytes fit by number, so the buffer does not grow, but they do not fit behind the rest.
overflow_run : pipe_push true half_read digits ≡ Outcome.overflows
overflow_run =
    (pipe_push_outcome half_read digits half_read-IsPipe refl (omega arith)).1
      (omega arith, omega arith, omega arith)

pipe_pull_outcome_example :
    ((pipe_pull half_read 2).1 ++ contents (pipe_pull half_read 2).2 ≡ contents half_read)
    × (length (pipe_pull half_read 2).1 ≡ min 2 half_read.len)
    × IsPipe (pipe_pull half_read 2).2
pipe_pull_outcome_example = pipe_pull_outcome half_read 2 half_read-IsPipe

encode_stream_data_outcome_example :
    (15 < 2 ^ 32
      → 15 ≤ 64
      → (payload : List ℕ) × (encode_stream_data true 64 1 9 (some letters) 3 ≡ ok (payload, 15))
        × (length payload ≡ 15)
        × (decode_stream_data (some payload) 15 true ≡ ok (1, 9, letters, 3)))
    × (2 ^ 32 ≤ 15
        → 15 - 2 ^ 32 ≤ 64
        → (payload : List ℕ) × (encode_stream_data true 64 1 9 (some letters) 3
            ≡ ok (payload, 15 - 2 ^ 32))
          × (64 < length payload))
encode_stream_data_outcome_example =
    encode_stream_data_outcome 64 1 9 letters (omega arith) (omega arith) (omega arith)

decode_error-encode_error_example :
    (payload : List ℕ) × (encode_error true 64 Status.nomem (some letters) ≡ ok (payload, 8 + 3))
    × (length payload ≡ 8 + 3)
    × (encode_error true 64 Status.nomem none ≡ encode_error true 64 Status.nomem (some []))
    × (decode_error (some payload) (length payload) true true 3
        ≡ ok (to_u32 Status.nomem, some (take 2 letters ++ (0 ∷ []))))
    × (length (take 2 letters ++ (0 ∷ [])) ≤ 3)
    × (decode_error (some payload) (length payload) true true 0 ≡ ok (to_u32 Status.nomem, none))
decode_error-encode_error_example =
    decode_error-encode_error Status.nomem letters 64 3 (omega arith) (omega arith) (omega arith)

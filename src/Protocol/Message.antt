-- ===== src/Protocol/Message.antt =====
-- protocol/message.c: the payload of GENERATE, TOKEN and EMBED. A pointer to bytes that the code
-- tests against NULL is an `Option`; `outputs` says that the pointers through which a function only
-- writes are not NULL. A string is the bytes before its NUL, so `strlen` is their number. A float is
-- the number that its bits stand for, which the code copies as four little-endian bytes.
pub mod Generate
pub mod Blob
pub mod Stream
pub mod Report
use prospero_ai.Prelude.{
  ℕ, ◌+◌, ◌-◌, ◌%◌, ◌^◌, Bool, true, false, not, ◌&&◌, ◌||◌, Option, none, some, List, [], ◌∷◌,
  ◌++◌, length, take, drop, ltb, ◌==◌, if◌then◌else◌,
}
use prospero_ai.Status.{Result, ok, err, Status}
use prospero_ai.Wire.{put_le16, put_le32, put_le64_halves, get_le16, get_le32, get_le64_halves}

-- pai_proto_sampler_t
pub record Sampler : Type 0 where
  pub temperature : ℕ
  pub top_p : ℕ
  pub top_k : ℕ
  pub max_tokens : ℕ
  pub seed : ℕ

abbrev pub sampler_magic : ℕ
sampler_magic = 0x50414953

-- sizeof(pai_proto_sampler_t)
abbrev pub sampler_size : ℕ
sampler_size = 24

-- blob_len > 0 && !blob
unfoldable pub missing : Option (List ℕ) → (blob_len : ℕ) → Bool
missing none blob_len = ltb 0 blob_len
missing (some blob) blob_len = false

unfoldable pub bytes_of : Option (List ℕ) → List ℕ
bytes_of none = []
bytes_of (some blob) = blob

-- The bytes written to `out` and the number in `*out_len`.
unfoldable pub encode_u16_blob :
    (outputs : Bool) (cap : ℕ) → Option (List ℕ) → (blob_len : ℕ) → Result (List ℕ × ℕ)
unfolding missing bytes_of
encode_u16_blob outputs cap blob blob_len =
    let total = (2 + blob_len) % 2 ^ 32 in
    if not outputs
    then err Status.invalid_arg
    else if ltb 0xFFFF blob_len
    then err Status.invalid_arg
    else if missing blob blob_len
    then err Status.invalid_arg
    else if ltb cap total
    then err Status.invalid_arg
    else ok (put_le16 (blob_len % 2 ^ 16) ++ take blob_len (bytes_of blob), total)

-- The bytes from `*out_blob` on, and `*out_blob_len`.
unfoldable pub decode_u16_blob :
    Option (List ℕ) → (len : ℕ) → (outputs : Bool) → Result (List ℕ × ℕ)
decode_u16_blob none len outputs = err Status.protocol
decode_u16_blob (some payload) len outputs =
    if not outputs || ltb len 2
    then err Status.protocol
    else if ltb (len - 2) (get_le16 payload)
    then err Status.protocol
    else ok (drop 2 payload, get_le16 payload)

unfoldable pub encode_sampler_trailer : Sampler → List ℕ
encode_sampler_trailer s =
    put_le32 sampler_magic
    ++ (put_le32 s.temperature
        ++ (put_le32 s.top_p
            ++ (put_le32 s.top_k ++ (put_le32 s.max_tokens ++ put_le64_halves s.seed))))

unfoldable pub decode_sampler_trailer : List ℕ → (len : ℕ) → Result Sampler
decode_sampler_trailer trailer len =
    if not (len == 4 + sampler_size) || not (get_le32 trailer == sampler_magic)
    then err Status.protocol
    else ok (record {
      temperature = get_le32 (drop 4 trailer);
      top_p = get_le32 (drop 8 trailer);
      top_k = get_le32 (drop 12 trailer);
      max_tokens = get_le32 (drop 16 trailer);
      seed = get_le64_halves (drop 20 trailer);
    })

-- The code tests the output pointers only where there is no sampler; here they are not NULL.
unfoldable pub encode_generate2 : (cap : ℕ) → Option (List ℕ) → Option Sampler → Result (List ℕ × ℕ)
unfolding encode_u16_blob encode_sampler_trailer
encode_generate2 cap none sampler = err Status.invalid_arg
encode_generate2 cap (some prompt) none =
    let plen = length prompt % 2 ^ 32 in
    if ltb 0xFFFF plen then err Status.invalid_arg else encode_u16_blob true cap (some prompt) plen
encode_generate2 cap (some prompt) (some sampler) =
    let plen = length prompt % 2 ^ 32 in
    let total = (2 + plen + 4 + sampler_size) % 2 ^ 32 in
    if ltb 0xFFFF plen
    then err Status.invalid_arg
    else if ltb cap total
    then err Status.invalid_arg
    else ok
        (put_le16 (plen % 2 ^ 16) ++ (take plen prompt ++ encode_sampler_trailer sampler), total)

-- `*out_sampler`, when `*out_has_sampler` is set.
unfoldable pub trailing_sampler : List ℕ → (len plen : ℕ) → Option Sampler
unfolding decode_sampler_trailer
trailing_sampler payload len plen =
    let found = decode_sampler_trailer (drop (2 + plen) payload) (len - (2 + plen)) in
    if ltb (2 + plen) len then (elim found [ ok s ↦ some s | err e ↦ none ]) else none

-- The bytes from `*out_prompt` on, `*out_prompt_len` and the sampler, all pointers not NULL.
unfoldable pub decode_generate2 : Option (List ℕ) → (len : ℕ) → Result (List ℕ × ℕ × Option Sampler)
unfolding decode_u16_blob trailing_sampler
decode_generate2 none len = err Status.protocol
decode_generate2 (some payload) len = elim (decode_u16_blob (some payload) len true) [
  | ok (prompt, plen) ↦ ok (prompt, plen, trailing_sampler payload len plen)
  | err e ↦ err e
]

unfoldable pub encode_token :
    (outputs : Bool) (cap : ℕ) → Option (List ℕ) → (token_len : ℕ) → Result (List ℕ × ℕ)
unfolding encode_u16_blob
encode_token outputs cap token token_len = encode_u16_blob outputs cap token token_len

unfoldable pub decode_token : Option (List ℕ) → (len : ℕ) → (outputs : Bool) → Result (List ℕ × ℕ)
unfolding decode_u16_blob
decode_token payload len outputs = decode_u16_blob payload len outputs

unfoldable pub encode_embed :
    (outputs : Bool) (cap : ℕ) → Option (List ℕ) → (text_len : ℕ) → Result (List ℕ × ℕ)
unfolding encode_u16_blob
encode_embed outputs cap text text_len = encode_u16_blob outputs cap text text_len

-- The length must be exactly that of the text and its prefix.
unfoldable pub decode_embed : Option (List ℕ) → (len : ℕ) → Result (List ℕ × ℕ)
unfolding decode_u16_blob
decode_embed payload len = elim (decode_u16_blob payload len true) [
  | ok (text, text_len) ↦ if len == 2 + text_len then ok (text, text_len) else err Status.protocol
  | err e ↦ err e
]

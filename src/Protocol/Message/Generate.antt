-- ===== src/Protocol/Message/Generate.antt =====
-- GENERATE: a prompt, and behind it a sampler that older receivers ignore.
use prospero_ai.Prelude.{
  ℕ, ◌+◌, ◌-◌, ◌%◌, ◌^◌, ◌≤◌, ◌<◌, ◌≡◌, refl, sym, ap, ◌∙◌, true, Option, some, none, List, [],
  ◌++◌, length, length-append, take, take_all, take-append, drop, drop-append, ltb, if◌then◌else◌,
  arith,
}
use mathlib.Core.List.{append-nil}
use prospero_ai.Status.{Result, ok, err, Status}
use prospero_ai.Wire.{put_le16, put_le32, put_le64_halves, get_le32, get_le64_halves}
use prospero_ai.Wire.RoundTrip.{get_le32-put_le32, get_le64_halves-put_le64_halves}
use prospero_ai.Protocol.Message.{
  Sampler, sampler_magic, sampler_size, encode_sampler_trailer, decode_sampler_trailer,
  trailing_sampler, encode_u16_blob, encode_generate2, decode_generate2,
}
use prospero_ai.Protocol.Message.Blob.{decode_u16_blob-prefix, encode_u16_blob-ok}

-- The fields of a sampler fit their types.
pub record IsSampler (s : Sampler) : Type 0 where
  pub temperature_in : s.temperature < 2 ^ 32
  pub top_p_in : s.top_p < 2 ^ 32
  pub top_k_in : s.top_k < 2 ^ 32
  pub max_tokens_in : s.max_tokens < 2 ^ 32
  pub seed_in : s.seed < 2 ^ 64

length-trailer : (s : Sampler) → length (encode_sampler_trailer s) ≡ 4 + sampler_size
unfolding encode_sampler_trailer put_le32 put_le64_halves
length-trailer s = refl

-- A field of the trailer is what follows the fields before it.
module _ (s : Sampler) (v : IsSampler s) where
  abbrev trailer : List ℕ
  trailer = encode_sampler_trailer s

  read_words :
      (get_le32 trailer ≡ sampler_magic)
      × (get_le32 (drop 4 trailer) ≡ s.temperature)
      × (get_le32 (drop 8 trailer) ≡ s.top_p)
      × (get_le32 (drop 12 trailer) ≡ s.top_k)
      × (get_le32 (drop 16 trailer) ≡ s.max_tokens)
  unfolding encode_sampler_trailer put_le32
  read_words = (
    get_le32-put_le32 sampler_magic _ (omega arith),
    get_le32-put_le32 s.temperature _ v.temperature_in,
    get_le32-put_le32 s.top_p _ v.top_p_in,
    get_le32-put_le32 s.top_k _ v.top_k_in,
    get_le32-put_le32 s.max_tokens _ v.max_tokens_in,
  )

  read_seed : get_le64_halves (drop 20 trailer) ≡ s.seed
  unfolding encode_sampler_trailer put_le32
  read_seed =
      ap get_le64_halves (sym (append-nil (put_le64_halves s.seed)))
      ∙ get_le64_halves-put_le64_halves s.seed [] v.seed_in

  decode-trailer : decode_sampler_trailer trailer (4 + sampler_size) ≡ ok s
  unfolding decode_sampler_trailer
  decode-trailer = let (m, t, p, k, x) = read_words in rw (m, t, p, k, x, read_seed) refl

-- The sampler that the receiver finds behind the prompt.
drop-prompt :
    (prompt rest : List ℕ) (n : ℕ)
    → drop (2 + length prompt) (put_le16 n ++ (prompt ++ rest)) ≡ rest
unfolding put_le16
drop-prompt prompt rest n =
    drop-append (put_le16 n ++ prompt) rest (2 + length prompt) (omega arith)

abbrev pub IsOptional : Option Sampler → Type 0
IsOptional none = Unit
IsOptional (some s) = IsSampler s

-- The size of the payload.
abbrev pub generated_size : List ℕ → Option Sampler → ℕ
generated_size prompt none = 2 + length prompt
generated_size prompt (some s) = 2 + length prompt + 4 + sampler_size

decode_generate2-prefix :
    (n len : ℕ) (rest : List ℕ)
    → n < 2 ^ 16
    → 2 + n ≤ len
    → decode_generate2 (some (put_le16 n ++ rest)) len
      ≡ ok (rest, n, trailing_sampler (put_le16 n ++ rest) len n)
unfolding decode_generate2
decode_generate2-prefix n len rest small fits =
    rw (decode_u16_blob-prefix n len rest small fits, decode_generate2) refl

length-generated :
    (prompt rest : List ℕ) (n : ℕ)
    → length (put_le16 n ++ (prompt ++ rest)) ≡ 2 + length prompt + length rest
unfolding put_le16
length-generated prompt rest n = omega (arith, length-append prompt rest)

length-prefixed : (n : ℕ) (rest : List ℕ) → length (put_le16 n ++ rest) ≡ 2 + length rest
unfolding put_le16
length-prefixed n rest = omega arith

module _ (cap : ℕ) (prompt : List ℕ) (small : length prompt < 2 ^ 16) where
  short : length prompt % 2 ^ 32 ≡ length prompt
  short = omega arith

  shorter : length prompt % 2 ^ 16 ≡ length prompt
  shorter = omega arith

  whole : take (length prompt) prompt ≡ prompt
  whole = take_all prompt (length prompt) (omega arith)

  encode-plain :
      2 + length prompt ≤ cap
      → encode_generate2 cap (some prompt) none
        ≡ ok (put_le16 (length prompt) ++ prompt, 2 + length prompt)
  unfolding encode_generate2
  encode-plain room =
      ap written short ∙ rw (encode_u16_blob-ok cap prompt small room) (ground arith)
    where
      written : ℕ → Result (List ℕ × ℕ)
      written k =
          if ltb 0xFFFF k then err Status.invalid_arg else encode_u16_blob true cap (some prompt) k

  encode-sampled :
      (s : Sampler)
      → 2 + length prompt + 4 + sampler_size ≤ cap
      → encode_generate2 cap (some prompt) (some s)
        ≡ ok (
          put_le16 (length prompt) ++ (prompt ++ encode_sampler_trailer s),
          2 + length prompt + 4 + sampler_size,
        )
  unfolding encode_generate2
  encode-sampled s room = ap written short ∙ rw (shorter, whole) (ground arith)
    where
      written : ℕ → Result (List ℕ × ℕ)
      written k =
          if ltb 0xFFFF k
          then err Status.invalid_arg
          else if ltb cap ((2 + k + 4 + sampler_size) % 2 ^ 32)
          then err Status.invalid_arg
          else ok (
            put_le16 (k % 2 ^ 16) ++ (take k prompt ++ encode_sampler_trailer s),
            (2 + k + 4 + sampler_size) % 2 ^ 32,
          )

  no_trailer :
      (payload : List ℕ) → trailing_sampler payload (2 + length prompt) (length prompt) ≡ none
  unfolding trailing_sampler
  no_trailer payload = ground arith

  trailer_found :
      (s : Sampler)
      → IsSampler s
      → trailing_sampler
          (put_le16 (length prompt) ++ (prompt ++ encode_sampler_trailer s))
          (2 + length prompt + 4 + sampler_size)
          (length prompt)
        ≡ some s
  unfolding trailing_sampler
  trailer_found s v =
      rw (drop-prompt prompt (encode_sampler_trailer s) (length prompt), rest, decode-trailer s v)
        (ground arith)
    where
      rest : 2 + length prompt + 4 + sampler_size - (2 + length prompt) ≡ 4 + sampler_size
      rest = omega arith

-- A prompt of less than 2^16 bytes, with a sampler or without, that fits in the buffer is sent, and
-- the receiver reads back its length, the prompt at the start of the bytes that it is handed, and
-- the sampler, or its absence.
pub decode_generate2-encode_generate2 :
    (cap : ℕ) (prompt : List ℕ) (sampler : Option Sampler)
    → length prompt < 2 ^ 16
    → IsOptional sampler
    → generated_size prompt sampler ≤ cap
    → (payload : List ℕ) × (bytes : List ℕ) × (encode_generate2 cap (some prompt) sampler
        ≡ ok (payload, generated_size prompt sampler))
      × (length payload ≡ generated_size prompt sampler)
      × (decode_generate2 (some payload) (generated_size prompt sampler)
          ≡ ok (bytes, length prompt, sampler))
      × (take (length prompt) bytes ≡ prompt)
decode_generate2-encode_generate2 cap prompt none small v room = (
  put_le16 (length prompt) ++ prompt,
  prompt,
  encode-plain cap prompt small room,
  length-plain,
  decode_generate2-prefix (length prompt) (2 + length prompt) prompt small (omega arith)
      ∙ ap (λ t. ok (prompt, length prompt, t)) (no_trailer cap prompt small _),
  take_all prompt (length prompt) (omega arith),
)
  where
    length-plain : length (put_le16 (length prompt) ++ prompt) ≡ 2 + length prompt
    length-plain = length-prefixed (length prompt) prompt
decode_generate2-encode_generate2 cap prompt (some s) small v room = (
  put_le16 (length prompt) ++ (prompt ++ encode_sampler_trailer s),
  prompt ++ encode_sampler_trailer s,
  encode-sampled cap prompt small s room,
  length-generated prompt (encode_sampler_trailer s) (length prompt)
      ∙ omega (arith, length-trailer s),
  decode_generate2-prefix (length prompt) (2 + length prompt + 4 + sampler_size) _ small
        (omega arith)
      ∙ ap (λ t. ok (prompt ++ encode_sampler_trailer s, length prompt, t))
          (trailer_found cap prompt small s v),
  take-append prompt (encode_sampler_trailer s) (length prompt) refl,
)

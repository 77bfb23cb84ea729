-- ===== src/Protocol/Message/Report.antt =====
-- HELLO, the pairs of 32-bit words, and ERROR: a status with a message.
use prospero_ai.Prelude.{
  ℕ, ◌+◌, ◌-◌, ◌%◌, ◌^◌, ◌≤◌, ◌<◌, ◌≡◌, refl, ap, Bool, true, false, not, ◌||◌, Option, some, none,
  min, ◌∙◌, take_prefix, take_same, length-append, length-take, List, [], ◌∷◌, ◌++◌, length, take,
  drop, ltb, ◌==◌, if◌then◌else◌, arith,
}
use prospero_ai.Status.{Result, ok, err, Status, to_u32}
use prospero_ai.Wire.{put_le32, get_le32}
use prospero_ai.Wire.RoundTrip.{get_le32-put_le32}

unfoldable pub encode_caps : (outputs : Bool) → (cap caps : ℕ) → Result (List ℕ × ℕ)
encode_caps outputs cap caps =
    if not outputs || ltb cap 8 then err Status.invalid_arg else ok (put_le32 caps ++ put_le32 0, 8)

unfoldable pub decode_caps : Option (List ℕ) → (len : ℕ) → (outputs : Bool) → Result ℕ
decode_caps none len outputs = err Status.protocol
decode_caps (some payload) len outputs =
    if not outputs || ltb len 8 then err Status.protocol else ok (get_le32 payload)

unfoldable pub encode_u32 : (outputs : Bool) → (cap value : ℕ) → Result (List ℕ × ℕ)
encode_u32 outputs cap value =
    if not outputs || ltb cap 8
    then err Status.invalid_arg
    else ok (put_le32 value ++ put_le32 0, 8)

unfoldable pub decode_u32 : Option (List ℕ) → (len : ℕ) → (outputs : Bool) → Result ℕ
decode_u32 none len outputs = err Status.protocol
decode_u32 (some payload) len outputs =
    if not outputs || ltb len 8 then err Status.protocol else ok (get_le32 payload)

abbrev pub error_msg_max : ℕ
error_msg_max = 255

-- `msg_len`: the message is cut off at its limit.
unfoldable pub error_len : Option (List ℕ) → ℕ
error_len none = 0
error_len (some msg) =
    let n = length msg % 2 ^ 32 in if ltb error_msg_max n then error_msg_max else n

unfoldable pub error_text : Option (List ℕ) → List ℕ
error_text none = []
error_text (some msg) = msg

-- The message is the bytes in front of the terminator; `none` is NULL.
unfoldable pub encode_error :
    (outputs : Bool) → (cap : ℕ) → Status → Option (List ℕ) → Result (List ℕ × ℕ)
unfolding error_len error_text
encode_error outputs cap status msg =
    let msg_len = error_len msg in
    let total = (8 + msg_len) % 2 ^ 32 in
    if not outputs || ltb cap total
    then err Status.invalid_arg
    else ok (put_le32 (to_u32 status) ++ (put_le32 msg_len ++ take msg_len (error_text msg)), total)

-- What is written to `out_msg`, if anything; `room` is `msg_cap`.
unfoldable pub copied_text : (out_msg : Bool) → (room msg_len : ℕ) → List ℕ → Option (List ℕ)
copied_text out_msg room msg_len bytes =
    if not out_msg || room == 0
    then none
    else some (take (if ltb msg_len (room - 1) then msg_len else room - 1) bytes ++ (0 ∷ []))

-- The status as a 32-bit word, and the text.
unfoldable pub decode_error :
    Option (List ℕ)
    → (len : ℕ) → (out_status out_msg : Bool) → (room : ℕ) → Result (ℕ × Option (List ℕ))
unfolding copied_text
decode_error none len out_status out_msg room = err Status.protocol
decode_error (some payload) len out_status out_msg room =
    let msg_len = get_le32 (drop 4 payload) in
    if not out_status || ltb len 8
    then err Status.protocol
    else if ltb (len - 8) msg_len
    then err Status.protocol
    else ok (get_le32 payload, copied_text out_msg room msg_len (drop 8 payload))

to_u32-lt : (s : Status) → to_u32 s < 2 ^ 32
unfolding to_u32
to_u32-lt Status.success = omega arith
to_u32-lt Status.invalid_arg = omega arith
to_u32-lt Status.nomem = omega arith
to_u32-lt Status.unsupported = omega arith
to_u32-lt Status.capability = omega arith
to_u32-lt Status.timeout = omega arith
to_u32-lt Status.mismatch = omega arith
to_u32-lt Status.io = omega arith
to_u32-lt Status.init = omega arith
to_u32-lt Status.internal = omega arith
to_u32-lt Status.protocol = omega arith

error_len-le : (msg : Option (List ℕ)) → error_len msg ≤ error_msg_max
unfolding error_len
error_len-le none = omega arith
error_len-le (some m) = ground arith

error_text-le : (msg : Option (List ℕ)) → error_len msg ≤ length (error_text msg)
unfolding error_len error_text
error_text-le none = omega arith
error_text-le (some m) = ground arith

module _ (status : Status) (msg : Option (List ℕ)) where
  abbrev text : List ℕ
  text = take (error_len msg) (error_text msg)

  abbrev image : List ℕ
  image = put_le32 (to_u32 status) ++ (put_le32 (error_len msg) ++ text)

  encoded :
      (cap : ℕ)
      → 8 + error_len msg ≤ cap
      → encode_error true cap status msg ≡ ok (image, 8 + error_len msg)
  unfolding encode_error
  encoded cap fits =
      let total : (8 + error_len msg) % 2 ^ 32 ≡ 8 + error_len msg =
        omega (arith, error_len-le msg) in
      let test : ltb cap (8 + error_len msg) ≡ false = ground (arith, fits) in rw (total, test) refl

  decoded :
      (room : ℕ)
      → decode_error (some image) (8 + error_len msg) true true room
        ≡ ok (to_u32 status, copied_text true room (error_len msg) text)
  unfolding decode_error
  decoded room =
      rw (read_status, read_len, long, fits)
        (ap (λ t. ok (to_u32 status, copied_text true room (error_len msg) t)) read_text)
    where
      read_status : get_le32 image ≡ to_u32 status
      read_status = get_le32-put_le32 (to_u32 status) _ (to_u32-lt status)

      read_len : get_le32 (drop 4 image) ≡ error_len msg
      read_len =
          unfold put_le32 in
          get_le32-put_le32 (error_len msg) text (omega (arith, error_len-le msg))

      read_text : drop 8 image ≡ text
      read_text = unfold put_le32 in refl

      long : ltb (8 + error_len msg) 8 ≡ false
      long = ground arith

      fits : ltb (8 + error_len msg - 8) (error_len msg) ≡ false
      fits = ground arith

  image_len : length image ≡ 8 + error_len msg
  unfolding put_le32
  image_len = omega (arith, length-take (error_len msg) (error_text msg), error_text-le msg)

error_len_cut : (msg : List ℕ) → length msg < 2 ^ 32 → error_len (some msg) ≡ min (length msg) 255
unfolding error_len
error_len_cut msg h = ground arith

-- What a decoder with `room` bytes writes of a text of which `n` bytes came.
copied_text_cut :
    (room n : ℕ) (msg : List ℕ)
    → 0 < room
    → n ≡ min (length msg) 255
    → copied_text true room n (take n msg) ≡ some (take (min 255 (room - 1)) msg ++ (0 ∷ []))
unfolding copied_text
copied_text_cut room n msg positive e = rw empty (
    ap (λ t. some (t ++ (0 ∷ [])))
      (take_prefix k n msg (ground arith) ∙ take_same k (min 255 (room - 1)) msg (ground arith)))
  where
    empty : room == 0 ≡ false
    empty = ground arith

    k : ℕ
    k = if ltb n (room - 1) then n else room - 1

-- A message shorter than 2^32 bytes of which the first 255 fit in the buffer behind 8 bytes is
-- encoded as those 8 bytes and these, NULL like the empty message. Into a buffer of `room` bytes, at
-- least one, the decoder writes the first 255 bytes of the message, or as many as leave room for a
-- terminator, and the terminator, which is at most `room` bytes, and it gives the status; without
-- room it gives the status and writes nothing.
pub decode_error-encode_error :
    (status : Status) (msg : List ℕ) (cap room : ℕ)
    → length msg < 2 ^ 32
    → 8 + min (length msg) 255 ≤ cap
    → 0 < room
    → (payload : List ℕ) × (encode_error true cap status (some msg)
        ≡ ok (payload, 8 + min (length msg) 255))
      × (length payload ≡ 8 + min (length msg) 255)
      × (encode_error true cap status none ≡ encode_error true cap status (some []))
      × (decode_error (some payload) (length payload) true true room
          ≡ ok (to_u32 status, some (take (min 255 (room - 1)) msg ++ (0 ∷ []))))
      × (length (take (min 255 (room - 1)) msg ++ (0 ∷ [])) ≤ room)
      × (decode_error (some payload) (length payload) true true 0 ≡ ok (to_u32 status, none))
unfolding error_text copied_text
decode_error-encode_error status msg cap room short fits positive = (
  image status (some msg),
  encoded status (some msg) cap (omega (arith, fits, cut))
      ∙ ap (λ n. ok (image status (some msg), 8 + n)) cut,
  image_len status (some msg) ∙ ap (λ n. 8 + n) cut,
  null,
  decodes room
      ∙ ap (λ t. ok (to_u32 status, t))
          (copied_text_cut room (error_len (some msg)) msg positive cut),
  omega (
    arith,
    length-append (take (min 255 (room - 1)) msg) (0 ∷ []),
    length-take (min 255 (room - 1)) msg,
  ),
  decodes 0,
)
  where
    cut : error_len (some msg) ≡ min (length msg) 255
    cut = error_len_cut msg short

    decodes :
        (room : ℕ)
        → decode_error
            (some (image status (some msg)))
            (length (image status (some msg)))
            true
            true
            room
          ≡ ok (
            to_u32 status,
            copied_text true room (error_len (some msg)) (take (error_len (some msg)) msg),
          )
    decodes room =
        ap (λ n. decode_error (some (image status (some msg))) n true true room)
          (image_len status (some msg))
        ∙ decoded status (some msg) room

    null : encode_error true cap status none ≡ encode_error true cap status (some [])
    null = unfold encode_error error_len error_text in refl

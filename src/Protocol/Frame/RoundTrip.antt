-- ===== src/Protocol/Frame/RoundTrip.antt =====
-- Decoding an encoded frame gives the frame back, and its checksum is accepted.
use prospero_ai.Prelude.{
  ℕ, ◌-◌, ◌+◌, ◌/◌, ◌%◌, ◌^◌, ◌≤◌, ◌<◌, ◌≡◌, refl, sym, ap, ap₂, ◌∙◌, true, some, List, [], ◌++◌,
  length, take, drop, take_all, All, arith, ◌==◌, if◌then◌else◌,
}
use prospero_ai.Prelude.Bits.{bit_and_eight, bit_xor-lt}
use prospero_ai.Status.{ok, err, Status}
use prospero_ai.Protocol.Crc.{crc32_fin, crc32_init}
use prospero_ai.Protocol.Crc.Bitwise.{crc32_upd-lt}
use prospero_ai.Wire.{get_le16, get_le32, get_le64}
use prospero_ai.Wire.Value.{IsByte, le_bytes, length-le_bytes, le_bytes-IsByte, le_value-le_bytes}
use prospero_ai.Wire.RoundTrip.{
  get_le16-put_le16, put_le16-le_bytes, get_le32-le_bytes, get_le64-le_value,
}
use prospero_ai.Protocol.Frame.{
  Frame, header_size, max_payload, frame_size, frame_image, frame_crc, header_fields, frame_encode,
  frame_decode, frame_check, frame_validate,
}
use prospero_ai.Protocol.Frame.Encode.{IsSendable}
use prospero_ai.Protocol.Frame.Layout.{fields, layout, header_fields-layout, frame_image-layout}

-- The fields fit the widths of `pai_proto_frame_t`, the flags those of the wire (16 bits), and
-- `payload_len` is the size of the payload.
pub record IsFrame (f : Frame) : Type 0 where
  pub flags_in : f.flags < 2 ^ 16
  pub type_in : f.msg_type < 2 ^ 32
  pub request_in : f.request_id < 2 ^ 64
  pub session_in : f.session_id < 2 ^ 64
  pub sized : length f.payload ≡ f.payload_len
  pub payload_in : All IsByte f.payload

pub get_le16-le_bytes : (v : ℕ) (rest : List ℕ) → v < 2 ^ 16 → get_le16 (le_bytes 2 v ++ rest) ≡ v
get_le16-le_bytes v rest h = rw put_le16-le_bytes at (get_le16-put_le16 v rest h)

pub get_le64-le_bytes : (v : ℕ) (rest : List ℕ) → v < 2 ^ 64 → get_le64 (le_bytes 8 v ++ rest) ≡ v
get_le64-le_bytes v rest h =
    get_le64-le_value (le_bytes 8 v) rest (length-le_bytes 8 v) (le_bytes-IsByte 8 v)
    ∙ le_value-le_bytes 8 v (omega arith)

module _ (fl mt pl rq ss crc : ℕ) (payload : List ℕ) where
  abbrev decoded : Frame
  decoded = record {
    version = 1;
    msg_type = mt;
    flags = fl;
    request_id = rq;
    session_id = ss;
    payload = [];
    payload_len = pl;
  }

  pub frame_decode-layout :
      fl < 2 ^ 16
      → fl / 8 % 2 ≡ 0
      → mt < 2 ^ 32
      → pl ≤ max_payload
      → rq < 2 ^ 64
      → ss < 2 ^ 64
      → frame_decode (some (layout fl mt pl rq ss crc payload)) true ≡ ok decoded
  unfolding frame_decode layout
  frame_decode-layout hfl plain hmt hpl hrq hss = ground (
    arith,
    the_magic,
    the_reserved,
    the_flags,
    the_len,
    the_type,
    the_request,
    the_session,
    bit_and_eight fl,
  )
    where
      p_session : List ℕ
      p_session = le_bytes 4 crc ++ (le_bytes 4 0 ++ payload)

      p_request : List ℕ
      p_request = le_bytes 8 ss ++ p_session

      p_len : List ℕ
      p_len = le_bytes 8 rq ++ p_request

      p_type : List ℕ
      p_type = le_bytes 4 pl ++ p_len

      p_flags : List ℕ
      p_flags = le_bytes 4 mt ++ p_type

      the_flags : get_le16 (drop 6 (layout fl mt pl rq ss crc payload)) ≡ fl
      the_flags = get_le16-le_bytes fl p_flags hfl

      the_type : get_le32 (drop 8 (layout fl mt pl rq ss crc payload)) ≡ mt
      the_type = get_le32-le_bytes mt p_type hmt

      the_len : get_le32 (drop 12 (layout fl mt pl rq ss crc payload)) ≡ pl
      the_len = get_le32-le_bytes pl p_len (omega arith)

      the_request : get_le64 (drop 16 (layout fl mt pl rq ss crc payload)) ≡ rq
      the_request = get_le64-le_bytes rq p_request hrq

      the_session : get_le64 (drop 24 (layout fl mt pl rq ss crc payload)) ≡ ss
      the_session = get_le64-le_bytes ss p_session hss

      the_magic : get_le32 (layout fl mt pl rq ss crc payload) ≡ 0x50494150
      the_magic =
          get_le32-le_bytes 0x50494150 (drop 4 (layout fl mt pl rq ss crc payload)) (omega arith)

      the_reserved : get_le32 (drop 36 (layout fl mt pl rq ss crc payload)) ≡ 0
      the_reserved = get_le32-le_bytes 0 payload (omega arith)

pub frame_crc-lt : (header p : List ℕ) → frame_crc header p < 2 ^ 32
unfolding frame_crc crc32_fin crc32_init
frame_crc-lt header p =
    bit_xor-lt 32 _ 0xFFFFFFFF
      (crc32_upd-lt p _ (crc32_upd-lt (take (header_size - 8) header) 0xFFFFFFFF (omega arith)))
      (omega arith)

-- The checksum reads only the fields of a header.
pub frame_crc-layout :
    (fl mt pl rq ss crc : ℕ) (payload p : List ℕ)
    → frame_crc (layout fl mt pl rq ss crc payload) p ≡ frame_crc (fields fl mt pl rq ss []) p
unfolding frame_crc layout
frame_crc-layout fl mt pl rq ss crc payload p = refl

stored_crc :
    (fl mt pl rq ss crc : ℕ) (payload : List ℕ)
    → crc < 2 ^ 32
    → get_le32 (drop 32 (layout fl mt pl rq ss crc payload)) ≡ crc
unfolding layout
stored_crc fl mt pl rq ss crc payload h = get_le32-le_bytes crc (le_bytes 4 0 ++ payload) h

drop-layout :
    (fl mt pl rq ss crc : ℕ) (payload : List ℕ)
    → drop header_size (layout fl mt pl rq ss crc payload) ≡ payload
unfolding layout
drop-layout fl mt pl rq ss crc payload = refl

length-layout :
    (fl mt pl rq ss crc : ℕ) (payload : List ℕ)
    → length (layout fl mt pl rq ss crc payload) ≡ header_size + length payload
unfolding layout
length-layout fl mt pl rq ss crc payload = omega arith

pub frame_encode-ok :
    (f : Frame) (cap : ℕ) {bytes : List ℕ} {n : ℕ}
    → frame_encode (some f) true cap ≡ ok (bytes, n)
    → IsSendable f cap × (bytes ≡ frame_image f) × (n ≡ header_size + f.payload_len)
unfolding frame_encode frame_size
frame_encode-ok f cap e = ground (arith, bit_and_eight f.flags)

pub encoded_layout :
    (f : Frame) (cap : ℕ) {bytes : List ℕ} {n : ℕ}
    → IsFrame f
    → frame_encode (some f) true cap ≡ ok (bytes, n)
    → bytes
      ≡ layout f.flags f.msg_type f.payload_len f.request_id f.session_id
          (frame_crc (header_fields f) f.payload)
          f.payload
encoded_layout f cap {bytes} {n} w sent =
    (frame_encode-ok f cap sent).1
    ∙ frame_image-layout f
    ∙ ap₂
        (λ fl (p : List ℕ).
          layout fl f.msg_type f.payload_len f.request_id f.session_id
            (frame_crc (header_fields f) p) p)
        (omega (arith, w.flags_in)) (take_all f.payload f.payload_len (omega (arith, w.sized)))

-- Validation of an encoded header against any bytes compares the two checksums.
pub frame_validate-layout :
    (f : Frame) (cap crc : ℕ) (received : List ℕ)
    → IsFrame f
    → IsSendable f cap
    → crc < 2 ^ 32
    → frame_validate
        (some (layout f.flags f.msg_type f.payload_len f.request_id f.session_id crc f.payload))
        (some received)
      ≡ (if crc == frame_crc (header_fields f) (take f.payload_len received)
          then ok tt
          else err Status.protocol)
unfolding frame_validate frame_check
frame_validate-layout f cap crc received w s small =
    rw (reads_back, frame_validate)
      (ap₂ (λ a b. if a == b then ok tt else err Status.protocol) stored computed)
  where
    open f use {flags, msg_type, payload_len, request_id, session_id, payload}

    image : List ℕ
    image = layout flags msg_type payload_len request_id session_id crc payload

    reads_back :
        frame_decode (some image) true
        ≡ ok (decoded flags msg_type payload_len request_id session_id crc payload)
    reads_back =
        frame_decode-layout flags msg_type payload_len request_id session_id crc payload w.flags_in
          s.plain w.type_in s.within w.request_in w.session_in

    stored : get_le32 (drop 32 image) ≡ crc
    stored = stored_crc flags msg_type payload_len request_id session_id crc payload small

    fields_eq : fields flags msg_type payload_len request_id session_id [] ≡ header_fields f
    fields_eq = sym (
        header_fields-layout f
        ∙ ap (λ fl. fields fl msg_type payload_len request_id session_id [])
            (omega (arith, w.flags_in)))

    computed :
        frame_crc image (take payload_len received)
        ≡ frame_crc (header_fields f) (take payload_len received)
    computed =
        frame_crc-layout flags msg_type payload_len request_id session_id crc payload
          (take payload_len received)
        ∙ ap (λ h. frame_crc h (take payload_len received)) fields_eq

-- A frame that was encoded is read back with the sender's version and without its payload, which
-- follows the header; its checksum is accepted; the count returned is the number of bytes, within
-- `cap`.
pub frame_decode-frame_encode :
    (f : Frame) (cap : ℕ) {bytes : List ℕ} {n : ℕ}
    → IsFrame f
    → frame_encode (some f) true cap ≡ ok (bytes, n)
    → (frame_decode (some bytes) true ≡ ok (record f { version = 1; payload = [] }))
      × (drop header_size bytes ≡ f.payload)
      × (frame_validate (some bytes) (some f.payload) ≡ ok tt)
      × (length bytes ≡ n)
      × (n ≤ cap)
frame_decode-frame_encode f cap w sent = rw (encoded_layout f cap w sent) (
  frame_decode-layout flags msg_type payload_len request_id session_id _ payload w.flags_in s.plain
      w.type_in s.within w.request_in w.session_in,
  drop-layout flags msg_type payload_len request_id session_id _ payload,
  accepted,
  length-layout flags msg_type payload_len request_id session_id _ payload
      ∙ omega (arith, w.sized, (frame_encode-ok f cap sent).2),
  omega (arith, s.room, (frame_encode-ok f cap sent).2),
)
  where
    open f use {flags, msg_type, payload_len, request_id, session_id, payload}

    s : IsSendable f cap
    s = (frame_encode-ok f cap sent).0

    crc : ℕ
    crc = frame_crc (header_fields f) payload

    accepted :
        frame_validate
          (some (layout flags msg_type payload_len request_id session_id crc payload))
          (some payload)
        ≡ ok tt
    accepted =
        frame_validate-layout f cap crc payload w s (frame_crc-lt (header_fields f) payload)
        ∙ ap (λ p. if crc == frame_crc (header_fields f) p then ok tt else err Status.protocol)
            (take_all payload payload_len (omega (arith, w.sized)))
        ∙ ground arith

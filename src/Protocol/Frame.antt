-- ===== src/Protocol/Frame.antt =====
-- protocol/frame.c: the frame codec. A pointer that the code tests against NULL is an `Option`;
-- `outputs` says that the pointers through which a function only writes are not NULL.
pub mod Layout
pub mod Encode
pub mod RoundTrip
pub mod Integrity
use prospero_ai.Prelude.{
  ℕ, ◌+◌, ◌-◌, ◌*◌, ◌%◌, ◌^◌, bit_and, bit_or, Bool, true, false, not, ◌&&◌, Option, none, some,
  List, [], ◌∷◌, ◌++◌, take, drop, get_or, ltb, ◌==◌, if◌then◌else◌,
}
use prospero_ai.Status.{Result, ok, err, Status}
use prospero_ai.Wire.{put_le16, put_le32, put_le64, get_le16, get_le32, get_le64}
use prospero_ai.Protocol.Crc.{crc32_init, crc32_upd, crc32_fin}

-- `payload` is the bytes that the pointer leads to.
pub record Frame : Type 0 where
  pub version : ℕ
  pub msg_type : ℕ
  pub flags : ℕ
  pub request_id : ℕ
  pub session_id : ℕ
  pub payload : List ℕ
  pub payload_len : ℕ

abbrev pub magic : ℕ
magic = 0x50494150

abbrev pub header_size : ℕ
header_size = 40

abbrev pub max_payload : ℕ
max_payload = 2 ^ 20

abbrev pub version_major : ℕ
version_major = 0

abbrev pub version_minor : ℕ
version_minor = 1

abbrev pub flag_compressed : ℕ
flag_compressed = 2 ^ 3

unfoldable pub frame_size : ℕ → ℕ
frame_size payload_len = (header_size + payload_len) % 2 ^ 32

-- The bytes [0, 32) of the header.
unfoldable pub header_fields : Frame → List ℕ
header_fields f =
    put_le32 magic
    ++ ((version_major ∷ version_minor ∷ [])
        ++ (put_le16 (f.flags % 2 ^ 16)
            ++ (put_le32 f.msg_type
                ++ (put_le32 f.payload_len ++ (put_le64 f.request_id ++ put_le64 f.session_id)))))

-- The CRC over the first `header_size - 8` bytes of a header, then over the payload.
unfoldable pub frame_crc : List ℕ → List ℕ → ℕ
frame_crc header payload =
    crc32_fin (crc32_upd (crc32_upd crc32_init (take (header_size - 8) header)) payload)

-- What is written to `out`: header fields, checksum, reserved word, payload.
unfoldable pub frame_image : Frame → List ℕ
frame_image f =
    header_fields f
    ++ (put_le32 (frame_crc (header_fields f) (take f.payload_len f.payload))
        ++ (put_le32 0 ++ take f.payload_len f.payload))

-- The bytes written to `out` and the number in `*out_nbytes`.
unfoldable pub frame_encode : Option Frame → (outputs : Bool) → (cap : ℕ) → Result (List ℕ × ℕ)
unfolding frame_size
frame_encode none outputs cap = err Status.invalid_arg
frame_encode (some f) outputs cap =
    if not outputs
    then err Status.invalid_arg
    else if ltb max_payload f.payload_len
    then err Status.invalid_arg
    else if not (bit_and f.flags flag_compressed == 0)
    then err Status.invalid_arg
    else if ltb cap (frame_size f.payload_len)
    then err Status.invalid_arg
    else ok (frame_image f, frame_size f.payload_len)

unfoldable pub frame_decode : Option (List ℕ) → (outputs : Bool) → Result Frame
frame_decode none outputs = err Status.invalid_arg
frame_decode (some bytes) outputs =
    if not outputs
    then err Status.invalid_arg
    else if not (get_le32 bytes == magic)
    then err Status.protocol
    else if not (get_le32 (drop 36 bytes) == 0)
    then err Status.protocol
    else if not (bit_and (get_le16 (drop 6 bytes)) flag_compressed == 0)
    then err Status.protocol
    else if ltb max_payload (get_le32 (drop 12 bytes))
    then err Status.protocol
    else ok (record {
      version = bit_or (get_or bytes 4 0 * 2 ^ 8) (get_or bytes 5 0) % 2 ^ 16;
      msg_type = get_le32 (drop 8 bytes);
      flags = get_le16 (drop 6 bytes);
      request_id = get_le64 (drop 16 bytes);
      session_id = get_le64 (drop 24 bytes);
      payload = [];
      payload_len = get_le32 (drop 12 bytes);
    })

-- The part of the validation after the header has been parsed into `f`.
unfoldable pub frame_check : List ℕ → Option (List ℕ) → Frame → Result (Unit {0})
frame_check header none f =
    if ltb 0 f.payload_len
    then err Status.invalid_arg
    else if get_le32 (drop 32 header) == frame_crc header []
    then ok tt
    else err Status.protocol
frame_check header (some payload) f =
    if get_le32 (drop 32 header) == frame_crc header (take f.payload_len payload)
    then ok tt
    else err Status.protocol

unfoldable pub frame_validate : Option (List ℕ) → Option (List ℕ) → Result (Unit {0})
frame_validate none payload = err Status.invalid_arg
frame_validate (some header) payload = elim (frame_decode (some header) true) [
  | ok f ↦ frame_check header payload f
  | err e ↦ err Status.protocol
]

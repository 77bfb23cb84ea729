-- ===== src/Protocol/Frame/Layout.antt =====
-- The image of a frame as plain little-endian fields, one after the other.
use prospero_ai.Prelude.{ℕ, ◌%◌, ◌^◌, ◌≡◌, List, [], ◌∷◌, ◌++◌, take}
use prospero_ai.Wire.Value.{le_bytes}
use prospero_ai.Wire.RoundTrip.{put_le16-le_bytes, put_le32-le_bytes, put_le64-le_bytes}
use prospero_ai.Protocol.Frame.{
  Frame, magic, version_major, version_minor, header_fields, frame_crc, frame_image,
}

-- The first 32 bytes of a header.
unfoldable pub fields : (flags msg_type payload_len request session : ℕ) → List ℕ → List ℕ
unfolding le_bytes
fields flags msg_type payload_len request session rest =
    le_bytes 4 magic
    ++ (version_major
        ∷ version_minor
        ∷ (le_bytes 2 flags
            ++ (le_bytes 4 msg_type
                ++ (le_bytes 4 payload_len
                    ++ (le_bytes 8 request ++ (le_bytes 8 session ++ rest))))))

-- A header with its checksum, and the payload.
unfoldable pub layout : (flags msg_type payload_len request session crc : ℕ) → List ℕ → List ℕ
unfolding fields
layout flags msg_type payload_len request session crc payload =
    fields flags msg_type payload_len request session (le_bytes 4 crc ++ (le_bytes 4 0 ++ payload))

pub header_fields-layout :
    (f : Frame)
    → header_fields f
      ≡ fields (f.flags % 2 ^ 16) f.msg_type f.payload_len f.request_id f.session_id []
unfolding header_fields fields
header_fields-layout f = simp (put_le16-le_bytes, put_le32-le_bytes, put_le64-le_bytes)

pub frame_image-layout :
    (f : Frame)
    → frame_image f
      ≡ layout
          (f.flags % 2 ^ 16)
          f.msg_type
          f.payload_len
          f.request_id
          f.session_id
          (frame_crc (header_fields f) (take f.payload_len f.payload))
          (take f.payload_len f.payload)
unfolding frame_image layout
frame_image-layout f = simp (header_fields-layout, put_le32-le_bytes)

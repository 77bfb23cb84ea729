-- ===== src/Protocol/Frame/Encode.antt =====
-- When `pai_proto_frame_encode` accepts a frame, and the bytes that it writes.
use prospero_ai.Prelude.{ℕ, ◌+◌, ◌/◌, ◌%◌, ◌≤◌, ◌≡◌, true, some, arith}
use prospero_ai.Prelude.Bits.{bit_and_eight}
use prospero_ai.Status.{ok, err, Status}
use prospero_ai.Protocol.Frame.{
  Frame, header_size, max_payload, frame_size, frame_image, frame_encode,
}

-- The frames that fit: the payload within the cap of the protocol, the compression flag clear, and
-- room for header and payload.
pub record IsSendable (f : Frame) (cap : ℕ) : Type 0 where
  pub within : f.payload_len ≤ max_payload
  pub plain : f.flags / 8 % 2 ≡ 0
  pub room : header_size + f.payload_len ≤ cap

frame_size_lem : (n : ℕ) → n ≤ max_payload → frame_size n ≡ header_size + n
unfolding frame_size
frame_size_lem n h = omega arith

-- With output pointers that are not NULL, encoding a sendable frame writes its image, and
-- `*out_nbytes` is the size of header and payload; any other frame is an invalid argument.
pub frame_encode_outcome :
    (f : Frame) (cap : ℕ)
    → (IsSendable f cap
        → frame_encode (some f) true cap ≡ ok (frame_image f, header_size + f.payload_len))
      × ((IsSendable f cap → ⊥) → frame_encode (some f) true cap ≡ err Status.invalid_arg)
unfolding frame_encode
frame_encode_outcome f cap = (accept, refuse)
  where
    accept :
        IsSendable f cap
        → frame_encode (some f) true cap ≡ ok (frame_image f, header_size + f.payload_len)
    accept s = ground (arith, bit_and_eight f.flags, frame_size_lem f.payload_len)

    refuse : (IsSendable f cap → ⊥) → frame_encode (some f) true cap ≡ err Status.invalid_arg
    refuse no_fit = ground (arith, bit_and_eight f.flags, frame_size_lem f.payload_len)

-- ===== src/Protocol/Frame/Integrity.antt =====
-- A payload that was damaged on the way is refused by `pai_proto_frame_validate`.
use prospero_ai.Prelude.{
  ℕ, ◌-◌, ◌≤◌, ◌≡◌, ◌≢◌, sym, ap, ◌∙◌, true, some, List, ◌++◌, length, length-append, take,
  take_all, All, arith, ◌==◌, ==_ne, if◌then◌else◌,
}
use prospero_ai.Prelude.Bits.{bit_xor_injective}
use prospero_ai.Status.{ok, err, Status}
use prospero_ai.Wire.Value.{IsByte}
use prospero_ai.Protocol.Crc.{crc32_upd, crc32_init, crc32_fin}
use prospero_ai.Protocol.Crc.Bitwise.{crc32_upd-lt}
use prospero_ai.Protocol.Crc.Detect.{crc32_upd-detects}
use prospero_ai.Protocol.Frame.{
  Frame, header_size, header_fields, frame_crc, frame_encode, frame_validate,
}
use prospero_ai.Protocol.Frame.RoundTrip.{
  IsFrame, frame_encode-ok, encoded_layout, frame_crc-lt, frame_validate-layout,
}

-- Under one header, payloads that differ within a window of four bytes have different checksums.
frame_crc-detects :
    (header pre v w post : List ℕ)
    → All IsByte pre
    → All IsByte v
    → All IsByte w
    → All IsByte post
    → length v ≡ length w
    → length v ≤ 4
    → frame_crc header (pre ++ v ++ post) ≡ frame_crc header (pre ++ w ++ post)
    → v ≡ w
unfolding frame_crc crc32_fin
frame_crc-detects header pre v w post hpre hv hw hpost n l e =
    crc32_upd-detects pre v w post (crc32_upd crc32_init (take (header_size - 8) header)) hpre hv hw
      hpost
      (crc32_upd-lt (take (header_size - 8) header) crc32_init (unfold crc32_init in omega arith)) n
      l (bit_xor_injective _ _ 0xFFFFFFFF e)

-- The payload of an encoded frame is `pre`, `v` and `post`. When at most four bytes `v` arrive as
-- other bytes `w`, the receiver that validates the frame refuses it as a protocol error.
pub frame_validate_damaged :
    (f : Frame) (cap : ℕ) {bytes : List ℕ} {n : ℕ} (pre v w post : List ℕ)
    → IsFrame f
    → frame_encode (some f) true cap ≡ ok (bytes, n)
    → f.payload ≡ pre ++ v ++ post
    → All IsByte pre
    → All IsByte v
    → All IsByte w
    → All IsByte post
    → length v ≡ length w
    → length v ≤ 4
    → v ≢ w
    → frame_validate (some bytes) (some (pre ++ w ++ post)) ≡ err Status.protocol
frame_validate_damaged f cap pre v w post wf sent whole hpre hv hw hpost same short ne =
    rw (encoded_layout f cap wf sent) (
      frame_validate-layout f cap crc received wf (frame_encode-ok f cap sent).0
        (frame_crc-lt (header_fields f) f.payload)
      ∙ ap (λ p. if crc == frame_crc (header_fields f) p then ok tt else err Status.protocol) all
      ∙ ap (λ b. if b then ok tt else err Status.protocol)
          (==_ne crc (frame_crc (header_fields f) received) differs))
  where
    received : List ℕ
    received = pre ++ w ++ post

    crc : ℕ
    crc = frame_crc (header_fields f) f.payload

    all : take f.payload_len received ≡ received
    all = take_all received f.payload_len (
        omega (
          arith,
          wf.sized,
          ap length whole,
          length-append (pre ++ v) post,
          length-append (pre ++ w) post,
          length-append pre v,
          length-append pre w,
        ))

    differs : crc ≢ frame_crc (header_fields f) received
    differs e = ne (
        frame_crc-detects (header_fields f) pre v w post hpre hv hw hpost same short
          (sym (ap (frame_crc (header_fields f)) whole) ∙ e))

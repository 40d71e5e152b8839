-- ===== src/Runtime/Rtlink/Wire.antt =====
-- Frames to bytes and back.
use catseq.Prelude.{
  ℕ, ◌+◌, ◌*◌, ◌/◌, ◌%◌, ◌^◌, ◌<◌, ◌≡◌, refl, arith, List, ◌∷◌, ◌++◌, ok, All, length, take, drop,
  bit_and, bit_or, ◌==◌,
}
use catseq.Prelude.Bits.{shl, or_field, and_mask, and_high}
use catseq.Runtime.Bytes.{be_bytes, of_be_bytes, IsByte}
use catseq.Runtime.Rtlink.{RtlinkFrame, encode, decode_fields, decode}
use catseq.Runtime.Rtlink.Valid.{IsValid, header_of}

header_sum :
    (f : RtlinkFrame)
    → IsValid f
    → bit_or (bit_or (bit_or (shl 64 f.flag 41) (shl 64 f.channel 36)) (shl 64 f.node 20)) f.tag
      ≡ header_of f
header_sum f v = ground (
  arith,
  or_field 41 f.flag (f.channel * 2 ^ 36) (omega arith),
  or_field 36 (f.flag * 32 + f.channel) (f.node * 2 ^ 20) (omega arith),
  or_field 20 ((f.flag * 32 + f.channel) * 2 ^ 16 + f.node) f.tag (omega arith),
)

unfoldable pub bytes_of : RtlinkFrame → List ℕ
bytes_of f = drop 2 (be_bytes 8 (header_of f)) ++ (be_bytes 4 f.payload.0 ++ be_bytes 4 f.payload.1)

pub encode-bytes_of : (f : RtlinkFrame) → IsValid f → encode f ≡ bytes_of f
unfolding encode bytes_of
encode-bytes_of f v = rw (header_sum f v)

-- The fields read from a header that is the sum of a valid frame's fields.
pub decode_fields-header :
    (f : RtlinkFrame) (bytes : List ℕ)
    → IsValid f
    → of_be_bytes (take 4 (drop 6 bytes)) ≡ f.payload.0
    → of_be_bytes (take 4 (drop 10 bytes)) ≡ f.payload.1
    → decode_fields (header_of f) bytes ≡ ok f
unfolding decode_fields
decode_fields-header f bytes v p q = ground (
  arith,
  and_mask 3 (header_of f / 2 ^ 41),
  and_mask 5 (header_of f / 2 ^ 36),
  and_mask 16 (header_of f / 2 ^ 20),
  and_mask 20 (header_of f),
)

-- The upper half of the first byte holds the padding.
pub padding : (b : ℕ) → b < 256 → (bit_and b 0xf0 == 0) ≡ (b / 16 == 0)
padding b h = ground (arith, and_high 4 b 15, and_mask 4 (b / 16))

header_bytes :
    (h : ℕ) (rest : List ℕ)
    → h < 2 ^ 44
    → of_be_bytes (0 ∷ 0 ∷ take 6 (drop 2 (be_bytes 8 h) ++ rest)) ≡ h
header_bytes h rest lt = omega arith

word_bytes : (w : ℕ) → w < 2 ^ 32 → of_be_bytes (be_bytes 4 w) ≡ w
word_bytes w lt = omega arith

header-lt : (f : RtlinkFrame) → IsValid f → header_of f < 2 ^ 44
header-lt f v = omega arith

-- A frame within the ranges of its fields takes 14 bytes, and `decode` reads it back from them.
pub decode-encode_frame :
    (f : RtlinkFrame)
    → IsValid f
    → (length (encode f) ≡ 14) × All IsByte (encode f) × (decode (encode f) ≡ ok f)
unfolding decode bytes_of
decode-encode_frame f v = rw (encode-bytes_of f v) (
  refl,
  omega arith,
  rw
      (
        padding (header_of f / 256 ^ 5 % 256) (omega arith),
        header_bytes (header_of f) _ (header-lt f v),
      )
      (ground (
        arith,
        decode_fields-header f (bytes_of f) v (word_bytes f.payload.0 v.first_fits)
            (word_bytes f.payload.1 v.second_fits),
      )),
)

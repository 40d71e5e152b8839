-- ===== src/Runtime/Rtlink.antt =====
-- rust/catseq-runtime/src/protocol/rtlink.rs: the 14-byte RTLink frame and the framing of a word
-- stream. A payload `[u32; 2]` is a pair.
pub mod Valid
pub mod Wire
pub mod Exact
pub mod Stream
use package.catseq.Prelude.{
  ℕ, ◌+◌, ltb, ◌==◌, if◌then◌else◌, not, length, take, drop, Option, none, some, List, [], ◌∷◌,
  ◌++◌, bit_and, bit_or, Result, ok, err, ◌>>=◌, ◌>>◌, fail_if, ok_or, get_elem?,
}
use mathlib.Core.Option
use package.catseq.Prelude.Bits.{shl, shr}
use package.catseq.Runtime.Bytes.{be_bytes, of_be_bytes}

abbrev pub frame_bytes : ℕ
frame_bytes = 14

abbrev pub channel_max : ℕ
channel_max = 31

abbrev pub tag_max : ℕ
tag_max = 0xf_ffff

pub record RtlinkFrame : Type 0 where
  pub flag : ℕ
  pub channel : ℕ
  pub node : ℕ
  pub tag : ℕ
  pub payload : ℕ × ℕ

-- The messages of the source's `RtlinkFrameError`.
pub data RtlinkFrameError : Type 0 where
  flag_width channel_width tag_width wrong_length nonzero_padding : RtlinkFrameError

unfoldable pub new : ℕ → ℕ → ℕ → ℕ → ℕ × ℕ → Result RtlinkFrameError RtlinkFrame
new flag channel node tag payload = do
  fail_if (ltb 7 flag) flag_width
  fail_if (ltb channel_max channel) channel_width
  fail_if (ltb tag_max tag) tag_width
  ok (record { flag = flag; channel = channel; node = node; tag = tag; payload = payload })

-- The six header bytes as a number, behind two zero bytes.
unfoldable pub decode_header : List ℕ → Option ℕ
decode_header bytes =
    if ltb (length bytes) 6 then none else some (of_be_bytes (0 ∷ 0 ∷ take 6 bytes))

unfoldable pub route : List ℕ → Option (ℕ × ℕ)
unfolding decode_header
route bytes =
    Option.map (λ header. (bit_and (shr header 36) 0x1f, bit_and (shr header 20) 0xffff))
      (decode_header bytes)

unfoldable pub encode : RtlinkFrame → List ℕ
encode frame =
    let header =
      bit_or
        (bit_or (bit_or (shl 64 frame.flag 41) (shl 64 frame.channel 36)) (shl 64 frame.node 20))
        frame.tag in
    drop 2 (be_bytes 8 header) ++ (be_bytes 4 frame.payload.0 ++ be_bytes 4 frame.payload.1)

-- The fields of a frame from its header and its bytes.
unfoldable pub decode_fields : ℕ → List ℕ → Result RtlinkFrameError RtlinkFrame
unfolding new
decode_fields header bytes =
    new (bit_and (shr header 41) 0x7) (bit_and (shr header 36) 0x1f)
      (bit_and (shr header 20) 0xffff) (bit_and header tag_max)
      (of_be_bytes (take 4 (drop 6 bytes)), of_be_bytes (take 4 (drop 10 bytes)))

-- `wrong_length` also stands for the `expect` on the header, which a frame of 14 bytes passes.
unfoldable pub decode : List ℕ → Result RtlinkFrameError RtlinkFrame
unfolding decode_header decode_fields
decode bytes = do
  fail_if (not (length bytes == frame_bytes)) wrong_length
  first ← ok_or (get_elem? bytes 0) wrong_length
  fail_if (not (bit_and first 0xf0 == 0)) nonzero_padding
  header ← ok_or (decode_header bytes) wrong_length
  decode_fields header bytes

-- The `chunks(2)` of a word stream, an odd last word with a zero behind it.
abbrev pub pairs : List ℕ → List (ℕ × ℕ)
pairs [] = []
pairs (w ∷ []) = (w, 0) ∷ []
pairs (w ∷ (v ∷ rest)) = (w, v) ∷ pairs rest

-- The loop over the chunks, from the frames made so far.
unfoldable pub push_frames :
    ℕ → ℕ → ℕ → ℕ → List RtlinkFrame → List (ℕ × ℕ) → Result RtlinkFrameError (List RtlinkFrame)
unfolding new
push_frames flag channel node tag frames [] = ok frames
push_frames flag channel node tag frames (pair ∷ rest) = new flag channel node tag pair >>= λ frame.
    push_frames flag channel node tag (frames ++ (frame ∷ [])) rest

unfoldable pub encode_word_stream :
    ℕ → ℕ → ℕ → ℕ → List ℕ → Result RtlinkFrameError (List RtlinkFrame)
unfolding push_frames
encode_word_stream flag channel node tag words = push_frames flag channel node tag [] (pairs words)

-- ===== src/Rtmq/Isa/Decode.antt =====
-- `decode` reads back what `encode` writes, and shows as known only what `encode` can write.
use catseq.Prelude.{
  ℕ, ◌+◌, ◌*◌, ◌/◌, ◌%◌, ◌^◌, ◌<◌, ◌≡◌, refl, arith, ok, bit_and, bit_or, some, ◌==◌, ◌&&◌,
}
use catseq.Prelude.Bits.{shl, or_field, and_mask, and_bit}
use catseq.Prelude.Int.{pos, negsuc}
use catseq.Rtmq.Isa.{
  Instruction, nop, csr_high_immediate, csr_low_immediate, tcs_low_immediate, atomic_mask,
  AtomicOperand, nibble, immediate, csr, tcs, FlowControl, continue, halt, pause, encode, decode,
  decode_major, decode_atomic_mask, decode_operand, known, known_or, from_opcode_offset,
}
use catseq.Rtmq.Isa.Encode.{encode_iff, layout_parts, kind-lt, value-lt}
use catseq.Rtmq.Isa.Wellformed.{
  IsTyped, OperandIsTyped, Fits, OperandFits, MaskFits, operand_value, operand_kind, atomic_low,
  layout, flow_offset, destination_of, major_of, low_of, canonical, is_zero_nibble,
}

-- The decoder takes a word apart into its three fields.
pub decode-fields :
    (d m l : ℕ)
    → d < 256
    → m < 16
    → l < 2 ^ 20
    → decode (d * 2 ^ 24 + m * 2 ^ 20 + l)
      ≡ known_or (d * 2 ^ 24 + m * 2 ^ 20 + l) (decode_major (d * 2 ^ 24 + m * 2 ^ 20 + l) d m l)
unfolding decode
decode-fields d m l hd hm hl =
    let word = d * 2 ^ 24 + m * 2 ^ 20 + l in
    let e1 : word / 2 ^ 24 % 256 ≡ d = omega arith in
    let e2 : bit_and (word / 2 ^ 20) 15 ≡ m = omega (arith, and_mask 4 (word / 2 ^ 20)) in
    let e3 : bit_and word 0xfffff ≡ l = omega (arith, and_mask 20 word) in rw (e1, e2, e3)

-- Reading an operand from its value byte and its kind.
decode-operand :
    (o : AtomicOperand)
    → OperandIsTyped o
    → OperandFits o
    → decode_operand (operand_value o) (operand_kind o) ≡ some o
unfolding decode_operand
decode-operand (nibble n p) t f = ground (arith, and_mask 4 (n * 16 + p))
decode-operand (immediate (pos n)) t f = ground arith
decode-operand (immediate (negsuc n)) t f = ground arith
decode-operand (csr a) t f = refl
decode-operand (tcs a) t f = refl

decode-flow : (f : FlowControl) → from_opcode_offset (flow_offset f) ≡ some f
unfolding from_opcode_offset
decode-flow f = ground arith

-- The parts that the decoder reads from the low twenty bits of an AMK word. `h` is the rest of the
-- word.
module _ (h mv mk sv sk : ℕ) (hmv : mv < 256) (hmk : mk < 4) (hsv : sv < 256) (hsk : sk < 4) where
  abbrev amk_word : ℕ
  amk_word = h * 2 ^ 20 + (sk / 2 * 2 ^ 18 + mk % 2 * 2 ^ 17 + sk % 2 * 2 ^ 16 + mv * 2 ^ 8 + sv)

  read_mask_value : bit_and (amk_word / 2 ^ 8) 0xff ≡ mv
  read_mask_value = omega (arith, and_mask 8 (amk_word / 2 ^ 8))

  read_mask_kind : bit_and amk_word 0x2_0000 ≡ mk % 2 * 2 ^ 17
  read_mask_kind = omega (arith, and_bit 17 amk_word)

  read_source_value : bit_and amk_word 0xff ≡ sv
  read_source_value = omega (arith, and_mask 8 amk_word)

  read_source_kind :
      bit_or (shl 8 (bit_and (amk_word / 2 ^ 18) 0x03) 1) (bit_and (amk_word / 2 ^ 16) 0x01) ≡ sk
  read_source_kind =
      let high : bit_and (amk_word / 2 ^ 18) 0x03 ≡ sk / 2 =
        omega (arith, and_mask 2 (amk_word / 2 ^ 18)) in
      let low : bit_and (amk_word / 2 ^ 16) 0x01 ≡ sk % 2 =
        omega (arith, and_mask 1 (amk_word / 2 ^ 16)) in
      let small : sk / 2 * 2 % 256 ≡ sk / 2 * 2 = omega arith in
      rw (high, low, small) (omega (arith, or_field 1 (sk / 2) (sk % 2) (omega arith)))

decode-amk :
    (h d : ℕ) (m s : AtomicOperand) (f : FlowControl)
    → OperandIsTyped m
    → OperandIsTyped s
    → MaskFits m
    → OperandFits s
    → decode_atomic_mask (h * 2 ^ 20 + atomic_low m s) d (flow_offset f)
      ≡ some (atomic_mask d m s f)
unfolding decode_atomic_mask
decode-amk h d (nibble n p) s f tm ts fm fs =
    let hm : n * 16 + p < 256 = omega arith in
    rw (
      read_mask_value h (n * 16 + p) 0 _ _ hm (omega arith) (value-lt s ts fs) (kind-lt s),
      read_mask_kind h (n * 16 + p) 0 _ _ hm (omega arith) (value-lt s ts fs) (kind-lt s),
      read_source_value h (n * 16 + p) 0 _ _ hm (omega arith) (value-lt s ts fs) (kind-lt s),
      read_source_kind h (n * 16 + p) 0 _ _ hm (omega arith) (value-lt s ts fs) (kind-lt s),
      decode-operand (nibble n p) tm fm,
      decode-operand s ts fs,
      decode-flow f,
    )
decode-amk h d (tcs a) s f tm ts fm fs = rw (
  read_mask_value h a 3 _ _ tm (omega arith) (value-lt s ts fs) (kind-lt s),
  read_mask_kind h a 3 _ _ tm (omega arith) (value-lt s ts fs) (kind-lt s),
  read_source_value h a 3 _ _ tm (omega arith) (value-lt s ts fs) (kind-lt s),
  read_source_kind h a 3 _ _ tm (omega arith) (value-lt s ts fs) (kind-lt s),
  decode-operand (tcs a) tm tt,
  decode-operand s ts fs,
  decode-flow f,
)
decode-amk h d (immediate v) s f tm ts fm fs = elim fm [ ]
decode-amk h d (csr a) s f tm ts fm fs = elim fm [ ]

zero_low :
    (m s : AtomicOperand)
    → MaskFits m
    → (atomic_low m s == 0) ≡ (is_zero_nibble m && is_zero_nibble s)
zero_low (nibble n p) (nibble k q) fm = ground arith
zero_low (nibble n p) (immediate v) fm = ground arith
zero_low (nibble n p) (csr a) fm = ground arith
zero_low (nibble n p) (tcs a) fm = ground arith
zero_low (tcs a) s fm = ground arith
zero_low (immediate v) s fm = elim fm [ ]
zero_low (csr a) s fm = elim fm [ ]

-- What the arms of the decoder make of the fields of an instruction.
decode_major-fields :
    (h : ℕ) (i : Instruction)
    → IsTyped i
    → Fits i
    → decode_major (h * 2 ^ 20 + low_of i) (destination_of i) (major_of i) (low_of i)
      ≡ some (canonical i)
unfolding decode_major
decode_major-fields h (nop continue) t fits = ground (arith, decode-flow continue)
decode_major-fields h (nop halt) t fits = ground (arith, decode-flow halt)
decode_major-fields h (nop pause) t fits = ground (arith, decode-flow pause)
decode_major-fields h (csr_high_immediate d high) t fits = ground arith
decode_major-fields h (csr_low_immediate d low continue) t fits =
    ground (arith, decode-flow continue)
decode_major-fields h (csr_low_immediate d low halt) t fits = ground (arith, decode-flow halt)
decode_major-fields h (csr_low_immediate d low pause) t fits = ground (arith, decode-flow pause)
decode_major-fields h (tcs_low_immediate d (pos n)) t fits = ground arith
decode_major-fields h (tcs_low_immediate d (negsuc n)) t fits = ground arith
decode_major-fields h (atomic_mask d m s continue) (td, tm, ts) (fm, fs) =
    ground (arith, decode-flow continue, zero_low m s fm, decode-amk h d m s continue tm ts fm fs)
decode_major-fields h (atomic_mask d m s halt) (td, tm, ts) (fm, fs) =
    ground (arith, decode-flow halt, zero_low m s fm, decode-amk h d m s halt tm ts fm fs)
decode_major-fields h (atomic_mask d m s pause) (td, tm, ts) (fm, fs) =
    ground (arith, decode-flow pause, zero_low m s fm, decode-amk h d m s pause tm ts fm fs)

-- For an instruction with values of its Rust types: a word that `encode` returns is decoded as the
-- instruction that was encoded, but for the AMK that has the word of a NOP, which is decoded as
-- that NOP.
pub decode-encode :
    (i : Instruction) (w : ℕ) → IsTyped i → encode i ≡ ok w → decode w ≡ known (canonical i)
decode-encode i w t e =
    let (fits, same) = (encode_iff i w t).0 e in
    let (hd, hm, hl) = layout_parts i t fits in
    let join : (destination_of i * 16 + major_of i) * 2 ^ 20 + low_of i ≡ layout i = omega arith in
    rw (
      same,
      decode-fields (destination_of i) (major_of i) (low_of i) hd hm hl,
      ← join,
      decode_major-fields (destination_of i * 16 + major_of i) i t fits,
    )

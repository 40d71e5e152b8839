-- ===== src/Rtmq/Isa.antt =====
-- rust/catseq-rtmq/src/isa.rs: the primitive RTMQ v2 instructions, their binary encoding and the
-- decoder of the diagnostics. A register address is its u8; the text of the diagnostics is left out.
mod Fields
pub mod Wellformed
pub mod Encode
pub mod Decode
pub mod Exact
use package.catseq.Prelude.{
  ℕ, zero, suc, ◌+◌, ◌-◌, ◌%◌, Bool, ◌&&◌, ◌||◌, ltb, leb, ◌==◌, if◌then◌else◌, Option, none, some,
  bit_and, bit_or, Result, ok, err, ◌>>=◌, ◌>>◌, fail_if, not,
}
use package.catseq.Prelude.Bits.{shl, shr}
use package.catseq.Prelude.Int.{ℤ, pos, negsuc, ltb_ℤ, to_word, of_word, sar}

abbrev pub low_20_mask : ℕ
low_20_mask = 0x000f_ffff

abbrev pub high_12_max : ℕ
high_12_max = 0x0fff

abbrev pub signed_20_min : ℤ
signed_20_min = negsuc 0x7_ffff

abbrev pub signed_20_max : ℤ
signed_20_max = pos 0x7_ffff

abbrev pub CsrAddress : Type 0
CsrAddress = ℕ

abbrev pub TcsAddress : Type 0
TcsAddress = ℕ

pub data FlowControl : Type 0 where
  continue halt pause : FlowControl

unfoldable pub opcode_offset : FlowControl → ℕ
opcode_offset continue = 0
opcode_offset halt = 1
opcode_offset pause = 2

unfoldable pub from_opcode_offset : ℕ → Option FlowControl
from_opcode_offset offset =
    if offset == 0
    then some continue
    else if offset == 1
    then some halt
    else if offset == 2
    then some pause
    else none

pub data AtomicOperand : Type 0 where
  nibble : ℕ → ℕ → AtomicOperand
  immediate : ℤ → AtomicOperand
  csr : CsrAddress → AtomicOperand
  tcs : TcsAddress → AtomicOperand

-- The messages of the source's `EncodeError`.
pub data EncodeError : Type 0 where
  nibble_width high_12_width low_20_width signed_20_width mask_operand : EncodeError

-- The value byte of an operand and its kind.
unfoldable pub encode_operand : AtomicOperand → Result EncodeError (ℕ × ℕ)
encode_operand (nibble n position) =
    if ltb n 16 && ltb position 16 then ok (bit_or (shl 8 n 4) position, 0) else err nibble_width
encode_operand (immediate value) = ok (to_word 8 value, 1)
encode_operand (csr address) = ok (address, 2)
encode_operand (tcs address) = ok (address, 3)

unfoldable pub decode_operand : ℕ → ℕ → Option AtomicOperand
decode_operand value kind =
    if kind == 0
    then some (nibble (shr value 4) (bit_and value 0x0f))
    else if kind == 1
    then some (immediate (of_word 8 value))
    else if kind == 2
    then some (csr value)
    else if kind == 3
    then some (tcs value)
    else none

pub data Instruction : Type 0 where
  nop : FlowControl → Instruction
  csr_high_immediate : CsrAddress → ℕ → Instruction
  csr_low_immediate : CsrAddress → ℕ → FlowControl → Instruction
  tcs_low_immediate : TcsAddress → ℤ → Instruction
  atomic_mask : CsrAddress → AtomicOperand → AtomicOperand → FlowControl → Instruction

-- The word of an AMK instruction, from the parts of its operands.
unfoldable pub pack_atomic_mask : ℕ → ℕ → ℕ × ℕ → ℕ × ℕ → ℕ
pack_atomic_mask destination major (mask_value, mask_kind) (source_value, source_kind) =
    let opcode = bit_or (shl 32 destination 24) (shl 32 major 20) in
    let kinds =
      bit_or
        (bit_or (bit_or opcode (shl 32 (shr source_kind 1) 18)) (shl 32 (bit_and mask_kind 1) 17))
        (shl 32 (bit_and source_kind 1) 16) in
    bit_or (bit_or kinds (shl 32 mask_value 8)) source_value

unfoldable pub encode : Instruction → Result EncodeError ℕ
unfolding opcode_offset encode_operand pack_atomic_mask
encode (nop flow) = ok (shl 32 (13 + opcode_offset flow) 20)
encode (csr_high_immediate destination high_12_bits) = do
  fail_if (ltb high_12_max high_12_bits) high_12_width
  ok (bit_or (bit_or (shl 32 destination 24) (shl 32 8 20)) high_12_bits)
encode (csr_low_immediate destination low_20_bits flow) = do
  fail_if (ltb low_20_mask low_20_bits) low_20_width
  ok (bit_or (bit_or (shl 32 destination 24) (shl 32 (9 + opcode_offset flow) 20)) low_20_bits)
encode (tcs_low_immediate destination value) = do
  fail_if (ltb_ℤ value signed_20_min || ltb_ℤ signed_20_max value) signed_20_width
  ok (
      bit_or (bit_or (shl 32 destination 24) (shl 32 2 20))
        (bit_and (to_word 32 value) low_20_mask))
encode (atomic_mask destination mask source flow) = do
  m ← encode_operand mask
  fail_if (not (m.1 == 0) && not (m.1 == 3)) mask_operand
  s ← encode_operand source
  ok (pack_atomic_mask destination (13 + opcode_offset flow) m s)

pub data DecodedInstruction : Type 0 where
  known : Instruction → DecodedInstruction
  unknown : ℕ → DecodedInstruction

abbrev bind {ℓ κ} : {A : Type ℓ} {B : Type κ} → Option A → (A → Option B) → Option B
bind (some a) f = f a
bind none f = none

unfoldable pub decode_atomic_mask : ℕ → CsrAddress → ℕ → Option Instruction
decode_atomic_mask word destination flow_offset =
    let mask_value = bit_and (shr word 8) 0xff in
    let mask_kind : ℕ = if bit_and word (shl 32 1 17) == 0 then 0 else 3 in
    let source_value = bit_and word 0xff in
    let source_kind = bit_or (shl 8 (bit_and (shr word 18) 0x03) 1) (bit_and (shr word 16) 0x01) in
    bind (decode_operand mask_value mask_kind) λ mask.
      bind (decode_operand source_value source_kind) λ source.
        bind (from_opcode_offset flow_offset)
          λ flow. some (atomic_mask destination mask source flow)

-- The `match` on the major opcode, its arms in order. In the CLO arm the offset is at most 2, so
-- that the `expect` of the source has a flow control.
unfoldable pub decode_major : ℕ → CsrAddress → ℕ → ℕ → Option Instruction
decode_major word destination major low_20_bits =
    if leb 13 major && leb major 15 && (destination == 0 && low_20_bits == 0)
    then bind (from_opcode_offset (major - 13)) (λ flow. some (nop flow))
    else if major == 8 && leb low_20_bits high_12_max
    then some (csr_high_immediate destination low_20_bits)
    else if leb 9 major && leb major 11
    then bind (from_opcode_offset (major - 9))
        (λ flow. some (csr_low_immediate destination low_20_bits flow))
    else if major == 2
    then some (tcs_low_immediate destination (sar (of_word 32 (shl 32 low_20_bits 12)) 12))
    else if leb 13 major && leb major 15
    then decode_atomic_mask word destination (major - 13)
    else none

abbrev known_or : ℕ → Option Instruction → DecodedInstruction
known_or word (some i) = known i
known_or word none = unknown word

unfoldable pub decode : ℕ → DecodedInstruction
decode word =
    known_or word (
      decode_major word (shr word 24 % 256) (bit_and (shr word 20) 0x0f) (bit_and word low_20_mask))

-- ===== src/Rtmq/Isa/Encode.antt =====
-- `encode` writes the layout of exactly the instructions that fit.
use catseq.Prelude.{
  ℕ, ◌+◌, ◌-◌, ◌*◌, ◌/◌, ◌%◌, ◌^◌, ◌≤◌, ◌<◌, ◌≡◌, ◌↔◌, sym, refl, arith, ok, ok_inj, ◌∙◌,
}
use catseq.Prelude.Bits.{or_field, and_mask}
use catseq.Prelude.Int.{pos, negsuc}
use catseq.Rtmq.Isa.{
  Instruction, nop, csr_high_immediate, csr_low_immediate, tcs_low_immediate, atomic_mask,
  AtomicOperand, nibble, immediate, csr, tcs, FlowControl, encode, encode_operand, pack_atomic_mask,
  opcode_offset,
}
use catseq.Rtmq.Isa.Fields.{word_fields}
use catseq.Rtmq.Isa.Wellformed.{
  IsTyped, OperandIsTyped, Fits, OperandFits, operand_value, operand_kind, layout, flow_offset,
  destination_of, major_of, low_of,
}

flow_lem : (f : FlowControl) → (opcode_offset f ≡ flow_offset f) × (flow_offset f ≤ 2)
unfolding opcode_offset
flow_lem f = ground arith

pub operand_ok :
    (o : AtomicOperand)
    → OperandIsTyped o
    → OperandFits o
    → encode_operand o ≡ ok (operand_value o, operand_kind o)
unfolding encode_operand
operand_ok (nibble n p) t f = ground (arith, or_field 4 n p (omega arith))
operand_ok (immediate v) t f = refl
operand_ok (csr a) t f = refl
operand_ok (tcs a) t f = refl

pub value-lt : (o : AtomicOperand) → OperandIsTyped o → OperandFits o → operand_value o < 256
value-lt (nibble n p) t f = omega arith
value-lt (immediate (pos n)) t f = omega arith
value-lt (immediate (negsuc n)) t f = omega arith
value-lt (csr a) t f = t
value-lt (tcs a) t f = t

pack_lem :
    (d m mv mk sv sk : ℕ)
    → d < 256
    → m < 16
    → mv < 256
    → mk < 4
    → sv < 256
    → sk < 4
    → pack_atomic_mask d m (mv, mk) (sv, sk)
      ≡ d * 2 ^ 24
        + m * 2 ^ 20
        + (sk / 2 * 2 ^ 18 + mk % 2 * 2 ^ 17 + sk % 2 * 2 ^ 16 + mv * 2 ^ 8 + sv)
unfolding pack_atomic_mask
pack_lem d m mv mk sv sk hd hm hmv hmk hsv hsk = ground (
  arith,
  and_mask 1 mk,
  and_mask 1 sk,
  or_field 24 d (m * 2 ^ 20) (omega arith),
  or_field 20 (d * 16 + m) (sk / 2 * 2 ^ 18) (omega arith),
  or_field 18 ((d * 16 + m) * 4 + sk / 2) (mk % 2 * 2 ^ 17) (omega arith),
  or_field 17 (((d * 16 + m) * 4 + sk / 2) * 2 + mk % 2) (sk % 2 * 2 ^ 16) (omega arith),
  or_field 16 ((((d * 16 + m) * 4 + sk / 2) * 2 + mk % 2) * 2 + sk % 2) (mv * 2 ^ 8) (omega arith),
  or_field 8 (((((d * 16 + m) * 4 + sk / 2) * 2 + mk % 2) * 2 + sk % 2) * 256 + mv) sv
      (omega arith),
)

pub kind-lt : (o : AtomicOperand) → operand_kind o < 4
kind-lt (nibble _ _) = omega arith
kind-lt (immediate _) = omega arith
kind-lt (csr _) = omega arith
kind-lt (tcs _) = omega arith

amk_lem :
    (d : ℕ) (m s : AtomicOperand) (f : FlowControl)
    → IsTyped (atomic_mask d m s f)
    → Fits (atomic_mask d m s f)
    → encode (atomic_mask d m s f) ≡ ok (layout (atomic_mask d m s f))
unfolding encode
amk_lem d (nibble n p) s f (td, tm, ts) (fm, fs) =
    rw (operand_ok (nibble n p) tm fm, operand_ok s ts fs)
      (ground (
        arith,
        flow_lem f,
        pack_lem d (13 + flow_offset f) (n * 16 + p) 0 (operand_value s) (operand_kind s) td
            (omega (arith, flow_lem f)) (omega arith) (omega arith) (value-lt s ts fs) (kind-lt s),
      ))
amk_lem d (tcs a) s f (td, tm, ts) (fm, fs) = rw (operand_ok s ts fs) (
    ground (
      arith,
      flow_lem f,
      pack_lem d (13 + flow_offset f) a 3 (operand_value s) (operand_kind s) td
          (omega (arith, flow_lem f)) tm (omega arith) (value-lt s ts fs) (kind-lt s),
    ))
amk_lem d (immediate v) s f t (fm, fs) = elim fm [ ]
amk_lem d (csr a) s f t (fm, fs) = elim fm [ ]

-- Every instruction whose operands fit is encoded as its layout.
pub encode-layout : (i : Instruction) → IsTyped i → Fits i → encode i ≡ ok (layout i)
unfolding encode
encode-layout (nop f) t fits = ground (arith, flow_lem f)
encode-layout (csr_high_immediate d high) t fits =
    ground (arith, word_fields d 8 high t.0 (omega arith) (omega arith))
encode-layout (csr_low_immediate d low f) t fits =
    ground (
      arith,
      flow_lem f,
      word_fields d (9 + flow_offset f) low t.0 (omega (arith, flow_lem f)) fits,
    )
encode-layout (tcs_low_immediate d (pos n)) t fits =
    ground (arith, and_mask 20 (n % 2 ^ 32), word_fields d 2 (n % 2 ^ 20) t.0)
encode-layout (tcs_low_immediate d (negsuc n)) t fits =
    ground
      (arith, and_mask 20 (2 ^ 32 - 1 - n % 2 ^ 32), word_fields d 2 (2 ^ 20 - 1 - n % 2 ^ 20) t.0)
encode-layout (atomic_mask d m s f) t fits = amk_lem d m s f t fits

encode-Fits : (i : Instruction) (w : ℕ) → encode i ≡ ok w → Fits i
unfolding encode
encode-Fits (nop f) w h = tt
encode-Fits (csr_high_immediate d high) w h = ground arith
encode-Fits (csr_low_immediate d low f) w h = ground arith
encode-Fits (tcs_low_immediate d v) w h = ground arith
encode-Fits (atomic_mask d (nibble n p) (nibble k q) f) w h = ground arith
encode-Fits (atomic_mask d (nibble n p) s f) w h = ground arith
encode-Fits (atomic_mask d (tcs a) (nibble k q) f) w h = ground arith
encode-Fits (atomic_mask d (tcs a) s f) w h = (tt, tt)
encode-Fits (atomic_mask d (immediate v) s f) w h = cc
encode-Fits (atomic_mask d (csr a) s f) w h = cc

-- For an instruction with values of its Rust types: `encode` succeeds exactly if the operands fit
-- the fields of the word, and the word that it then returns is their layout: eight bits of
-- destination, four of major opcode and twenty of operands.
pub encode_iff :
    (i : Instruction) (w : ℕ) → IsTyped i → (encode i ≡ ok w) ↔ (Fits i × (w ≡ layout i))
encode_iff i w t = (
  λ h. (encode-Fits i w h, ok_inj (sym h ∙ encode-layout i t (encode-Fits i w h))),
  λ p. rw p.1 (encode-layout i t p.0),
)

low-lt : (i : Instruction) → IsTyped i → Fits i → low_of i < 2 ^ 20
low-lt (nop f) t h = omega arith
low-lt (csr_high_immediate d high) t h = omega arith
low-lt (csr_low_immediate d low f) t h = h
low-lt (tcs_low_immediate d (pos n)) t h = omega arith
low-lt (tcs_low_immediate d (negsuc n)) t h = omega arith
low-lt (atomic_mask d (nibble n p) s f) (td, tm, ts) (fm, fs) =
    omega (arith, value-lt s ts fs, kind-lt s)
low-lt (atomic_mask d (tcs a) s f) (td, tm, ts) (fm, fs) =
    omega (arith, value-lt s ts fs, kind-lt s)
low-lt (atomic_mask d (immediate v) s f) t (fm, fs) = elim fm [ ]
low-lt (atomic_mask d (csr a) s f) t (fm, fs) = elim fm [ ]

-- The three parts of a layout lie in their fields.
pub layout_parts :
    (i : Instruction)
    → IsTyped i
    → Fits i
    → (destination_of i < 256) × (major_of i < 16) × (low_of i < 2 ^ 20)
layout_parts (nop f) t h = ground (arith, flow_lem f)
layout_parts (csr_high_immediate d high) t h = omega arith
layout_parts (csr_low_immediate d low f) t h = ground (arith, flow_lem f)
layout_parts (tcs_low_immediate d v) t h = (t.0, omega arith, low-lt (tcs_low_immediate d v) t h)
layout_parts (atomic_mask d m s f) t h =
    (t.0, omega (arith, flow_lem f), low-lt (atomic_mask d m s f) t h)

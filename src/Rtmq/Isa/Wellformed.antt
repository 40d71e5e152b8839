-- ===== src/Rtmq/Isa/Wellformed.antt =====
-- Which instructions the Rust types can hold, which of them the hardware word can hold, and the
-- word as a sum of fields.
use catseq.Prelude.{ℕ, ◌+◌, ◌*◌, ◌/◌, ◌%◌, ◌^◌, ◌<◌, Bool, false, ◌&&◌, ◌==◌, if◌then◌else◌}
use catseq.Prelude.Int.{pos, negsuc, ◌≤ℤ◌, to_word}
use catseq.Rtmq.Isa.{
  Instruction, nop, csr_high_immediate, csr_low_immediate, tcs_low_immediate, atomic_mask,
  AtomicOperand, nibble, immediate, csr, tcs, FlowControl, signed_20_min, signed_20_max,
}

abbrev pub OperandIsTyped : AtomicOperand → Type 0
OperandIsTyped (nibble n position) = (n < 256) × (position < 256)
OperandIsTyped (immediate value) = (negsuc 127 ≤ℤ value) × (value ≤ℤ pos 127)
OperandIsTyped (csr address) = address < 256
OperandIsTyped (tcs address) = address < 256

-- The ranges of u8, u16, u32, i8 and i32.
abbrev pub IsTyped : Instruction → Type 0
IsTyped (nop flow) = Unit
IsTyped (csr_high_immediate d high) = (d < 256) × (high < 2 ^ 16)
IsTyped (csr_low_immediate d low flow) = (d < 256) × (low < 2 ^ 32)
IsTyped (tcs_low_immediate d value) =
    (d < 256) × (negsuc 0x7fff_ffff ≤ℤ value) × (value ≤ℤ pos 0x7fff_ffff)
IsTyped (atomic_mask d mask source flow) = (d < 256) × OperandIsTyped mask × OperandIsTyped source

abbrev pub OperandFits : AtomicOperand → Type 0
OperandFits (nibble n position) = (n < 16) × (position < 16)
OperandFits _ = Unit

abbrev pub MaskFits : AtomicOperand → Type 0
MaskFits (nibble n position) = (n < 16) × (position < 16)
MaskFits (tcs address) = Unit
MaskFits _ = ⊥

-- The fields of the hardware word hold the operands.
abbrev pub Fits : Instruction → Type 0
Fits (nop flow) = Unit
Fits (csr_high_immediate d high) = high < 2 ^ 12
Fits (csr_low_immediate d low flow) = low < 2 ^ 20
Fits (tcs_low_immediate d value) = (signed_20_min ≤ℤ value) × (value ≤ℤ signed_20_max)
Fits (atomic_mask d mask source flow) = MaskFits mask × OperandFits source

abbrev pub operand_value : AtomicOperand → ℕ
operand_value (nibble n position) = n * 16 + position
operand_value (immediate value) = to_word 8 value
operand_value (csr address) = address
operand_value (tcs address) = address

abbrev pub operand_kind : AtomicOperand → ℕ
operand_kind (nibble n position) = 0
operand_kind (immediate value) = 1
operand_kind (csr address) = 2
operand_kind (tcs address) = 3

-- The low twenty bits of an AMK word: source kind (high bit), mask kind, source kind (low bit), the
-- two value bytes.
abbrev pub atomic_low : AtomicOperand → AtomicOperand → ℕ
atomic_low mask source =
    operand_kind source / 2 * 2 ^ 18
    + operand_kind mask % 2 * 2 ^ 17
    + operand_kind source % 2 * 2 ^ 16
    + operand_value mask * 2 ^ 8
    + operand_value source

-- Destination, major opcode and the low twenty bits of each instruction.
abbrev pub destination_of : Instruction → ℕ
destination_of (nop flow) = 0
destination_of (csr_high_immediate d high) = d
destination_of (csr_low_immediate d low flow) = d
destination_of (tcs_low_immediate d value) = d
destination_of (atomic_mask d mask source flow) = d

abbrev pub flow_offset : FlowControl → ℕ
flow_offset FlowControl.continue = 0
flow_offset FlowControl.halt = 1
flow_offset FlowControl.pause = 2

abbrev pub major_of : Instruction → ℕ
major_of (nop flow) = 13 + flow_offset flow
major_of (csr_high_immediate d high) = 8
major_of (csr_low_immediate d low flow) = 9 + flow_offset flow
major_of (tcs_low_immediate d value) = 2
major_of (atomic_mask d mask source flow) = 13 + flow_offset flow

abbrev pub low_of : Instruction → ℕ
low_of (nop flow) = 0
low_of (csr_high_immediate d high) = high
low_of (csr_low_immediate d low flow) = low
low_of (tcs_low_immediate d value) = to_word 20 value
low_of (atomic_mask d mask source flow) = atomic_low mask source

abbrev pub layout : Instruction → ℕ
layout i = destination_of i * 2 ^ 24 + major_of i * 2 ^ 20 + low_of i

abbrev pub is_zero_nibble : AtomicOperand → Bool
is_zero_nibble (nibble n position) = n == 0 && position == 0
is_zero_nibble _ = false

-- An AMK to register 0 with the operands 0.0 and 0.0 has the word of a NOP, and is shown as the
-- NOP. Every other instruction is shown as itself.
abbrev pub canonical : Instruction → Instruction
canonical (atomic_mask d mask source flow) =
    if d == 0 && (is_zero_nibble mask && is_zero_nibble source)
    then nop flow
    else atomic_mask d mask source flow
canonical i = i

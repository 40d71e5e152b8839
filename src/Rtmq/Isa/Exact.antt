-- ===== src/Rtmq/Isa/Exact.antt =====
-- The decoder shows as known exactly the words of encodable instructions.
use catseq.Prelude.{
  ℕ, zero, suc, ◌+◌, ◌-◌, ◌*◌, ◌/◌, ◌%◌, ◌^◌, ◌≤◌, ◌<◌, ◌≡◌, ◌⊎◌, inl, inr, sym, refl, arith, ok,
  ◌∙◌, bit_and, bit_or, some, none, Option, ◌==◌, ◌&&◌, Bool-cases, leb, ltb, ==_iff,
}
use mathlib.Core.Path.{subst}
use catseq.Prelude.Bits.{shl, or_field, and_mask, and_bit}
use catseq.Prelude.Int.{of_word, sar}
use catseq.Rtmq.Isa.{
  Instruction, tcs_low_immediate, atomic_mask, AtomicOperand, nibble, immediate, csr, tcs,
  FlowControl, continue, halt, pause, encode, decode, decode_major, decode_atomic_mask,
  decode_operand, known, known_or, from_opcode_offset, high_12_max, bind,
}
use catseq.Rtmq.Isa.Encode.{encode_iff, kind-lt}
use catseq.Rtmq.Isa.Decode.{decode-fields}
use catseq.Rtmq.Isa.Wellformed.{
  IsTyped, OperandIsTyped, Fits, OperandFits, MaskFits, operand_value, operand_kind, layout,
  flow_offset,
}

-- An instruction that was read is one whose layout is the word.
abbrev Reads : ℕ → Option Instruction → Type 0
Reads w none = Unit
Reads w (some i) = IsTyped i × Fits i × (layout i ≡ w)

flow_cases :
    (k : ℕ) → k ≤ 2 → (f : FlowControl) × (from_opcode_offset k ≡ some f) × (flow_offset f ≡ k)
unfolding from_opcode_offset
flow_cases zero h = (continue, refl, refl)
flow_cases (suc zero) h = (halt, refl, refl)
flow_cases (suc (suc zero)) h = (pause, refl, refl)
flow_cases (suc (suc (suc k))) h = absurd (omega arith)

-- What the decoder reads as an operand.
abbrev ReadsOperand : ℕ → ℕ → Option AtomicOperand → Type 0
ReadsOperand v k none = Unit
ReadsOperand v k (some o) =
    OperandIsTyped o × OperandFits o × (operand_value o ≡ v) × (operand_kind o ≡ k)

read_operand : (v k : ℕ) → v < 256 → ReadsOperand v k (decode_operand v k)
unfolding decode_operand
read_operand v zero h = ground (arith, and_mask 4 v)
read_operand v (suc zero) h = elim (Bool-cases (leb 128 v)) [
  | inl e ↦ ground arith
  | inr e ↦ ground arith
]
read_operand v (suc (suc zero)) h = ground arith
read_operand v (suc (suc (suc zero))) h = ground arith
read_operand v (suc (suc (suc (suc k)))) h = ground arith

mask_fits :
    (o : AtomicOperand) → OperandFits o → (operand_kind o ≡ 0) ⊎ (operand_kind o ≡ 3) → MaskFits o
mask_fits (nibble n p) f h = f
mask_fits (tcs a) f h = tt
mask_fits (immediate v) f h = omega arith
mask_fits (csr a) f h = omega arith

module _ (d m l : ℕ) (hd : d < 256) (hm : 13 ≤ m) (hm' : m < 16) (hl : l < 2 ^ 20) where
  abbrev source_kind : ℕ
  source_kind = l / 2 ^ 18 * 2 + l / 2 ^ 16 % 2

  read_amk :
      (mk : ℕ)
      → mk % 2 ≡ l / 2 ^ 17 % 2
      → (mk ≡ 0) ⊎ (mk ≡ 3)
      → (x y : Option AtomicOperand) → ReadsOperand (l / 2 ^ 8 % 256) mk x
      → ReadsOperand (l % 256) source_kind y
      → Reads (d * 2 ^ 24 + m * 2 ^ 20 + l) (
          bind x λ mask. bind y λ source.
            bind (from_opcode_offset (m - 13)) λ flow. some (atomic_mask d mask source flow))
  read_amk mk hmk h none y rx ry = tt
  read_amk mk hmk h (some o) none rx ry = tt
  read_amk mk hmk h (some o) (some p) (to, fo, vo, ko) (tp, fp, vp, kp) =
      let (f, e, ef) = flow_cases (m - 13) (omega arith) in
      rw e ((hd, to, tp), (mask_fits o fo (rw ko h), fp), omega (arith, kind-lt p))

  read_atomic_mask :
      Reads
        (d * 2 ^ 24 + m * 2 ^ 20 + l)
        (decode_atomic_mask (d * 2 ^ 24 + m * 2 ^ 20 + l) d (m - 13))
  unfolding decode_atomic_mask
  read_atomic_mask =
      let w = d * 2 ^ 24 + m * 2 ^ 20 + l in
      let mv : bit_and (w / 2 ^ 8) 0xff ≡ l / 2 ^ 8 % 256 = omega (arith, and_mask 8 (w / 2 ^ 8)) in
      let mk : bit_and w 0x2_0000 ≡ l / 2 ^ 17 % 2 * 2 ^ 17 = omega (arith, and_bit 17 w) in
      let sv : bit_and w 0xff ≡ l % 256 = omega (arith, and_mask 8 w) in
      let s1 : bit_and (w / 2 ^ 18) 3 ≡ l / 2 ^ 18 = omega (arith, and_mask 2 (w / 2 ^ 18)) in
      let s0 : bit_and (w / 2 ^ 16) 1 ≡ l / 2 ^ 16 % 2 = omega (arith, and_mask 1 (w / 2 ^ 16)) in
      let small : l / 2 ^ 18 * 2 % 256 ≡ l / 2 ^ 18 * 2 = omega arith in
      let sk : bit_or (l / 2 ^ 18 * 2) (l / 2 ^ 16 % 2) ≡ source_kind =
        or_field 1 (l / 2 ^ 18) (l / 2 ^ 16 % 2) (omega arith) in
      rw (mv, mk, sv, s1, s0, small, sk)
        (elim (Bool-cases (l / 2 ^ 17 % 2 * 2 ^ 17 == 0)) [
          | inl e ↦ rw e (
              read_amk 0 (ground arith) (inl refl) _ _ (read_operand _ 0 (omega arith))
                (read_operand _ source_kind (omega arith)))
          | inr e ↦ rw e (
              read_amk 3 (ground arith) (inr refl) _ _ (read_operand _ 3 (omega arith))
                (read_operand _ source_kind (omega arith)))
        ])

read_tcs :
    (d l : ℕ)
    → d < 256
    → l < 2 ^ 20
    → Reads
        (d * 2 ^ 24 + 2 * 2 ^ 20 + l)
        (some (tcs_low_immediate d (sar (of_word 32 (shl 32 l 12)) 12)))
read_tcs d l hd hl = elim (Bool-cases (ltb (l * 2 ^ 12 % 2 ^ 32) (2 ^ 31))) [
  | inl e ↦ rw e ((hd, omega arith, omega arith), (omega arith, ground arith), ground arith)
  | inr e ↦ rw e ((hd, ground arith, omega arith), (ground arith, omega arith), ground arith)
]

read_major :
    (d m l : ℕ)
    → d < 256
    → m < 16
    → l < 2 ^ 20
    → Reads (d * 2 ^ 24 + m * 2 ^ 20 + l) (decode_major (d * 2 ^ 24 + m * 2 ^ 20 + l) d m l)
unfolding decode_major
read_major d m l hd hm hl = elim (Bool-cases (leb 13 m && leb m 15 && (d == 0 && l == 0))) [
  | inl e ↦
      let (f, e', ef) = flow_cases (m - 13) (ground arith) in rw (e, e') (tt, tt, ground arith)
  | inr e ↦ rw e (elim (Bool-cases (m == 8 && leb l high_12_max)) [
    | inl c ↦ rw c ((hd, ground arith), ground arith, ground arith)
    | inr c ↦ rw c (elim (Bool-cases (leb 9 m && leb m 11)) [
      | inl b ↦
          let (f, e', ef) = flow_cases (m - 9) (ground arith) in
          rw (b, e') ((hd, omega arith), hl, ground arith)
      | inr b ↦ rw b (elim (Bool-cases (m == 2)) [
        | inl a ↦ rw a (let two : m ≡ 2 = (==_iff m 2).0 a in rw two (read_tcs d l hd hl))
        | inr a ↦ rw a (elim (Bool-cases (leb 13 m && leb m 15)) [
          | inl k ↦ rw k (read_atomic_mask d m l hd (ground arith) hm hl)
          | inr k ↦ rw k tt
        ])
      ])
    ])
  ])
]

known_some :
    (w : ℕ) (x : Option Instruction) (i : Instruction) → known_or w x ≡ known i → x ≡ some i
known_some w none i e = cc
known_some w (some j) i e = cc

-- On every 32-bit word: if the decoder shows it as a known instruction, then that instruction has
-- values of its Rust types, and `encode` gives back the word.
pub encode-decode :
    (w : ℕ) (i : Instruction) → w < 2 ^ 32 → decode w ≡ known i → IsTyped i × (encode i ≡ ok w)
encode-decode w i hw e =
    let d = w / 2 ^ 24 in
    let m = w / 2 ^ 20 % 16 in
    let l = w % 2 ^ 20 in
    let hd : d < 256 = omega arith in
    let join : d * 2 ^ 24 + m * 2 ^ 20 + l ≡ w = omega arith in
    let taken : decode w ≡ known_or w (decode_major w d m l) =
      rw join at (decode-fields d m l hd (omega arith) (omega arith)) in
    let arm : decode_major w d m l ≡ some i = known_some w _ i (sym taken ∙ e) in
    let reads : Reads w (decode_major w d m l) =
      rw join at (read_major d m l hd (omega arith) (omega arith)) in
    let (t, f, same) = subst (Reads w) arm reads in (t, (encode_iff i w t).1 (f, sym same))

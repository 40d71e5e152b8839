-- ===== src/Rtmq/Isa/Fields.antt =====
-- The instruction word as a sum of its fields.
use catseq.Prelude.{ℕ, ◌+◌, ◌*◌, ◌^◌, ◌<◌, ◌≡◌, arith, bit_or}
use catseq.Prelude.Bits.{shl, or_field}

-- Eight bits of destination, four of major opcode, twenty below.
pub word_fields :
    (d m l : ℕ)
    → d < 256
    → m < 16
    → l < 2 ^ 20
    → bit_or (bit_or (shl 32 d 24) (shl 32 m 20)) l ≡ d * 2 ^ 24 + m * 2 ^ 20 + l
word_fields d m l hd hm hl =
    ground (arith, or_field 24 d (m * 2 ^ 20) (omega arith), or_field 20 (d * 16 + m) l hl)

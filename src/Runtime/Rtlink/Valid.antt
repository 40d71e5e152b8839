-- ===== src/Runtime/Rtlink/Valid.antt =====
-- The frames that `RtlinkFrame::new` makes.
use catseq.Prelude.{ℕ, ◌*◌, ◌+◌, ◌^◌, ◌≤◌, ◌<◌}
use catseq.Runtime.Rtlink.{RtlinkFrame}

-- The ranges of the fields, those of the Rust types included.
pub record IsValid (f : RtlinkFrame) : Type 0 where
  pub flag_fits : f.flag ≤ 7
  pub channel_fits : f.channel ≤ 31
  pub node_fits : f.node < 2 ^ 16
  pub tag_fits : f.tag < 2 ^ 20
  pub first_fits : f.payload.0 < 2 ^ 32
  pub second_fits : f.payload.1 < 2 ^ 32

-- The 44-bit header as a sum of its fields.
abbrev pub header_of : RtlinkFrame → ℕ
header_of f = f.flag * 2 ^ 41 + f.channel * 2 ^ 36 + f.node * 2 ^ 20 + f.tag

-- ===== src/Runtime/Transport.antt =====
-- rust/catseq-runtime/src/transport/mod.rs: the packets and the seam between the runtime and the
-- network. The socket behind it is a parameter: a record of the trait's operations over a state.
use catseq.Prelude.{ℕ, Bool, true, false, ◌==◌, ◌&&◌, Option, List, [], ◌∷◌, Result}

pub record TransportEnvelope : Type 0 where
  pub ether_type : ℕ
  pub source_mac : List ℕ
  pub destination_mac : List ℕ
  pub loopback_marker : List ℕ

pub record WirePacket : Type 0 where
  pub ether_type : ℕ
  pub source_mac : List ℕ
  pub destination_mac : List ℕ
  pub loopback_marker : List ℕ
  pub payload : List ℕ

pub data SendRejection : Type 0 where
  not_accepted acceptance_unknown : SendRejection

-- The messages of `TransportError` and `ReceiveError` are left out.
pub data TransportError : Type 0 where
  open_failed : TransportError

pub data ReceiveError : Type 0 where
  receive_failed : ReceiveError

-- The deadline of `receive` is fixed for a run, and is the transport's own.
pub record Transport : Type 1 where
  pub Port : Type 0
  pub open_port : Port → Result TransportError TransportEnvelope × Port
  pub send : WirePacket → Port → Result SendRejection (Unit {0}) × Port
  pub receive : Port → Result ReceiveError (Option WirePacket) × Port
  pub close : Port → Port

-- Equality of byte arrays.
abbrev pub same_bytes : List ℕ → List ℕ → Bool
same_bytes [] [] = true
same_bytes (x ∷ xs) (y ∷ ys) = x == y && same_bytes xs ys
same_bytes _ _ = false

-- ===== src/Runtime/Execution/Dispatch.antt =====
-- rust/catseq-runtime/src/execution.rs, `dispatch`: sending the frames of the prepared boards.
use catseq.Prelude.{
  ℕ, zero, suc, Bool, ltb, ◌==◌, if◌then◌else◌, List, [], ◌∷◌, Option, none, some, Result, ok, err,
}
use catseq.Runtime.Address.{OasmAddress, address_key}
use catseq.Runtime.Rtlink.{RtlinkFrame, encode}
use catseq.Runtime.Transport.{
  Transport, TransportEnvelope, WirePacket, SendRejection, not_accepted, acceptance_unknown,
}
use catseq.Runtime.Execution.Outcome.{
  BoardExecutionState, loader_submitted, launch_submitted, rank, Evidence, Exceptions,
  transport_send_failed, new_failure,
}
use catseq.Runtime.Execution.Prepare.{PreparedFrame, PreparedBoard, Stop, failed, panicked}

-- `if *state < next { *state = next; }`
abbrev pub raise_to : BoardExecutionState → BoardExecutionState → BoardExecutionState
raise_to next state = if ltb (rank state) (rank next) then next else state

abbrev pub submitted_state : Bool → BoardExecutionState
submitted_state launch_bearing = if launch_bearing then launch_submitted else loader_submitted

-- The evidence with the state of one board raised; `none` is the panic of the `expect`, where the
-- board has no entry.
unfoldable pub advance_submitted : Evidence → OasmAddress → Bool → Option Evidence
advance_submitted [] board launch_bearing = none
advance_submitted ((address, state) ∷ rest) board launch_bearing =
    let later = advance_submitted rest board launch_bearing in
    if address_key address == address_key board
    then some ((address, raise_to (submitted_state launch_bearing) state) ∷ rest)
    else elim later [ none ↦ none | some advanced ↦ some ((address, state) ∷ advanced) ]

unfoldable pub outbound_packet : TransportEnvelope → RtlinkFrame → WirePacket
outbound_packet envelope frame = record {
  ether_type = envelope.ether_type;
  source_mac = envelope.source_mac;
  destination_mac = envelope.destination_mac;
  loopback_marker = envelope.loopback_marker;
  payload = encode frame;
}

module _ (T : Transport) where
  open T use {Port, send}

  -- What a part of the dispatch leaves: what stopped it if anything, the evidence and the transport.
  pub record Sent : Type 0 where
    pub failure : Option Stop
    pub evidence : Evidence
    pub port : Port

  -- `?` on a step of the dispatch.
  abbrev pub and_then : Sent → (Evidence → Port → Sent) → Sent
  and_then sent next = elim sent.failure [ none ↦ next sent.evidence sent.port | some f ↦ sent ]

  abbrev pub sent_all : Evidence → Port → Sent
  sent_all evidence port = record { failure = none; evidence = evidence; port = port }

  module _ (envelope : TransportEnvelope) (retries : ℕ) (exceptions : Exceptions) where
    abbrev pub refuse : Evidence → Port → Sent
    refuse evidence port = record {
      failure = some (failed (new_failure transport_send_failed evidence exceptions));
      evidence = evidence;
      port = port;
    }

    -- What follows the `expect`.
    abbrev pub advanced_with : (Evidence → Port → Sent) → Option Evidence → Evidence → Port → Sent
    advanced_with next (some advanced) evidence port = next advanced port
    advanced_with next none evidence port = record {
      failure = some panicked;
      evidence = evidence;
      port = port;
    }

    -- The `match` on the answer of `send`; `again` is what a packet that was not accepted leads to.
    abbrev pub settle :
        OasmAddress
        → PreparedFrame
        → Evidence
        → (Port → Sent)
        → Result SendRejection (Unit {0})
        → Port
        → Sent
    unfolding advance_submitted
    settle board prepared evidence again (ok u) port =
        advanced_with sent_all (advance_submitted evidence board prepared.launch_bearing) evidence
          port
    settle board prepared evidence again (err not_accepted) port = again port
    settle board prepared evidence again (err acceptance_unknown) port =
        advanced_with refuse (advance_submitted evidence board prepared.launch_bearing) evidence
          port

    -- The `loop` on one frame, with the retries that are left.
    unfoldable pub send_frame : ℕ → OasmAddress → PreparedFrame → Evidence → Port → Sent
    unfolding outbound_packet
    send_frame zero board prepared evidence port =
        let (answer, port') = send (outbound_packet envelope prepared.frame) port in
        settle board prepared evidence (refuse evidence) answer port'
    send_frame (suc left) board prepared evidence port =
        let (answer, port') = send (outbound_packet envelope prepared.frame) port in
        settle board prepared evidence (send_frame left board prepared evidence) answer port'

    unfoldable pub send_frames : OasmAddress → List PreparedFrame → Evidence → Port → Sent
    send_frames board [] evidence port = sent_all evidence port
    send_frames board (frame ∷ rest) evidence port =
        and_then (send_frame retries board frame evidence port) (send_frames board rest)

    unfoldable pub dispatch : List PreparedBoard → Evidence → Port → Sent
    dispatch [] evidence port = sent_all evidence port
    dispatch (board ∷ rest) evidence port =
        and_then (send_frames board.address board.frames evidence port) (dispatch rest)

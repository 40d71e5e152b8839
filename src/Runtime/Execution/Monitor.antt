-- ===== src/Runtime/Execution/Monitor.antt =====
-- rust/catseq-runtime/src/execution.rs, `monitor` and `apply_frame`: what the replies of the boards
-- do to the evidence.
use catseq.Prelude.{
  ℕ, zero, suc, ◌%◌, ◌^◌, Bool, true, false, ◌==◌, ◌&&◌, not, if◌then◌else◌, List, [], ◌∷◌, ◌++◌,
  Option, none, some, Result, ok, err, ◌>>=◌, ◌>>◌, fail_if, ok_or,
}
use mathlib.Core.Option
use catseq.Prelude.Bits.{shr}
use catseq.Prelude.Map.{lookup, insert, remove, all_values}
use catseq.Runtime.Address.{OasmAddress, address_keys}
use catseq.Runtime.Contract.{AssembledOasmProgram, LinuxRawEthernetRuntimeConfig, BoardEndpoint}
use catseq.Runtime.Rtlink
use catseq.Runtime.Rtlink.{RtlinkFrame}
use catseq.Runtime.Transport.{Transport, TransportEnvelope, WirePacket, ReceiveError, same_bytes}
use catseq.Runtime.Execution.Outcome.{
  succeeded, device_failed, is_terminal, is_succeeded, is_device_failed, Evidence, Exceptions,
  RuntimeSuccess, new_failure, RuntimeFailureCode, device_exception, completion_timeout,
  transport_receive_failed, protocol_violation,
}
use catseq.Runtime.Execution.Prepare.{download_flag, Stop, failed, panicked}

abbrev pub operation_tag : ℕ
operation_tag = 0xffff

-- The four maps that the loop carries.
pub record Observed : Type 0 where
  pub evidence : Evidence
  pub exceptions : Exceptions
  pub exception_addresses : List (OasmAddress × ℕ)
  pub results : List (OasmAddress × List ℕ)

unfoldable pub board_for_node : List BoardEndpoint → ℕ → Option OasmAddress
board_for_node [] node = none
board_for_node (endpoint ∷ rest) node =
    if endpoint.node == node then some endpoint.address else board_for_node rest node

-- The messages of `apply_frame`; `missing_board` is the panic of `evidence[&board]`.
pub data Violation : Type 0 where
  address_after_terminal failure_after_success success_after_address : Violation
  success_after_failure duplicate_success data_after_terminal missing_board : Violation

-- `results.entry(board).or_default()`, extended.
unfoldable pub extend_results :
    OasmAddress → List ℕ → List (OasmAddress × List ℕ) → List (OasmAddress × List ℕ)
extend_results board words results =
    insert board (Option.get_or (lookup board results) [] ++ words) results

-- The branch of the download flag, by the info bits.
unfoldable pub apply_download : OasmAddress → ℕ → ℕ → Observed → Result Violation Observed
unfolding extend_results
apply_download board info value s =
    if info == 1
    then ok_or (lookup board s.evidence) missing_board >>= (λ state.
      fail_if (is_terminal state) address_after_terminal
      >> ok (record s { exception_addresses = insert board value s.exception_addresses }))
    else if info == 0
    then ok_or (lookup board s.evidence) missing_board >>= (λ state.
      fail_if (is_succeeded state) failure_after_success
      >> ok (record s {
        evidence = insert board device_failed s.evidence;
        exceptions =
            insert board
              (record {
                exception_flags = value;
                instruction_address = lookup board s.exception_addresses;
              })
              s.exceptions;
        exception_addresses = remove board s.exception_addresses;
      }))
    else ok (record s { results = extend_results board (value ∷ []) s.results })

abbrev pub is_some {ℓ} : {A : Type ℓ} → Option A → Bool
is_some none = false
is_some (some a) = true

-- The branch of the operation tag.
unfoldable pub apply_operation : OasmAddress → ℕ → ℕ × ℕ → Observed → Result Violation Observed
unfolding extend_results
apply_operation board argument_count (first, second) s =
    if second == 0 && argument_count == 0
    then fail_if (is_some (lookup board s.exception_addresses)) success_after_address
      >> (ok_or (lookup board s.evidence) missing_board >>= λ state.
          fail_if (is_device_failed state) success_after_failure
          >> (fail_if (is_succeeded state) duplicate_success
              >> ok (record s { evidence = insert board succeeded s.evidence })))
    else if not (second == 0)
    then ok (record s { results = extend_results board (first ∷ second ∷ []) s.results })
    else ok s

-- The last branch: result data.
unfoldable pub apply_data : OasmAddress → ℕ × ℕ → Observed → Result Violation Observed
unfolding extend_results
apply_data board (first, second) s = ok_or (lookup board s.evidence) missing_board >>= λ state.
    fail_if (is_terminal state) data_after_terminal
    >> ok (record s { results = extend_results board (first ∷ second ∷ []) s.results })

-- Frames of a node that no endpoint has are passed over.
abbrev pub for_board :
    Option OasmAddress
    → Observed
    → (OasmAddress → Result Violation Observed)
    → Result Violation Observed
for_board none s act = ok s
for_board (some board) s act = act board

unfoldable pub apply_frame : List BoardEndpoint → RtlinkFrame → Observed → Result Violation Observed
apply_frame endpoints frame s =
    let payload = frame.payload in
    if frame.flag == download_flag
    then for_board (board_for_node endpoints (payload.0 % 2 ^ 16)) s
        (λ board. apply_download board (shr payload.0 20) payload.1 s)
    else if frame.tag == operation_tag
    then for_board (board_for_node endpoints (payload.0 % 2 ^ 16)) s
        (λ board. apply_operation board (shr payload.0 16) payload s)
    else for_board (board_for_node endpoints (frame.tag % 2 ^ 16)) s
        λ board. apply_data board payload s

unfoldable pub envelope_is_attributable : TransportEnvelope → WirePacket → Bool
envelope_is_attributable envelope packet =
    packet.ether_type == envelope.ether_type
    && same_bytes packet.source_mac envelope.destination_mac
    && same_bytes packet.destination_mac envelope.source_mac
    && not (same_bytes packet.loopback_marker envelope.loopback_marker)

-- Whether the route of a packet is that of the program's replies.
abbrev pub routed_to : ℕ → ℕ → Option (ℕ × ℕ) → Bool
routed_to reply_channel reply_node none = false
routed_to reply_channel reply_node (some (channel, node)) =
    channel == reply_channel && node == reply_node

-- What the loop leaves, with the transport after it.
abbrev pub Outcome : Transport → Type 0
Outcome T = Option (Result Stop RuntimeSuccess × T.Port)

module _ (program : AssembledOasmProgram) (config : LinuxRawEthernetRuntimeConfig)
    (envelope : TransportEnvelope) where
  abbrev pub stop_with : RuntimeFailureCode → Observed → Stop
  stop_with code s = failed (new_failure code s.evidence s.exceptions)

  -- The `map_err` on a frame: a violation, or the panic.
  abbrev pub violation_result : Observed → Result Violation Observed → Result Stop Observed
  violation_result s (ok s') = ok s'
  violation_result s (err missing_board) = err panicked
  violation_result s (err v) = err (stop_with protocol_violation s)

  -- What one received packet does to the state: the part of the loop's body behind `receive`.
  unfoldable pub observe : WirePacket → Observed → Result Stop Observed
  observe packet s =
      if envelope_is_attributable envelope packet
        && routed_to program.reply_channel program.reply_node (Rtlink.route packet.payload)
      then elim (Rtlink.decode packet.payload) [
        | ok frame ↦ violation_result s (apply_frame config.boards frame s)
        | err e ↦ err (stop_with protocol_violation s)
      ]
      else ok s

  -- The test at the head of the loop: `none` to go on.
  unfoldable pub finished : Observed → Option (Result Stop RuntimeSuccess)
  unfolding all_values
  finished s =
      if all_values is_terminal s.evidence
      then some (elim s.exceptions [
        | [] ↦ ok (record { schema_version = 1; board_evidence = s.evidence; results = s.results })
        | e ∷ es ↦ err (stop_with device_exception s)
      ])
      else none

  module _ (T : Transport) where
    open T use {Port, receive}

    -- Goes on with the next turn, unless the packet ended the run.
    abbrev pub proceed : (Observed → Port → Outcome T) → Result Stop Observed → Port → Outcome T
    proceed next (ok s) port = next s port
    proceed next (err stop) port = some (err stop, port)

    -- What the loop does with an answer of `receive`.
    abbrev pub take_answer :
        (Observed → Port → Outcome T)
        → Observed
        → Result ReceiveError (Option WirePacket)
        → Port
        → Outcome T
    take_answer next s (ok none) port = some (err (stop_with completion_timeout s), port)
    take_answer next s (err e) port = some (err (stop_with transport_receive_failed s), port)
    take_answer next s (ok (some packet)) port = proceed next (observe packet s) port

    -- The loop, on fuel: `none` is that the fuel ran out.
    unfoldable pub monitor : ℕ → Observed → Port → Outcome T
    monitor zero s port = none
    monitor (suc fuel) s port =
        let (answer, port') = receive port in
        elim (finished s) [
          | some outcome ↦ some (outcome, port)
          | none ↦ take_answer (monitor fuel) s answer port'
        ]

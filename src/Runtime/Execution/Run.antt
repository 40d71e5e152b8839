-- ===== src/Runtime/Execution/Run.antt =====
-- rust/catseq-runtime/src/execution.rs, `execute_with_transport`: the phases of a run.
use catseq.Prelude.{
  Bool, if◌then◌else◌, ℕ, List, [], ◌∷◌, ltb, ◌==◌, Option, none, some, Result, ok, err,
}
use catseq.Runtime.Address.{OasmAddress, address_key}
use catseq.Runtime.Contract.{
  AssembledOasmBoard, AssembledOasmProgram, LinuxRawEthernetRuntimeConfig,
}
use catseq.Runtime.Transport.{Transport, TransportEnvelope, TransportError}
use catseq.Runtime.Execution.Outcome.{
  not_dispatched, Evidence, new_failure, transport_open_failed, topology_invalid,
}
use catseq.Runtime.Execution.Prepare.{Stop, failed, PreparedBoard, prepare}
use catseq.Runtime.Execution.Dispatch.{dispatch}
use catseq.Runtime.Execution.Monitor.{Observed, Outcome, monitor}

-- `insert` of an address into the map, whose entries are in the order of their addresses.
abbrev pub enter_board : OasmAddress → Evidence → Evidence
enter_board address [] = (address, not_dispatched) ∷ []
enter_board address ((other, state) ∷ rest) =
    let later = enter_board address rest in
    if address_key address == address_key other
    then (other, not_dispatched) ∷ rest
    else if ltb (address_key address) (address_key other)
    then (address, not_dispatched) ∷ (other, state) ∷ rest
    else (other, state) ∷ later

-- `collect` into the map: each entry has the same state, whatever order they are inserted in.
abbrev pub evidence_of : List AssembledOasmBoard → Evidence
evidence_of [] = []
evidence_of (board ∷ boards) = enter_board board.address (evidence_of boards)

abbrev pub initial_evidence : AssembledOasmProgram → Evidence
initial_evidence program = evidence_of program.boards

abbrev pub observed_from : Evidence → Observed
observed_from evidence = record {
  evidence = evidence;
  exceptions = [];
  exception_addresses = [];
  results = [];
}

module _ (T : Transport) (program : AssembledOasmProgram) (config : LinuxRawEthernetRuntimeConfig)
    (retries fuel : ℕ) where
  open T use {Port, open_port, close}

  abbrev pub closing : Outcome T → Outcome T
  closing none = none
  closing (some (outcome, port)) = some (outcome, close port)

  -- The `and_then` behind the dispatch.
  abbrev pub monitored : TransportEnvelope → Evidence → Port → Option Stop → Outcome T
  monitored envelope evidence port (some stop) = some (err stop, port)
  monitored envelope evidence port none =
      monitor program config envelope T fuel (observed_from evidence) port

  -- `dispatch(..).and_then(monitor)`, then `close`.
  unfoldable pub run_opened : List PreparedBoard → TransportEnvelope → Port → Outcome T
  run_opened prepared envelope port =
      let sent = dispatch T envelope retries [] prepared (initial_evidence program) port in
      closing (monitored envelope sent.evidence sent.port sent.failure)

  -- The `match` on the answer of `open`.
  abbrev pub opened_with :
      List PreparedBoard → Result TransportError TransportEnvelope → Port → Outcome T
  opened_with prepared (err e) port =
      some (err (failed (new_failure transport_open_failed (initial_evidence program) [])), port)
  opened_with prepared (ok envelope) port = run_opened prepared envelope port

  -- The deadline is made before the transport opens. `clock_fits` is whether the monotonic clock can
  -- represent the moment so many milliseconds from now.
  abbrev pub with_prepared :
      (clock_fits : ℕ → Bool) → Result Stop (List PreparedBoard) → Port → Outcome T
  with_prepared clock_fits (err stop) port = some (err stop, port)
  with_prepared clock_fits (ok prepared) port =
      if clock_fits config.timeout_ms
      then opened_with prepared (open_port port).0 (open_port port).1
      else some (err (failed (new_failure topology_invalid (initial_evidence program) [])), port)

  -- `none` is that the monitor's fuel ran out.
  unfoldable pub execute_with_transport : (clock_fits : ℕ → Bool) → Port → Outcome T
  execute_with_transport clock_fits port =
      with_prepared clock_fits (prepare (initial_evidence program) [] program config) port

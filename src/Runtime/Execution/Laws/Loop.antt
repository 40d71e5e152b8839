-- ===== src/Runtime/Execution/Laws/Loop.antt =====
-- The loop of `monitor`: its report is sound.
use catseq.Prelude.{
  ℕ, zero, suc, Bool, ◌≡◌, ◌≢◌, refl, true, false, ◌&&◌, Option, none, some, List, [], ◌∷◌, Result,
  ok, err, Bool-cases, Option-cases, inl, inr, sym, All, some_inj,
}
use mathlib.Core.Path.{subst}
use catseq.Prelude.Map.{keys_of, Distinct, all_values}
use catseq.Runtime.Address.{address_keys}
use catseq.Runtime.Contract.{AssembledOasmProgram, LinuxRawEthernetRuntimeConfig}
use catseq.Runtime.Rtlink
use catseq.Runtime.Rtlink.{RtlinkFrame}
use catseq.Runtime.Transport.{Transport, TransportEnvelope, WirePacket, ReceiveError}
use catseq.Runtime.Execution.Outcome.{
  is_terminal, is_succeeded, Evidence, RuntimeSuccess, RuntimeFailureCode, Exceptions, new_failure,
  validate_failure, validate_success, no_boards, device_exception, completion_timeout,
  transport_receive_failed, protocol_violation,
}
use catseq.Runtime.Execution.Prepare.{Stop, failed, panicked}
use catseq.Runtime.Execution.Monitor.{
  Observed, apply_frame, observe, finished, monitor, Outcome, proceed, take_answer,
  envelope_is_attributable, routed_to, violation_result, stop_with, Violation, missing_board,
}
use catseq.Runtime.Execution.Laws.Calm.{Covered, apply_frame_calm}
use catseq.Runtime.Execution.Laws.Step.{apply_frame-Step}
use catseq.Runtime.Execution.Laws.Consistent.{IsConsistent, Step-IsConsistent}
use catseq.Runtime.Execution.Laws.Reports.{failure-valid, All-succeeded, success-valid}

-- The failures that the loop meets when it has nothing more to take.
abbrev pub is_waiting : RuntimeFailureCode → Bool
is_waiting completion_timeout = true
is_waiting transport_receive_failed = true
is_waiting _ = false

-- What a report says of the boards with the numbers `keys`: a success, that each has succeeded; a
-- failure by a timeout or on receiving, that not all of them have ended; and each passes its check.
abbrev pub IsSound : List ℕ → Result Stop RuntimeSuccess → Type 0
IsSound keys (ok success) =
    (keys_of success.board_evidence ≡ keys)
    × All (λ entry. is_succeeded entry.1 ≡ true) success.board_evidence
    × (validate_success success ≡ ok tt)
IsSound keys (err (failed failure)) =
    (keys_of failure.board_evidence ≡ keys)
    × (validate_failure failure ≡ ok tt)
    × ((is_waiting failure.code && all_values is_terminal failure.board_evidence) ≡ false)
IsSound keys (err panicked) = ⊥

module _ (program : AssembledOasmProgram) (config : LinuxRawEthernetRuntimeConfig)
    (envelope : TransportEnvelope) (keys : List ℕ) (covered : Covered keys config.boards) where
  stop-IsSound :
      (code : RuntimeFailureCode) (s : Observed)
      → IsConsistent keys s
      → (is_waiting code && all_values is_terminal s.evidence) ≡ false
      → IsSound keys (err (stop_with program config envelope code s))
  unfolding new_failure
  stop-IsSound code s c w = (c.same_keys, failure-valid keys s c code, w)

  -- Either a packet leads to a consistent state, or it stops the run with a sound report.
  abbrev Followed : Result Stop Observed → Type 0
  Followed (ok s') = IsConsistent keys s'
  Followed (err stop) = IsSound keys (err stop)

  violation_result-Followed :
      (s : Observed) (answer : Result Violation Observed)
      → IsConsistent keys s
      → ((s' : Observed) → answer ≡ ok s' → IsConsistent keys s')
      → answer ≢ err missing_board
      → Followed (violation_result program config envelope s answer)
  violation_result-Followed s (ok s') c h calm = h s' refl
  violation_result-Followed s (err missing_board) c h calm = absurd (calm refl)
  violation_result-Followed s (err _) c h calm = stop-IsSound protocol_violation s c refl

  observe-Followed :
      (packet : WirePacket) (s : Observed)
      → IsConsistent keys s
      → Followed (observe program config envelope packet s)
  unfolding observe
  observe-Followed packet s c =
      elim (Bool-cases (
        envelope_is_attributable envelope packet
        && routed_to program.reply_channel program.reply_node (Rtlink.route packet.payload))) [
          | inl ours ↦ rw ours (decoded (Rtlink.decode packet.payload))
          | inr foreign ↦ rw foreign c
        ]
    where
      decoded :
          (frame : Result Rtlink.RtlinkFrameError RtlinkFrame)
          → Followed (elim frame [
            | ok frame ↦
                violation_result program config envelope s (apply_frame config.boards frame s)
            | err e ↦ err (stop_with program config envelope protocol_violation s)
          ])
      decoded (ok frame) =
          violation_result-Followed s (apply_frame config.boards frame s) c
            (λ s' e. Step-IsConsistent keys s s' c (apply_frame-Step config.boards frame s s' e))
            (apply_frame_calm config.boards frame s
              (subst (λ ks. Covered ks config.boards) (sym c.same_keys) covered))
      decoded (err e) = stop-IsSound protocol_violation s c refl

  some_boards :
      (evidence : Evidence) → keys ≢ [] → keys_of evidence ≡ keys → no_boards evidence ≡ false
  some_boards [] h e = absurd (h (sym e))
  some_boards (x ∷ xs) h e = refl

  finished-none :
      (s : Observed)
      → finished program config envelope s ≡ none
      → all_values is_terminal s.evidence ≡ false
  unfolding finished
  finished-none s h = elim (Bool-cases (all_values is_terminal s.evidence)) [
    | inl over ↦ absurd (clash (rw over at h))
    | inr waiting ↦ waiting
  ]
    where
      clash : {r : Result Stop RuntimeSuccess} → some r ≡ none → ⊥
      clash q = cc

  finished-IsSound :
      (s : Observed) (outcome : Result Stop RuntimeSuccess)
      → IsConsistent keys s
      → Distinct keys
      → keys ≢ []
      → finished program config envelope s ≡ some outcome
      → IsSound keys outcome
  unfolding finished
  finished-IsSound s outcome c d h e = elim (Bool-cases (all_values is_terminal s.evidence)) [
    | inl all_terminal ↦
        subst (IsSound keys) (some_inj (rw all_terminal at e))
          (by_reports all_terminal s.exceptions refl)
    | inr waiting ↦ absurd (clash (rw waiting at e))
  ]
    where
      clash : none ≡ some outcome → ⊥
      clash q = cc

      by_reports :
          all_values is_terminal s.evidence ≡ true
          → (reports : Exceptions) → s.exceptions ≡ reports
          → IsSound keys (elim reports [
            | [] ↦
                ok (record { schema_version = 1; board_evidence = s.evidence; results = s.results })
            | e ∷ es ↦ err (stop_with program config envelope device_exception s)
          ])
      by_reports t [] clean =
          let won = All-succeeded keys s c d t clean in
          (
            c.same_keys,
            won,
            success-valid s.evidence s.results won (some_boards s.evidence h c.same_keys),
          )
      by_reports t (r ∷ rs) q = stop-IsSound device_exception s c refl

  module _ (T : Transport) where
    open T use {Port, receive}

    -- A run of the rest of the loop that reports soundly from every consistent state.
    Reports : (Observed → Port → Outcome T) → Type 0
    Reports next =
        (s : Observed) (port port' : Port) (outcome : Result Stop RuntimeSuccess)
        → IsConsistent keys s
        → next s port ≡ some (outcome, port')
        → IsSound keys outcome

    same_report :
        {q q' : Port} (result : Result Stop RuntimeSuccess) {outcome : Result Stop RuntimeSuccess}
        → IsSound keys result
        → ◌≡◌ {A = Outcome T} (some (result, q)) (some (outcome, q'))
        → IsSound keys outcome
    same_report result sound e =
        subst (λ (r : Result Stop RuntimeSuccess × Port). IsSound keys r.0) (some_inj e) sound

    proceed-IsSound :
        (next : Observed → Port → Outcome T) (answer : Result Stop Observed) (port port' : Port)
        (outcome : Result Stop RuntimeSuccess)
        → Reports next
        → Followed answer
        → proceed program config envelope T next answer port ≡ some (outcome, port')
        → IsSound keys outcome
    unfolding Reports
    proceed-IsSound next (ok s) port port' outcome sound c e = sound s port port' outcome c e
    proceed-IsSound next (err stop) port port' outcome sound c e = same_report (err stop) c e

    take_answer-IsSound :
        (next : Observed → Port → Outcome T) (answer : Result ReceiveError (Option WirePacket))
        (s : Observed) (port port' : Port) (outcome : Result Stop RuntimeSuccess)
        → Reports next
        → IsConsistent keys s
        → all_values is_terminal s.evidence ≡ false
        → take_answer program config envelope T next s answer port ≡ some (outcome, port')
        → IsSound keys outcome
    take_answer-IsSound next (ok none) s port port' outcome sound c w e =
        same_report (err _) (stop-IsSound completion_timeout s c w) e
    take_answer-IsSound next (err x) s port port' outcome sound c w e =
        same_report (err _) (stop-IsSound transport_receive_failed s c w) e
    take_answer-IsSound next (ok (some packet)) s port port' outcome sound c w e =
        proceed-IsSound next (observe program config envelope packet s) port port' outcome sound
          (observe-Followed packet s c) e

    pub monitor-IsSound :
        (fuel : ℕ) (s : Observed) (port port' : Port) (outcome : Result Stop RuntimeSuccess)
        → IsConsistent keys s
        → Distinct keys
        → keys ≢ []
        → monitor program config envelope T fuel s port ≡ some (outcome, port')
        → IsSound keys outcome
    unfolding monitor Reports
    monitor-IsSound zero s port port' outcome c d h e = cc
    monitor-IsSound (suc fuel) s port port' outcome c d h e =
        elim (Option-cases (finished program config envelope s)) [
          | inr (result, over) ↦
              same_report result (finished-IsSound s result c d h over) (rw (over, monitor) at e)
          | inl going ↦
              take_answer-IsSound (monitor program config envelope T fuel) (receive port).0 s
                (receive port).1 port' outcome
                (λ t q q' r c' e'. monitor-IsSound fuel t q q' r c' d h e') c
                (finished-none s going) (rw (going, monitor) at e)
        ]

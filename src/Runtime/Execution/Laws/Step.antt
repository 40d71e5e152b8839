-- ===== src/Runtime/Execution/Laws/Step.antt =====
-- What one frame can do to the evidence and the exception reports, as a relation between states.
use catseq.Prelude.{
  ℕ, zero, suc, [], ◌∷◌, none, ◌>>=◌, ◌>>◌, fail_if, ok_or, ◌≡◌, refl, arith, Bool, false, ◌==◌,
  Option, some, List, Result, ok, Bool-cases, inl, inr, sym, ap, ok_inj, >>-ok, fail_if-ok,
}
use catseq.Prelude.Map.{lookup, insert, remove}
use catseq.Runtime.Address.{OasmAddress, address_keys}
use catseq.Runtime.Contract.{BoardEndpoint}
use catseq.Runtime.Rtlink.{RtlinkFrame}
use catseq.Runtime.Execution.Outcome.{
  BoardExecutionState, not_dispatched, loader_submitted, launch_submitted, succeeded, device_failed,
  is_terminal, is_succeeded, is_device_failed, DeviceExceptionReport,
}
use catseq.Runtime.Execution.Prepare.{download_flag}
use catseq.Runtime.Execution.Monitor.{
  Observed, Violation, missing_board, address_after_terminal, failure_after_success,
  success_after_address, success_after_failure, duplicate_success, data_after_terminal,
  extend_results, apply_download, apply_operation, apply_data, apply_frame, for_board, is_some,
  operation_tag,
}

pub data Step (s s' : Observed) : Type 0 where
  noted : s'.evidence ≡ s.evidence → s'.exceptions ≡ s.exceptions → Step s s'
  fails :
      (b : OasmAddress) (x : BoardExecutionState) (r : DeviceExceptionReport)
      → lookup b s.evidence ≡ some x
      → is_succeeded x ≡ false
      → s'.evidence ≡ insert b device_failed s.evidence
      → s'.exceptions ≡ insert b r s.exceptions
      → Step s s'
  succeeds :
      (b : OasmAddress) (x : BoardExecutionState)
      → lookup b s.evidence ≡ some x
      → is_terminal x ≡ false
      → s'.evidence ≡ insert b succeeded s.evidence
      → s'.exceptions ≡ s.exceptions
      → Step s s'

noted_by :
    (s t s' : Observed) → t ≡ s' → t.evidence ≡ s.evidence → t.exceptions ≡ s.exceptions → Step s s'
noted_by s t s' e p q = rw (← e) (noted p q)

neither :
    (x : BoardExecutionState)
    → is_device_failed x ≡ false
    → is_succeeded x ≡ false
    → is_terminal x ≡ false
unfolding is_terminal
neither not_dispatched p q = refl
neither loader_submitted p q = refl
neither launch_submitted p q = refl
neither succeeded p q = cc
neither device_failed p q = cc

-- A guarded write to the evidence that goes through.
guarded :
    {A : Type 0} (o : Option BoardExecutionState) (v w : Violation)
    (test : BoardExecutionState → Bool) (next : Result Violation A) {t : A}
    → (ok_or o v >>= (λ x. fail_if (test x) w >> next)) ≡ ok t
    → (x : BoardExecutionState) × (o ≡ some x) × (test x ≡ false) × (next ≡ ok t)
guarded none v w test next e = cc
guarded (some x) v w test next e =
    let (passes, rest) = >>-ok (fail_if (test x) w) next e in
    (x, refl, fail_if-ok (test x) w passes, rest)

module _ (board : OasmAddress) where
  address-Step : (value : ℕ) (s s' : Observed) → apply_download board 1 value s ≡ ok s' → Step s s'
  unfolding apply_download
  address-Step value s s' e =
      let (x, found, running, made) =
        guarded (lookup board s.evidence) missing_board address_after_terminal is_terminal
          (ok (record s { exception_addresses = insert board value s.exception_addresses })) e in
      noted_by s _ s' (ok_inj made) refl refl

  failure-Step : (value : ℕ) (s s' : Observed) → apply_download board 0 value s ≡ ok s' → Step s s'
  unfolding apply_download
  failure-Step value s s' e =
      let report : DeviceExceptionReport = record {
        exception_flags = value;
        instruction_address = lookup board s.exception_addresses;
      } in
      let next : Observed = record s {
        evidence = insert board device_failed s.evidence;
        exceptions = insert board report s.exceptions;
        exception_addresses = remove board s.exception_addresses;
      } in
      let (x, found, running, made) =
        guarded (lookup board s.evidence) missing_board failure_after_success is_succeeded (ok next)
          e in
      fails board x report found running (ap (λ (t : Observed). t.evidence) (sym (ok_inj made)))
        (ap (λ (t : Observed). t.exceptions) (sym (ok_inj made)))

  apply_download-Step :
      (info value : ℕ) (s s' : Observed) → apply_download board info value s ≡ ok s' → Step s s'
  unfolding apply_download
  apply_download-Step zero value s s' e = failure-Step value s s' e
  apply_download-Step (suc zero) value s s' e = address-Step value s s' e
  apply_download-Step (suc (suc info)) value s s' e =
      let other : (suc (suc info) == 1) ≡ false = ground arith in
      let last : (suc (suc info) == 0) ≡ false = ground arith in
      noted_by s _ s' (ok_inj (rw (other, last) at e)) refl refl

  success-Step :
      (first : ℕ) (s s' : Observed) → apply_operation board 0 (first, 0) s ≡ ok s' → Step s s'
  unfolding apply_operation
  success-Step first s s' e =
      let next : Observed = record s { evidence = insert board succeeded s.evidence } in
      let (waits, e2) =
        >>-ok (fail_if (is_some (lookup board s.exception_addresses)) success_after_address)
          (ok_or (lookup board s.evidence) missing_board >>= λ x.
            fail_if (is_device_failed x) success_after_failure
            >> (fail_if (is_succeeded x) duplicate_success >> ok next))
          e in
      let (x, found, alive, unfinished, made) = twice (lookup board s.evidence) (ok next) e2 in
      succeeds board x found (neither x alive unfinished)
        (ap (λ (t : Observed). t.evidence) (sym (ok_inj made)))
        (ap (λ (t : Observed). t.exceptions) (sym (ok_inj made)))
    where
      twice :
          (o : Option BoardExecutionState) (next : Result Violation Observed)
          → (ok_or o missing_board >>= (λ x.
              fail_if (is_device_failed x) success_after_failure
              >> (fail_if (is_succeeded x) duplicate_success >> next)))
            ≡ ok s'
          → (x : BoardExecutionState) × (o ≡ some x)
            × (is_device_failed x ≡ false)
            × (is_succeeded x ≡ false)
            × (next ≡ ok s')
      twice none next h = cc
      twice (some x) next h =
          let (alive, h2) =
            >>-ok (fail_if (is_device_failed x) success_after_failure)
              (fail_if (is_succeeded x) duplicate_success >> next) h in
          let (unfinished, made) = >>-ok (fail_if (is_succeeded x) duplicate_success) next h2 in
          (
            x,
            refl,
            fail_if-ok (is_device_failed x) success_after_failure alive,
            fail_if-ok (is_succeeded x) duplicate_success unfinished,
            made,
          )

  apply_operation-Step :
      (arguments first second : ℕ) (s s' : Observed)
      → apply_operation board arguments (first, second) s ≡ ok s'
      → Step s s'
  unfolding apply_operation
  apply_operation-Step zero first zero s s' e = success-Step first s s' e
  apply_operation-Step (suc a) first zero s s' e =
      let counted : (suc a == 0) ≡ false = ground arith in
      noted_by s _ s' (ok_inj (rw counted at e)) refl refl
  apply_operation-Step a first (suc n) s s' e =
      let word : (suc n == 0) ≡ false = ground arith in
      noted_by s _ s' (ok_inj (rw word at e)) refl refl

  apply_data-Step : (words : ℕ × ℕ) (s s' : Observed) → apply_data board words s ≡ ok s' → Step s s'
  unfolding apply_data extend_results
  apply_data-Step (first, second) s s' e =
      let (x, found, running, made) =
        guarded (lookup board s.evidence) missing_board data_after_terminal is_terminal
          (ok (record s { results = extend_results board (first ∷ second ∷ []) s.results })) e in
      noted_by s _ s' (ok_inj made) refl refl

for_board-Step :
    (found : Option OasmAddress) (s s' : Observed) (act : OasmAddress → Result Violation Observed)
    → ((b : OasmAddress) → act b ≡ ok s' → Step s s')
    → for_board found s act ≡ ok s'
    → Step s s'
for_board-Step none s s' act h e = noted_by s _ s' (ok_inj e) refl refl
for_board-Step (some b) s s' act h e = h b e

pub apply_frame-Step :
    (endpoints : List BoardEndpoint) (frame : RtlinkFrame) (s s' : Observed)
    → apply_frame endpoints frame s ≡ ok s'
    → Step s s'
unfolding apply_frame
apply_frame-Step endpoints frame s s' e = elim (Bool-cases (frame.flag == download_flag)) [
  | inl download ↦ for_board-Step _ s s' _ (λ b. apply_download-Step b _ _ s s') (rw download at e)
  | inr other ↦ elim (Bool-cases (frame.tag == operation_tag)) [
    | inl operation ↦
        for_board-Step _ s s' _ (λ b. apply_operation-Step b _ _ _ s s')
          (rw (other, operation) at e)
    | inr plain ↦ for_board-Step _ s s' _ (λ b. apply_data-Step b _ s s') (rw (other, plain) at e)
  ]
]

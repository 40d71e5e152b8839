-- ===== src/Runtime/Execution/Laws/Reports.antt =====
-- The reports of a consistent state pass their own validation.
use catseq.Prelude.{
  ℕ, ◌≡◌, refl, arith, true, false, ◌==◌, not, List, [], ◌∷◌, ok, sym, ap, ◌∙◌, All,
}
use catseq.Prelude.Map.{lookup, Distinct, All-entries, lookup-all_values, all_values, any_value}
use catseq.Runtime.Address.{OasmAddress, address_keys}
use catseq.Runtime.Execution.Outcome.{
  BoardExecutionState, not_dispatched, loader_submitted, launch_submitted, succeeded, device_failed,
  is_terminal, is_device_failed, is_succeeded, Evidence, Exceptions, failed_in, exceptions_match,
  new_failure, RuntimeFailureCode, validate_failure, validate_success, derive_certainty, no_boards,
  certainty_key, ExecutionCertainty, not_started, fully_observed, indeterminate,
}
use catseq.Runtime.Execution.Monitor.{Observed, is_some}
use catseq.Runtime.Execution.Laws.Consistent.{IsConsistent, is_failure, failed_in_lem}

present :
    (b : OasmAddress) (V : Type 0) (x : V) (m : List (OasmAddress × V))
    → is_some (lookup b ((b, x) ∷ m)) ≡ true
unfolding lookup
present b V x m = ground arith

shifted :
    (a b : OasmAddress) (V : Type 0) (x : V) (m : List (OasmAddress × V))
    → is_some (lookup a m) ≡ true
    → is_some (lookup a ((b, x) ∷ m)) ≡ true
unfolding lookup
shifted a b V x m h = ground (arith, h)

matching :
    (evidence : Evidence) (exceptions : Exceptions)
    → ((b : OasmAddress) → is_some (lookup b exceptions) ≡ true → failed_in evidence b ≡ true)
    → exceptions_match evidence exceptions ≡ true
unfolding exceptions_match
matching evidence [] h = refl
matching evidence ((b, r) ∷ rest) h =
    rw (h b (present b _ r rest)) (matching evidence rest (λ a p. h a (shifted a b _ r rest p)))

own_certainty : (c : ExecutionCertainty) → (certainty_key c == certainty_key c) ≡ true
own_certainty not_started = refl
own_certainty fully_observed = refl
own_certainty indeterminate = refl

module _ (keys : List ℕ) (s : Observed) (c : IsConsistent keys s) where
  pub consistent-match : exceptions_match s.evidence s.exceptions ≡ true
  consistent-match =
      matching s.evidence s.exceptions (λ b p. failed_in_lem s.evidence b ∙ sym (c.reported b) ∙ p)

  pub failure-valid :
      (code : RuntimeFailureCode)
      → validate_failure (new_failure code s.evidence s.exceptions) ≡ ok tt
  unfolding validate_failure new_failure
  failure-valid code = rw (own_certainty (derive_certainty s.evidence), consistent-match) refl

  settled :
      (x : BoardExecutionState)
      → is_terminal x ≡ true
      → is_device_failed x ≡ false
      → is_succeeded x ≡ true
  unfolding is_terminal
  settled not_dispatched h k = cc
  settled loader_submitted h k = cc
  settled launch_submitted h k = cc
  settled succeeded h k = refl
  settled device_failed h k = cc

  pub All-succeeded :
      Distinct keys
      → all_values is_terminal s.evidence ≡ true
      → s.exceptions ≡ []
      → All (λ entry. is_succeeded entry.1 ≡ true) s.evidence
  unfolding lookup
  All-succeeded distinct terminal clean =
      All-entries (λ x. is_succeeded x ≡ true) s.evidence (rw c.same_keys distinct)
        λ a x found. settled x (lookup-all_values is_terminal s.evidence a x terminal found) (
          ap is_failure (sym found)
          ∙ sym (c.reported a)
          ∙ ap (λ (m : Exceptions). is_some (lookup a m)) clean)

none_left :
    (evidence : Evidence)
    → All (λ entry. is_succeeded entry.1 ≡ true) evidence
    → any_value (λ state. not (is_succeeded state)) evidence ≡ false
unfolding any_value
none_left [] h = refl
none_left ((a, x) ∷ m) (h, hs) = rw h (none_left m hs)

pub success-valid :
    (evidence : Evidence) (results : List (OasmAddress × List ℕ))
    → All (λ entry. is_succeeded entry.1 ≡ true) evidence
    → no_boards evidence ≡ false
    → validate_success (record { schema_version = 1; board_evidence = evidence; results = results })
      ≡ ok tt
unfolding validate_success
success-valid evidence results h some_board = rw (some_board, none_left evidence h) refl

-- ===== src/Runtime/Execution/Laws/Progress.antt =====
-- A frame only moves the boards of the evidence forward.
use catseq.Prelude.{
  ◌≤◌, ◌≡◌, refl, arith, true, false, ◌==◌, some, List, ok, Bool-cases, inl, inr, sym, ap, ◌∙◌,
  some_inj,
}
use catseq.Prelude.Map.{lookup, insert, lookup-insert}
use catseq.Runtime.Address.{OasmAddress, address_key, address_keys, address_key_inj}
use catseq.Runtime.Contract.{BoardEndpoint}
use catseq.Runtime.Rtlink.{RtlinkFrame}
use catseq.Runtime.Execution.Outcome.{
  BoardExecutionState, not_dispatched, loader_submitted, launch_submitted, succeeded, device_failed,
  is_terminal, is_succeeded, rank, Evidence,
}
use catseq.Runtime.Execution.Monitor.{Observed, apply_frame}
use catseq.Runtime.Execution.Laws.Step.{Step, noted, fails, succeeds, apply_frame-Step}

-- The next state of a board: the same, or a terminal one that a board which has succeeded does not
-- leave.
pub data Forward (x y : BoardExecutionState) : Type 0 where
  stays : y ≡ x → Forward x y
  reports : is_succeeded x ≡ false → is_terminal y ≡ true → rank x ≤ rank y → Forward x y

below_failed : (x : BoardExecutionState) → rank x ≤ 4
below_failed not_dispatched = omega arith
below_failed loader_submitted = omega arith
below_failed launch_submitted = omega arith
below_failed succeeded = omega arith
below_failed device_failed = omega arith

open_lem :
    (x : BoardExecutionState) → is_terminal x ≡ false → (rank x ≤ 3) × (is_succeeded x ≡ false)
unfolding is_terminal
open_lem not_dispatched h = (omega arith, refl)
open_lem loader_submitted h = (omega arith, refl)
open_lem launch_submitted h = (omega arith, refl)
open_lem succeeded h = cc
open_lem device_failed h = cc

-- The write of a next state at one board, seen from every board.
written :
    (a b : OasmAddress) (x y z : BoardExecutionState) (m : Evidence)
    → lookup b m ≡ some x
    → Forward x y
    → lookup a m ≡ some z
    → (w : BoardExecutionState) × (lookup a (insert b y m) ≡ some w) × Forward z w
written a b x y z m here step at_a = elim (Bool-cases (address_key b == address_key a)) [
  | inl same ↦
      let p : b ≡ a = address_key_inj b a (ground arith) in
      let q : x ≡ z = some_inj (sym here ∙ ap (λ c. lookup c m) p ∙ at_a) in
      (y, rw (lookup-insert b a y m, same) refl, rw (← q) step)
  | inr other ↦ (z, rw (lookup-insert b a y m, other) at_a, stays refl)
]

Step-Forward :
    (s s' : Observed) (a : OasmAddress) (z : BoardExecutionState)
    → Step s s'
    → lookup a s.evidence ≡ some z
    → (w : BoardExecutionState) × (lookup a s'.evidence ≡ some w) × Forward z w
unfolding is_terminal
Step-Forward s s' a z (noted same reports_same) at_a = (z, rw same at_a, stays refl)
Step-Forward s s' a z (fails b x r here running evidence' exceptions') at_a =
    rw evidence'
      (written a b x device_failed z s.evidence here (reports running refl (below_failed x)) at_a)
Step-Forward s s' a z (succeeds b x here running evidence' exceptions') at_a =
    let (low, unfinished) = open_lem x running in
    rw evidence' (written a b x succeeded z s.evidence here (reports unfinished refl low) at_a)

-- A frame that is accepted keeps every board of the evidence, and the state of each stays or
-- becomes a terminal one of no lower rank; a board that has succeeded stays so.
pub apply_frame-Forward :
    (endpoints : List BoardEndpoint) (frame : RtlinkFrame) (s s' : Observed) (a : OasmAddress)
    (z : BoardExecutionState)
    → apply_frame endpoints frame s ≡ ok s'
    → lookup a s.evidence ≡ some z
    → (w : BoardExecutionState) × (lookup a s'.evidence ≡ some w) × Forward z w
apply_frame-Forward endpoints frame s s' a z accepted =
    Step-Forward s s' a z (apply_frame-Step endpoints frame s s' accepted)

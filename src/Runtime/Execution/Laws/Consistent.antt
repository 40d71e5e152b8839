-- ===== src/Runtime/Execution/Laws/Consistent.antt =====
-- The invariant of the monitor: the boards that have failed are those with an exception report, and
-- the boards of the evidence stay those that the run began with.
use catseq.Prelude.{
  ℕ, ◌≡◌, refl, arith, Bool, false, ◌==◌, if◌then◌else◌, Option, none, some, List, Bool-cases, inl,
  inr, ap, ◌∙◌,
}
use catseq.Prelude.Map.{lookup, lookup-insert, keys_of, keys_of-insert}
use catseq.Runtime.Address.{OasmAddress, address_key, address_keys, address_key_inj}
use catseq.Runtime.Execution.Outcome.{
  BoardExecutionState, not_dispatched, loader_submitted, launch_submitted, succeeded, device_failed,
  is_terminal, is_device_failed, Evidence, failed_in,
}
use catseq.Runtime.Execution.Monitor.{Observed, is_some}
use catseq.Runtime.Execution.Laws.Step.{Step, noted, fails, succeeds}

-- Whether the entry of a board, where it has one, is a failure.
abbrev pub is_failure : Option BoardExecutionState → Bool
is_failure none = false
is_failure (some x) = is_device_failed x

pub failed_in_lem :
    (evidence : Evidence) (b : OasmAddress) → failed_in evidence b ≡ is_failure (lookup b evidence)
failed_in_lem evidence b = elim (lookup b evidence) [ none ↦ refl | some x ↦ refl ]

pub record IsConsistent (keys : List ℕ) (s : Observed) : Type 0 where
  pub same_keys : keys_of s.evidence ≡ keys
  pub reported :
      (b : OasmAddress) → is_some (lookup b s.exceptions) ≡ is_failure (lookup b s.evidence)

alive : (x : BoardExecutionState) → is_terminal x ≡ false → is_device_failed x ≡ false
unfolding is_terminal
alive not_dispatched h = refl
alive loader_submitted h = refl
alive launch_submitted h = refl
alive succeeded h = refl
alive device_failed h = cc

pub Step-IsConsistent :
    (keys : List ℕ) (s s' : Observed) → IsConsistent keys s → Step s s' → IsConsistent keys s'
Step-IsConsistent keys s s' c (noted same same_reports) = record {
  same_keys = ap keys_of same ∙ c.same_keys;
  reported = λ b. rw (same, same_reports) (c.reported b);
}
Step-IsConsistent keys s s' c (fails b x r here unfinished written report) = record {
  same_keys = ap keys_of written ∙ keys_of-insert b device_failed x s.evidence here ∙ c.same_keys;
  reported = λ a.
      rw
        (
          written,
          report,
          lookup-insert b a device_failed s.evidence,
          lookup-insert b a r s.exceptions,
        )
        (by_test a);
}
  where
    by_test :
        (a : OasmAddress)
        → is_some (if address_key b == address_key a then some r else lookup a s.exceptions)
          ≡ is_failure
              (if address_key b == address_key a then some device_failed else lookup a s.evidence)
    by_test a = ground (arith, c.reported a)
Step-IsConsistent keys s s' c (succeeds b x here unfinished written same_reports) = record {
  same_keys = ap keys_of written ∙ keys_of-insert b succeeded x s.evidence here ∙ c.same_keys;
  reported = λ a. rw (written, same_reports, lookup-insert b a succeeded s.evidence) (by_test a);
}
  where
    by_test :
        (a : OasmAddress)
        → is_some (lookup a s.exceptions)
          ≡ is_failure
              (if address_key b == address_key a then some succeeded else lookup a s.evidence)
    by_test a = elim (Bool-cases (address_key b == address_key a)) [
      | inl same ↦
          let z : b ≡ a = address_key_inj b a (ground arith) in
          let before : is_some (lookup b s.exceptions) ≡ false =
            c.reported b ∙ rw here (alive x unfinished) in
          rw (same, ← z) before
      | inr other ↦ rw other (c.reported a)
    ]

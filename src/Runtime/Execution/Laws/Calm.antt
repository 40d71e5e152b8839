-- ===== src/Runtime/Execution/Laws/Calm.antt =====
-- The lookups `evidence[&board]` of the source do not panic where the evidence has an entry for the
-- board of each endpoint.
use catseq.Prelude.{
  ℕ, ◌==◌, ◌≡◌, ◌≢◌, refl, arith, Bool, true, false, List, [], ◌∷◌, some, Option-cases, Bool-cases,
  inl, inr, Result, err, All, some_inj, ap, sym, ◌∙◌,
}
use catseq.Prelude.Map.{lookup, contains, keys_of, lookup-contains}
use catseq.Runtime.Address.{OasmAddress, address_key, address_keys}
use catseq.Runtime.Contract.{BoardEndpoint, endpoint_keys}
use catseq.Runtime.Rtlink.{RtlinkFrame}
use catseq.Runtime.Execution.Outcome.{BoardExecutionState, is_terminal, is_succeeded}
use catseq.Runtime.Execution.Prepare.{download_flag}
use catseq.Runtime.Execution.Monitor.{
  Observed, Violation, missing_board, apply_frame, apply_download, apply_operation, apply_data,
  for_board, board_for_node, operation_tag,
}

abbrev pub Covered : List ℕ → List BoardEndpoint → Type 0
Covered keys endpoints = All (λ k. contains k keys ≡ true) (endpoint_keys endpoints)

found_board :
    (keys : List ℕ) (endpoints : List BoardEndpoint) (node : ℕ) (b : OasmAddress)
    → Covered keys endpoints
    → board_for_node endpoints node ≡ some b
    → contains (address_key b) keys ≡ true
unfolding board_for_node
found_board keys [] node b covered e = cc
found_board keys (endpoint ∷ rest) node b (c, cs) e = elim (Bool-cases (endpoint.node == node)) [
  | inl here ↦ rw (← some_inj (rw here at e)) c
  | inr later ↦ found_board keys rest node b cs (rw later at e)
]

abbrev is_missing : Result Violation Observed → Bool
is_missing (err missing_board) = true
is_missing _ = false

module _ (b : OasmAddress) (s : Observed) (x : BoardExecutionState)
    (here : lookup b s.evidence ≡ some x) where
  download_calm : (info value : ℕ) → is_missing (apply_download b info value s) ≡ false
  unfolding apply_download
  download_calm info value = rw here (elim (Bool-cases (info == 1)) [
    | inl one ↦ rw one (elim (Bool-cases (is_terminal x)) [ inl t ↦ rw t refl | inr t ↦ rw t refl ])
    | inr more ↦ rw more (elim (Bool-cases (info == 0)) [
      | inl failure ↦
          rw failure (elim (Bool-cases (is_succeeded x)) [ inl t ↦ rw t refl | inr t ↦ rw t refl ])
      | inr other ↦ rw other refl
    ])
  ])

  data_calm : (words : ℕ × ℕ) → is_missing (apply_data b words s) ≡ false
  unfolding apply_data
  data_calm (first, second) =
      rw here (elim (Bool-cases (is_terminal x)) [ inl t ↦ rw t refl | inr t ↦ rw t refl ])

  operation_calm :
      (arguments : ℕ) (words : ℕ × ℕ) → is_missing (apply_operation b arguments words s) ≡ false
  unfolding apply_operation
  operation_calm arguments (first, second) = ground (arith, here)

for_board_calm :
    (s : Observed) (endpoints : List BoardEndpoint) (node : ℕ)
    (act : OasmAddress → Result Violation Observed)
    → Covered (keys_of s.evidence) endpoints
    → ((b : OasmAddress) (x : BoardExecutionState)
        → lookup b s.evidence ≡ some x
        → is_missing (act b) ≡ false)
    → is_missing (for_board (board_for_node endpoints node) s act) ≡ false
for_board_calm s endpoints node act covered h =
    elim (Option-cases (board_for_node endpoints node)) [
      | inl nobody ↦ rw nobody refl
      | inr (b, e) ↦
          let (x, here) =
            lookup-contains b s.evidence
              (found_board (keys_of s.evidence) endpoints node b covered e) in
          rw e (h b x here)
    ]

frame_calm :
    (endpoints : List BoardEndpoint) (frame : RtlinkFrame) (s : Observed)
    → Covered (keys_of s.evidence) endpoints
    → is_missing (apply_frame endpoints frame s) ≡ false
unfolding apply_frame
frame_calm endpoints frame s covered = elim (Bool-cases (frame.flag == download_flag)) [
  | inl download ↦
      rw download (for_board_calm s endpoints _ _ covered (λ b x e. download_calm b s x e _ _))
  | inr other ↦ elim (Bool-cases (frame.tag == operation_tag)) [
    | inl operation ↦
        rw (other, operation)
          (for_board_calm s endpoints _ _ covered (λ b x e. operation_calm b s x e _ _))
    | inr plain ↦
        rw (other, plain) (for_board_calm s endpoints _ _ covered (λ b x e. data_calm b s x e _))
  ]
]

pub apply_frame_calm :
    (endpoints : List BoardEndpoint) (frame : RtlinkFrame) (s : Observed)
    → Covered (keys_of s.evidence) endpoints
    → apply_frame endpoints frame s ≢ err missing_board
apply_frame_calm endpoints frame s covered e =
    clash (sym (ap is_missing e) ∙ frame_calm endpoints frame s covered)
  where
    clash : true ≡ false → ⊥
    clash q = cc

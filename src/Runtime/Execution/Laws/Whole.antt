-- ===== src/Runtime/Execution/Laws/Whole.antt =====
-- A whole run: its report is sound, and it returns.
use catseq.Prelude.{
  Bool, ℕ, suc, ◌≡◌, ◌≢◌, refl, Option, none, some, List, [], Result, ok, err, Bool-cases, inl, inr,
}
use catseq.Prelude.Map.{keys_of, Distinct, contains}
use mathlib.Core.Path.{subst}
use catseq.Runtime.Execution.Laws.Calm.{Covered}
use catseq.Runtime.Contract.{board_keys}
use catseq.Prelude.{All, All-map, ◌≤◌, zero, ◌∙◌, arith}
use catseq.Runtime.Execution.Dispatch.{dispatch}
use catseq.Runtime.Contract.{endpoint_keys}
use catseq.Runtime.Address.{address_key, address_keys}
use catseq.Runtime.Contract.{AssembledOasmProgram, LinuxRawEthernetRuntimeConfig}
use catseq.Runtime.Transport.{Transport, TransportEnvelope, TransportError}
use catseq.Runtime.Execution.Outcome.{
  RuntimeSuccess, transport_open_failed, topology_invalid, Evidence,
}
use catseq.Runtime.Execution.Prepare.{Stop, PreparedBoard, prepare}
use catseq.Runtime.Execution.Monitor.{Outcome, monitor}
use catseq.Runtime.Execution.Run.{
  initial_evidence, observed_from, closing, monitored, opened_with, with_prepared, run_opened,
  execute_with_transport,
}
use catseq.Runtime.Execution.Laws.Sending.{
  IsFresh, SoundFailure, StopsSoundly, fresh_failure, dispatch_sound, prepare_sound,
  prepare-Covered, prepare-All, HasEntry, HoldsWords,
}
use catseq.Runtime.Execution.Laws.Loop.{IsSound, monitor-IsSound}
use catseq.Runtime.Execution.Laws.Ends.{FallsQuiet, FallsQuiet-le, monitor-Returns}
use catseq.Runtime.Execution.Laws.Entries.{
  IsStrict, IsStrict-Distinct, evidence_of-IsStrict, evidence_of-contains, initial-IsFresh,
  own_keys, not_empty,
}

module _ (T : Transport) (program : AssembledOasmProgram) (config : LinuxRawEthernetRuntimeConfig)
    (retries fuel : ℕ) where
  open T use {Port, open_port, close, receive}

  abbrev keys : List ℕ
  keys = keys_of (initial_evidence program)

  -- What is known of a run that returns.
  abbrev Sound : Outcome T → Type 0
  Sound none = Unit
  Sound (some (outcome, port)) = IsSound keys outcome

  each_outcome :
      (o : Outcome T)
      → ((outcome : Result Stop RuntimeSuccess) (port : Port)
          → o ≡ some (outcome, port)
          → IsSound keys outcome)
      → Sound o
  each_outcome none h = tt
  each_outcome (some (outcome, port)) h = h outcome port refl

  closing-Sound : (o : Outcome T) → Sound o → Sound (closing T program config retries fuel o)
  closing-Sound none h = tt
  closing-Sound (some (outcome, port)) h = h

  distinct : Distinct keys
  distinct = IsStrict-Distinct keys (evidence_of-IsStrict program.boards)

  Covered-keys : Covered (board_keys program.boards) config.boards → Covered keys config.boards
  Covered-keys h =
      All-map (λ k p. evidence_of-contains program.boards k ∙ p) (endpoint_keys config.boards) h

  -- The boards that were prepared have entries.
  abbrev Owned : List PreparedBoard → Type 0
  Owned = All (λ board. HasEntry keys board.address)

  program-Owned : All (λ board. HasEntry keys board.address) program.boards
  program-Owned =
      All-map (λ board p. evidence_of-contains program.boards (address_key board.address) ∙ p)
        program.boards (own_keys program.boards)

  module _ (some_board : keys ≢ []) where
    monitored-Sound :
        (covered : Covered keys config.boards) (envelope : TransportEnvelope) (evidence : Evidence)
        (port : Port) (failure : Option Stop)
        → IsFresh keys evidence
        → SoundFailure keys failure
        → Sound (monitored T program config retries fuel envelope evidence port failure)
    monitored-Sound covered envelope evidence port (some f) c h = h
    monitored-Sound covered envelope evidence port none c h =
        each_outcome (monitor program config envelope T fuel (observed_from evidence) port)
          λ outcome port' e.
            monitor-IsSound program config envelope keys covered T fuel (observed_from evidence)
              port port' outcome c distinct some_board e

    run_opened-Sound :
        (covered : Covered keys config.boards) (prepared : List PreparedBoard)
        (envelope : TransportEnvelope) (port : Port)
        → Owned prepared
        → Sound (run_opened T program config retries fuel prepared envelope port)
    unfolding run_opened
    run_opened-Sound covered prepared envelope port owned =
        let (c, h) =
          dispatch_sound keys T envelope retries prepared owned (initial_evidence program) port
            (initial-IsFresh program) in
        closing-Sound _ (monitored-Sound covered envelope _ _ _ c h)

    opened_with-Sound :
        (covered : Covered keys config.boards) (prepared : List PreparedBoard)
        (answer : Result TransportError TransportEnvelope) (port : Port)
        → Owned prepared
        → Sound (opened_with T program config retries fuel prepared answer port)
    opened_with-Sound covered prepared (err e) port owned =
        fresh_failure keys (initial_evidence program) transport_open_failed
          (initial-IsFresh program) refl
    opened_with-Sound covered prepared (ok envelope) port owned =
        run_opened-Sound covered prepared envelope port owned

    with_prepared-Sound :
        (clock_fits : ℕ → Bool) (prepared : Result Stop (List PreparedBoard)) (port : Port)
        → StopsSoundly keys prepared
        → ((boards : List PreparedBoard)
            → prepared ≡ ok boards
            → Covered keys config.boards × Owned boards)
        → Sound (with_prepared T program config retries fuel clock_fits prepared port)
    with_prepared-Sound clock_fits (err stop) port h known = h
    with_prepared-Sound clock_fits (ok prepared) port h known =
        let (covered, owned) = known prepared refl in
        elim (Bool-cases (clock_fits config.timeout_ms)) [
          | inl fits ↦
              rw fits
                (opened_with-Sound covered prepared (open_port port).0 (open_port port).1 owned)
          | inr late ↦ rw late (
              fresh_failure keys (initial_evidence program) topology_invalid
                (initial-IsFresh program) refl)
        ]

    returned-IsSound :
        (clock_fits : ℕ → Bool) (port port' : Port) (outcome : Result Stop RuntimeSuccess)
        → All HoldsWords program.boards
        → execute_with_transport T program config retries fuel clock_fits port
          ≡ some (outcome, port')
        → IsSound keys outcome
    unfolding execute_with_transport
    returned-IsSound clock_fits port port' outcome words e =
        let m = initial_evidence program in
        subst Sound e (
          with_prepared-Sound clock_fits (prepare m [] program config) port
            (prepare_sound keys m (initial-IsFresh program) program config words)
            (λ boards e. (
              Covered-keys (prepare-Covered m program config boards e),
              prepare-All (HasEntry keys) m program config boards program-Owned e,
            )))

  -- A run that returns, of one board at least and with words of 32 bits: it has not panicked. Its
  -- report has an entry for exactly the boards of the program, in the ascending order of their
  -- addresses, each once; a success shows each of them as succeeded; a failure by a timeout or on
  -- receiving shows one at least that has not ended; and the report passes its own `validate`.
  pub execute-IsSound :
      (clock_fits : ℕ → Bool) (port port' : Port) (outcome : Result Stop RuntimeSuccess)
      → program.boards ≢ []
      → All HoldsWords program.boards
      → execute_with_transport T program config retries fuel clock_fits port ≡ some (outcome, port')
      → (names : List ℕ) × IsStrict names
        × ((k : ℕ) → contains k names ≡ contains k (board_keys program.boards))
        × IsSound names outcome
  execute-IsSound clock_fits port port' outcome some_board words e = (
    keys,
    evidence_of-IsStrict program.boards,
    evidence_of-contains program.boards,
    returned-IsSound (not_empty program.boards some_board) clock_fits port port' outcome words e,
  )

module _ (T : Transport) (program : AssembledOasmProgram) (config : LinuxRawEthernetRuntimeConfig)
    (retries : ℕ) (quiet : (port : T.Port) → (n : ℕ) × FallsQuiet T n port) where
  open T use {Port, open_port, receive}

  abbrev Returned : Outcome T → Type 0
  Returned o = (r : Result Stop RuntimeSuccess × Port) × (o ≡ some r)

  -- With some fuel, and with all that is more, a run returns.
  abbrev EndsInTime : (ℕ → Outcome T) → Type 0
  EndsInTime run = (fuel : ℕ) × ((m : ℕ) → fuel ≤ m → Returned (run m))

  at_once : (r : Result Stop RuntimeSuccess × Port) → EndsInTime (λ m. some r)
  at_once r = (0, λ m h. (r, refl))

  monitor_ends :
      (envelope : TransportEnvelope) (evidence : Evidence) (port : Port) (n : ℕ)
      → FallsQuiet T n port
      → (m : ℕ) → suc n ≤ m
      → Returned (monitor program config envelope T m (observed_from evidence) port)
  monitor_ends envelope evidence port n still zero h = absurd (omega arith)
  monitor_ends envelope evidence port n still (suc m) h =
      monitor-Returns program config envelope T m (observed_from evidence) port
        (FallsQuiet-le T n m port (omega arith) still)

  monitored_ends :
      (envelope : TransportEnvelope) (evidence : Evidence) (port : Port) (failure : Option Stop)
      → EndsInTime (λ m. monitored T program config retries m envelope evidence port failure)
  monitored_ends envelope evidence port (some stop) = at_once (err stop, port)
  monitored_ends envelope evidence port none =
      let (n, still) = quiet port in (suc n, monitor_ends envelope evidence port n still)

  closing-Returned :
      (fuel : ℕ) (o : Outcome T) → Returned o → Returned (closing T program config retries fuel o)
  closing-Returned fuel none (r, e) = cc
  closing-Returned fuel (some (outcome, port)) h = (_, refl)

  opened_ends :
      (prepared : List PreparedBoard) (answer : Result TransportError TransportEnvelope)
      (port : Port)
      → EndsInTime (λ m. opened_with T program config retries m prepared answer port)
  unfolding run_opened
  opened_ends prepared (err e) port = at_once (_, port)
  opened_ends prepared (ok envelope) port =
      let sent = dispatch T envelope retries [] prepared (initial_evidence program) port in
      let (fuel, run) = monitored_ends envelope sent.evidence sent.port sent.failure in
      (fuel, λ m h. closing-Returned m _ (run m h))

  prepared_ends :
      (clock_fits : ℕ → Bool) (prepared : Result Stop (List PreparedBoard)) (port : Port)
      → EndsInTime (λ m. with_prepared T program config retries m clock_fits prepared port)
  prepared_ends clock_fits (err stop) port = at_once (err stop, port)
  prepared_ends clock_fits (ok prepared) port =
      let (fuel, run) = opened_ends prepared (open_port port).0 (open_port port).1 in
      (
        fuel,
        λ m h. elim (Bool-cases (clock_fits config.timeout_ms)) [
          | inl fits ↦ rw fits (run m h)
          | inr late ↦ rw late (_, refl)
        ],
      )

  -- Where the transport, from each of its states, receives finitely many packets before a timeout or
  -- an error, a run of one board at least, with words of 32 bits, returns with some fuel and with
  -- all that is more; not by a panic, but with a report on exactly the boards of the program, in the
  -- ascending order of their addresses, which passes its own `validate`: a success shows each as
  -- succeeded, a failure by a timeout or on receiving one at least that has not ended.
  pub execute-returns :
      (clock_fits : ℕ → Bool) (port : Port)
      → program.boards ≢ []
      → All HoldsWords program.boards
      → (fuel : ℕ) × ((m : ℕ)
          → fuel ≤ m
          → (outcome : Result Stop RuntimeSuccess) × (port' : Port) × (execute_with_transport T
                program config retries m clock_fits port
              ≡ some (outcome, port'))
            × (names : List ℕ) × IsStrict names
            × ((k : ℕ) → contains k names ≡ contains k (board_keys program.boards))
            × IsSound names outcome)
  unfolding execute_with_transport
  execute-returns clock_fits port some_board words =
      let (fuel, run) =
        prepared_ends clock_fits (prepare (initial_evidence program) [] program config) port in
      (
        fuel,
        λ m h.
            let ((outcome, port'), e) = run m h in
            let (names, strict, same, sound) =
              execute-IsSound T program config retries m clock_fits port port' outcome some_board
                words e in
            (outcome, port', e, names, strict, same, sound),
      )

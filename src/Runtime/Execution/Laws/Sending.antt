-- ===== src/Runtime/Execution/Laws/Sending.antt =====
-- The phases before the loop, `prepare` and `dispatch`: no board fails there, and what stops them is
-- a sound report.
use catseq.Prelude.{
  ℕ, zero, suc, ◌≡◌, refl, Bool, true, false, ◌==◌, Option, none, some, List, [], ◌∷◌, Result, ok,
  err, ◌>>=◌, ap, ◌∙◌, sym, Bool-cases, inl, inr, >>=-eq-ok, ok_inj, ok_or,
}
use catseq.Prelude.Map.{lookup, keys_of, contains}
use mathlib.Core.Path.{subst}
use catseq.Rtmq.Download.{DownloadLoaderConfig, materialize_download_loader}
use catseq.Prelude.{All}
use catseq.Rtmq.Download.Listing.{IsWord, materialize_cases}
use catseq.Runtime.Contract.{board_keys, find_endpoint, validate_runtime_handoff}
use catseq.Runtime.Contract.Handoff.{Served, handoff_cases}
use catseq.Runtime.Execution.Laws.Calm.{Covered}
use catseq.Runtime.Address.{OasmAddress, address_key, address_keys}
use catseq.Runtime.Contract.{
  AssembledOasmBoard, AssembledOasmProgram, BoardEndpoint, LinuxRawEthernetRuntimeConfig,
}
use catseq.Runtime.Rtlink.{encode_word_stream, RtlinkFrame, RtlinkFrameError}
use catseq.Runtime.Transport.{
  Transport, TransportEnvelope, SendRejection, not_accepted, acceptance_unknown,
}
use catseq.Runtime.Execution.Outcome.{
  BoardExecutionState, not_dispatched, loader_submitted, launch_submitted, succeeded, device_failed,
  is_device_failed, Evidence, RuntimeFailureCode, new_failure, transport_send_failed,
}
use catseq.Runtime.Execution.Prepare.{
  download_flag, download_tag, Stop, failed, PreparedFrame, PreparedBoard, prepare, prepare_boards,
  prepare_board, loader_result, frames_result, handoff_result, panicked,
}
use catseq.Runtime.Execution.Dispatch.{
  Sent, advance_submitted, raise_to, submitted_state, send_frame, send_frames, dispatch, settle,
  and_then,
}
use catseq.Runtime.Execution.Run.{observed_from}
use catseq.Runtime.Execution.Laws.Consistent.{IsConsistent, is_failure}
use catseq.Runtime.Execution.Laws.Reports.{failure-valid}
use catseq.Runtime.Execution.Laws.Loop.{IsSound, is_waiting}

raised :
    (x : BoardExecutionState) (launch : Bool)
    → is_device_failed (raise_to (submitted_state launch) x) ≡ is_device_failed x
raised not_dispatched true = refl
raised not_dispatched false = refl
raised loader_submitted true = refl
raised loader_submitted false = refl
raised launch_submitted true = refl
raised launch_submitted false = refl
raised succeeded true = refl
raised succeeded false = refl
raised device_failed true = refl
raised device_failed false = refl

-- Where the board has an entry, the `expect` finds it: the boards stay, and so do the failures.
advance-ok :
    (m : Evidence) (a : OasmAddress) (launch : Bool)
    → contains (address_key a) (keys_of m) ≡ true
    → (n : Evidence) × (advance_submitted m a launch ≡ some n)
      × (keys_of n ≡ keys_of m)
      × ((b : OasmAddress) → is_failure (lookup b n) ≡ is_failure (lookup b m))
unfolding advance_submitted lookup contains
advance-ok [] a launch h = cc
advance-ok ((c, x) ∷ m) a launch h = elim (Bool-cases (address_key c == address_key a)) [
  | inl hit ↦ (
    (c, raise_to (submitted_state launch) x) ∷ m,
    rw (hit, advance_submitted) refl,
    refl,
    λ b. elim (Bool-cases (address_key c == address_key b)) [
      | inl asked ↦ rw asked (raised x launch)
      | inr other ↦ rw other refl
    ],
  )
  | inr miss ↦
      let (n, e, same, failures) = advance-ok m a launch (rw miss at h) in
      (
        (c, x) ∷ n,
        rw (miss, e, advance_submitted) refl,
        ap (λ ks. address_key c ∷ ks) same,
        λ b. elim (Bool-cases (address_key c == address_key b)) [
          | inl asked ↦ rw asked refl
          | inr other ↦ rw other (failures b)
        ],
      )
]

-- The words of a board are 32-bit words.
abbrev pub HoldsWords : AssembledOasmBoard → Type 0
HoldsWords board = All IsWord board.ich_words × IsWord board.exception_handler_word

-- Evidence as it is before any board has reported.
abbrev pub IsFresh : List ℕ → Evidence → Type 0
IsFresh keys evidence = IsConsistent keys (observed_from evidence)

module _ (keys : List ℕ) where
  -- A board that has an entry in the evidence.
  abbrev pub HasEntry : OasmAddress → Type 0
  HasEntry a = contains (address_key a) keys ≡ true

  advance-IsFresh :
      (m : Evidence) (a : OasmAddress) (launch : Bool)
      → HasEntry a
      → IsFresh keys m
      → (n : Evidence) × (advance_submitted m a launch ≡ some n) × IsFresh keys n
  advance-IsFresh m a launch own c =
      let (n, e, same, failures) =
        advance-ok m a launch (ap (contains (address_key a)) c.same_keys ∙ own) in
      (
        n,
        e,
        record { same_keys = same ∙ c.same_keys; reported = λ b. c.reported b ∙ sym (failures b) },
      )

  pub fresh_failure :
      (m : Evidence) (code : RuntimeFailureCode)
      → IsFresh keys m
      → is_waiting code ≡ false
      → IsSound keys (err (failed (new_failure code m [])))
  unfolding new_failure
  fresh_failure m code c h = (c.same_keys, failure-valid keys (observed_from m) c code, rw h refl)

  abbrev pub SoundFailure : Option Stop → Type 0
  SoundFailure none = Unit
  SoundFailure (some stop) = IsSound keys (err stop)

  module _ (T : Transport) (envelope : TransportEnvelope) (retries : ℕ) where
    open T use {Port, send}

    abbrev pub SentSoundly : Sent T → Type 0
    SentSoundly sent = IsFresh keys sent.evidence × SoundFailure sent.failure

    settle_sound :
        (board : OasmAddress) (prepared : PreparedFrame) (m : Evidence) (again : Port → Sent T)
        (answer : Result SendRejection (Unit {0})) (port : Port)
        → HasEntry board
        → IsFresh keys m
        → SentSoundly (again port)
        → SentSoundly (settle T envelope retries [] board prepared m again answer port)
    unfolding advance_submitted
    settle_sound board prepared m again (ok u) port own c h =
        let (n, e, fresh) = advance-IsFresh m board prepared.launch_bearing own c in
        rw e (fresh, tt)
    settle_sound board prepared m again (err not_accepted) port own c h = h
    settle_sound board prepared m again (err acceptance_unknown) port own c h =
        let (n, e, fresh) = advance-IsFresh m board prepared.launch_bearing own c in
        rw e (fresh, fresh_failure _ transport_send_failed fresh refl)

    send_frame_sound :
        (left : ℕ) (board : OasmAddress) (prepared : PreparedFrame) (m : Evidence) (port : Port)
        → HasEntry board
        → IsFresh keys m
        → SentSoundly (send_frame T envelope retries [] left board prepared m port)
    unfolding send_frame
    send_frame_sound zero board prepared m port own c =
        settle_sound board prepared m _ _ _ own c (c, fresh_failure m transport_send_failed c refl)
    send_frame_sound (suc left) board prepared m port own c =
        settle_sound board prepared m _ _ _ own c (send_frame_sound left board prepared m _ own c)

    and_then_sound :
        (sent : Sent T) (next : Evidence → Port → Sent T)
        → SentSoundly sent
        → ((m : Evidence) (port : Port) → IsFresh keys m → SentSoundly (next m port))
        → SentSoundly (and_then T sent next)
    and_then_sound sent next (c, f) h = by_failure sent.failure refl
      where
        by_failure :
            (o : Option Stop)
            → sent.failure ≡ o
            → SentSoundly (elim o [ none ↦ next sent.evidence sent.port | some f ↦ sent ])
        by_failure none e = h sent.evidence sent.port c
        by_failure (some x) e = (c, f)

    send_frames_sound :
        (board : OasmAddress)
        → HasEntry board
        → (frames : List PreparedFrame) (m : Evidence) (port : Port) → IsFresh keys m
        → SentSoundly (send_frames T envelope retries [] board frames m port)
    unfolding send_frames
    send_frames_sound board own [] m port c = (c, tt)
    send_frames_sound board own (frame ∷ rest) m port c =
        and_then_sound _ (send_frames T envelope retries [] board rest)
          (send_frame_sound retries board frame m port own c) (send_frames_sound board own rest)

    pub dispatch_sound :
        (boards : List PreparedBoard)
        → All (λ board. HasEntry board.address) boards
        → (m : Evidence) (port : Port) → IsFresh keys m
        → SentSoundly (dispatch T envelope retries [] boards m port)
    unfolding dispatch
    dispatch_sound [] owned m port c = (c, tt)
    dispatch_sound (board ∷ rest) (own, owned) m port c =
        and_then_sound _ (dispatch T envelope retries [] rest)
          (send_frames_sound board.address own board.frames m port c) (dispatch_sound rest owned)

  -- A step of the preparation that yields a value, or stops with a sound report.
  abbrev pub StopsSoundly {ℓ} : {A : Type ℓ} → Result Stop A → Type 0
  StopsSoundly (ok a) = Unit
  StopsSoundly (err stop) = IsSound keys (err stop)

  chain_sound {ℓ κ} :
      {A : Type ℓ} {B : Type κ} (r : Result Stop A) (f : A → Result Stop B)
      → StopsSoundly r
      → ((a : A) → StopsSoundly (f a))
      → StopsSoundly (r >>= f)
  chain_sound (ok a) f h k = k a
  chain_sound (err stop) f h k = h

  module _ (m : Evidence) (c : IsFresh keys m) where
    frames_sound :
        (r : Result RtlinkFrameError (List RtlinkFrame)) → StopsSoundly (frames_result m [] r)
    frames_sound (ok frames) = tt
    frames_sound (err e) = fresh_failure m _ c refl

    loader_sound :
        (ich : List ℕ) (settings : DownloadLoaderConfig)
        → All IsWord ich
        → IsWord settings.exception_handler_word
        → StopsSoundly (loader_result m [] (materialize_download_loader ich settings))
    loader_sound ich settings words handler = elim (materialize_cases ich settings words handler) [
      | inl (fits, space, e) ↦ rw e tt
      | inr (inl (big, e)) ↦ rw e (fresh_failure m _ c refl)
      | inr (inr (fits, big, e)) ↦ rw e (fresh_failure m _ c refl)
    ]

    prepare_board_sound :
        (endpoints : List BoardEndpoint) (board : AssembledOasmBoard)
        → Served endpoints board
        → HoldsWords board
        → StopsSoundly (prepare_board m [] endpoints board)
    unfolding prepare_board
    prepare_board_sound endpoints board (endpoint, found, fits) (words, handler) =
        let settings : DownloadLoaderConfig = record {
          instruction_capacity_words = endpoint.instruction_capacity_words;
          exception_handler_word = board.exception_handler_word;
        } in
        rw found (
          chain_sound (loader_result m [] (materialize_download_loader board.ich_words settings)) _
            (loader_sound board.ich_words settings words handler)
            λ loader.
              chain_sound
                (frames_result m [] (
                  encode_word_stream download_flag endpoint.channel endpoint.node download_tag
                    loader.words))
                _ (frames_sound _) λ frames. tt)

    prepare_boards_sound :
        (endpoints : List BoardEndpoint) (boards : List AssembledOasmBoard)
        → All (Served endpoints) boards
        → All HoldsWords boards
        → StopsSoundly (prepare_boards m [] endpoints boards)
    unfolding prepare_boards
    prepare_boards_sound endpoints [] served words = tt
    prepare_boards_sound endpoints (board ∷ rest) (served, others) (words, more) =
        chain_sound (prepare_board m [] endpoints board) _
          (prepare_board_sound endpoints board served words)
          λ prepared.
            chain_sound (prepare_boards m [] endpoints rest) _
              (prepare_boards_sound endpoints rest others more) λ frames. tt

    pub prepare_sound :
        (program : AssembledOasmProgram) (config : LinuxRawEthernetRuntimeConfig)
        → All HoldsWords program.boards
        → StopsSoundly (prepare m [] program config)
    unfolding prepare
    prepare_sound program config words = elim (handoff_cases program config) [
      | inl (e, v) ↦ rw e (prepare_boards_sound config.boards program.boards v.served words)
      | inr (code, e, n) ↦ rw e (fresh_failure m _ c refl)
    ]

-- A preparation that succeeds has checked that each endpoint belongs to a board.
pub prepare-Covered :
    (m : Evidence) (program : AssembledOasmProgram) (config : LinuxRawEthernetRuntimeConfig)
    (prepared : List PreparedBoard)
    → prepare m [] program config ≡ ok prepared
    → Covered (board_keys program.boards) config.boards
unfolding prepare
prepare-Covered m program config prepared h = elim (handoff_cases program config) [
  | inl (e, v) ↦ v.used
  | inr (code, e, n) ↦ absurd (clash (rw e at h))
]
  where
    clash : {stop : Stop} → ◌≡◌ {A = Result Stop (List PreparedBoard)} (err stop) (ok prepared) → ⊥
    clash q = cc

prepare_board-address :
    (m : Evidence) (endpoints : List BoardEndpoint) (board : AssembledOasmBoard)
    (prepared : PreparedBoard)
    → prepare_board m [] endpoints board ≡ ok prepared
    → prepared.address ≡ board.address
unfolding prepare_board
prepare_board-address m endpoints board prepared h =
    let (endpoint, e1, h1) =
      >>=-eq-ok (ok_or (find_endpoint board.address endpoints) panicked) _ h in
    let settings : DownloadLoaderConfig = record {
      instruction_capacity_words = endpoint.instruction_capacity_words;
      exception_handler_word = board.exception_handler_word;
    } in
    let (loader, e2, h2) =
      >>=-eq-ok (loader_result m [] (materialize_download_loader board.ich_words settings)) _ h1 in
    let (frames, e3, h3) =
      >>=-eq-ok
        (frames_result m [] (
          encode_word_stream download_flag endpoint.channel endpoint.node download_tag
            loader.words))
        _ h2 in
    ap (λ (p : PreparedBoard). p.address) (sym (ok_inj h3))

prepare_boards-All :
    (P : OasmAddress → Type 0) (m : Evidence) (endpoints : List BoardEndpoint)
    (boards : List AssembledOasmBoard) (prepared : List PreparedBoard)
    → All (λ board. P board.address) boards
    → prepare_boards m [] endpoints boards ≡ ok prepared
    → All (λ board. P board.address) prepared
unfolding prepare_boards
prepare_boards-All P m endpoints [] prepared h e =
    subst (All (λ board. P board.address)) (ok_inj e) tt
prepare_boards-All P m endpoints (board ∷ rest) prepared (p, h) e =
    let (first, e1, e2) = >>=-eq-ok (prepare_board m [] endpoints board) _ e in
    let (others, e3, e4) = >>=-eq-ok (prepare_boards m [] endpoints rest) _ e2 in
    subst (All (λ board. P board.address)) (ok_inj e4) (
      subst P (sym (prepare_board-address m endpoints board first e1)) p,
      prepare_boards-All P m endpoints rest others h e3,
    )

-- The boards that a preparation gives have the addresses of the program's.
pub prepare-All :
    (P : OasmAddress → Type 0) (m : Evidence) (program : AssembledOasmProgram)
    (config : LinuxRawEthernetRuntimeConfig) (prepared : List PreparedBoard)
    → All (λ board. P board.address) program.boards
    → prepare m [] program config ≡ ok prepared
    → All (λ board. P board.address) prepared
unfolding prepare
prepare-All P m program config prepared h e =
    let (u, e1, e2) =
      >>=-eq-ok (handoff_result m [] (validate_runtime_handoff program config)) _ e in
    prepare_boards-All P m config.boards program.boards prepared h e2

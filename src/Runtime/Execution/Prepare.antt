-- ===== src/Runtime/Execution/Prepare.antt =====
-- rust/catseq-runtime/src/execution.rs, `prepare`: the frames of every board, before any is sent.
use catseq.Prelude.{
  ℕ, ◌+◌, ◌*◌, Bool, ltb, List, [], ◌∷◌, Option, none, some, Result, ok, err, ◌>>=◌, ◌>>◌, ok_or,
}
use catseq.Rtmq.Download.{
  DownloadLoaderError, program_too_large, panic, DownloadLoader, materialize_download_loader,
}
use catseq.Runtime.Address.{OasmAddress}
use catseq.Runtime.Contract.{
  AssembledOasmBoard, AssembledOasmProgram, BoardEndpoint, LinuxRawEthernetRuntimeConfig, Checked,
  find_endpoint, validate_runtime_handoff,
}
use catseq.Runtime.Rtlink.{RtlinkFrame, RtlinkFrameError, encode_word_stream}
use catseq.Runtime.Execution.Outcome.{
  Evidence, Exceptions, RuntimeFailure, RuntimeFailureCode, topology_invalid, program_invalid,
  new_failure,
}

abbrev pub download_flag : ℕ
download_flag = 4

abbrev pub download_tag : ℕ
download_tag = 0

pub record PreparedFrame : Type 0 where
  pub frame : RtlinkFrame
  pub launch_bearing : Bool

pub record PreparedBoard : Type 0 where
  pub address : OasmAddress
  pub frames : List PreparedFrame

-- What ends a phase early: a reported failure, or a panic of the source.
pub data Stop : Type 0 where
  failed : RuntimeFailure → Stop
  panicked : Stop

-- The frames from the index on; a frame carries the words 2 * index and 2 * index + 1.
unfoldable pub mark_frames : ℕ → ℕ → List RtlinkFrame → List PreparedFrame
mark_frames launch_start index [] = []
mark_frames launch_start index (frame ∷ rest) =
    record { frame = frame; launch_bearing = ltb launch_start (index * 2 + 2) }
    ∷ mark_frames launch_start (index + 1) rest

module _ (evidence : Evidence) (exceptions : Exceptions) where
  abbrev stop_with : RuntimeFailureCode → Stop
  stop_with code = failed (new_failure code evidence exceptions)

  -- The `map_err` on the loader.
  abbrev pub loader_result : Result DownloadLoaderError DownloadLoader → Result Stop DownloadLoader
  loader_result (ok loader) = ok loader
  loader_result (err (program_too_large words capacity)) = err (stop_with topology_invalid)
  loader_result (err panic) = err panicked

  -- The `map_err` on the frames.
  abbrev pub frames_result :
      Result RtlinkFrameError (List RtlinkFrame) → Result Stop (List RtlinkFrame)
  frames_result (ok frames) = ok frames
  frames_result (err e) = err (stop_with program_invalid)

  -- The `map_err` on the handoff check.
  abbrev pub handoff_result : Option (Checked (Unit {0})) → Result Stop (Unit {0})
  handoff_result none = err panicked
  handoff_result (some (ok u)) = ok tt
  handoff_result (some (err code)) = err (stop_with topology_invalid)

  unfoldable pub prepare_board : List BoardEndpoint → AssembledOasmBoard → Result Stop PreparedBoard
  prepare_board endpoints board = do
    endpoint ← ok_or (find_endpoint board.address endpoints) panicked
    loader ← loader_result (
        materialize_download_loader board.ich_words (record {
          instruction_capacity_words = endpoint.instruction_capacity_words;
          exception_handler_word = board.exception_handler_word;
        }))
    frames ←
        frames_result (
          encode_word_stream download_flag endpoint.channel endpoint.node download_tag loader.words)
    ok (record { address = board.address; frames = mark_frames loader.launch.0 0 frames })

  -- `collect` into a result: the first failure ends it.
  unfoldable pub prepare_boards :
      List BoardEndpoint → List AssembledOasmBoard → Result Stop (List PreparedBoard)
  prepare_boards endpoints [] = ok []
  prepare_boards endpoints (board ∷ rest) =
      let later = prepare_boards endpoints rest in
      prepare_board endpoints board >>= λ prepared. later >>= λ others. ok (prepared ∷ others)

  unfoldable pub prepare :
      AssembledOasmProgram → LinuxRawEthernetRuntimeConfig → Result Stop (List PreparedBoard)
  prepare program config = do
    handoff_result (validate_runtime_handoff program config)
    prepare_boards config.boards program.boards

-- ===== src/Witnesses.antt =====
-- Concrete inputs: runs of the code as tests, and inputs at which the hypotheses of the theorems
-- hold.
mod Arena
mod Schedule
mod Loops
use catseq.Prelude.{
  Bool, true, ℕ, ◌≡◌, ◌≢◌, refl, arith, List, [], ◌∷◌, Option, none, some, Result, ok, err, All,
}
use catseq.Prelude.Map.{lookup, insert, all_values, contains, all_new}
use catseq.Rtmq.Isa.{opcode_offset, encode_operand, pack_atomic_mask}
use catseq.Rtmq.Download.{
  materialize_download_loader, build_loader, push, push_prologue, push_words, push_word,
  push_launch,
}
use catseq.Runtime.Address.{
  main, rwg0, rwg1, address_keys, from_str, as_str, from_str_iff, RuntimeContractErrorCode,
  mac_overflow,
}
use catseq.Runtime.Contract.{
  AssembledOasmProgram, validate_runtime_handoff, all_contained, check_capacities, find_endpoint,
  new_program, new_config, derive_destination_mac, LinuxRawEthernetRuntimeConfig,
}
use catseq.Runtime.Rtlink
use catseq.Runtime.Rtlink.{
  RtlinkFrame, encode_word_stream, push_frames, new, route, decode_header, decode_fields,
}
use catseq.Runtime.Transport.{Transport, TransportEnvelope, WirePacket, ReceiveError}
use catseq.Runtime.Execution.Outcome.{RuntimeSuccess, not_dispatched, succeeded, is_terminal}
use catseq.Runtime.Execution.Prepare.{Stop, mark_frames, prepare_board, prepare_boards, prepare}
use catseq.Runtime.Execution.Run.{initial_evidence, execute_with_transport, run_opened}
use catseq.Runtime.Execution.Monitor.{
  monitor, observe, finished, apply_frame, apply_operation, board_for_node,
  envelope_is_attributable,
}
use catseq.Runtime.Execution.Dispatch.{
  dispatch, send_frames, send_frame, advance_submitted, outbound_packet,
}
use catseq.Prelude.{length, get_elem?, ◌++◌}
use catseq.Runtime.Bytes.{IsByte, of_be_bytes}
use catseq.Runtime.Rtlink.Stream.{
  stream_delivers, stream_fails_iff, HasHeader, payload_words, padding, HeaderFits,
}
use catseq.Runtime.Rtlink.Exact
use catseq.Runtime.Rtlink.Exact.{decode_cases}
use catseq.Runtime.Rtlink.Wire.{decode-encode_frame}
use catseq.Runtime.Rtlink.Valid.{IsValid}
use catseq.Runtime.Contract.Handoff.{handoff_cases, HandoffIsValid, derive_destination_mac_cases}
use catseq.Runtime.Contract.Construct.{
  new_program_iff, new_config_iff, ProgramIsValid, ConfigIsValid, program_of, config_of,
}
use catseq.Rtmq.Link.{
  RelativeBoardFragment, LinkedBoardFragment, RuntimeValues, event_offset, duration, link_at,
  relocate_all, relocate, write_at, link_events, link_event, number_keys,
}
use catseq.Rtmq.Link.Resolve.{final_offset, final_duration}
use catseq.Rtmq.Link.Place.{link_at-ok, placed}
use catseq.Prelude.{◌⊎◌, ◌↔◌, inl, inr, ◌≤◌, ◌<◌, ◌^◌, map, ◌+◌}
use catseq.Prelude.Map.{Distinct}
use catseq.Rtmq.Isa
use catseq.Rtmq.Isa.{Instruction, atomic_mask, nibble, csr, pause, known}
use catseq.Rtmq.Isa.Wellformed.{IsTyped, Fits, layout}
use catseq.Rtmq.Isa.Encode.{encode_iff}
use catseq.Rtmq.Isa.Decode.{decode-encode}
use catseq.Rtmq.Isa.Exact.{encode-decode}
use catseq.Rtmq.Download.{DownloadLoaderConfig, program_too_large}
use catseq.Rtmq.Download.Listing.{IsWord, loader_of, materialize_cases}
use catseq.Rtmq.Download.Cache.{Cache, run, loader-stores-program}
use catseq.Runtime.Execution.Outcome.{BoardExecutionState, launch_submitted}
use catseq.Runtime.Execution.Monitor.{Observed}
use catseq.Runtime.Contract.{board_keys}
use catseq.Runtime.Execution.Laws.Sending.{HoldsWords}
use catseq.Runtime.Execution.Laws.Loop.{IsSound}
use catseq.Runtime.Execution.Laws.Progress.{Forward, apply_frame-Forward}
use catseq.Runtime.Execution.Laws.Whole.{execute-IsSound, execute-returns}
use catseq.Runtime.Execution.Laws.Entries.{IsStrict}
use catseq.Runtime.Execution.Laws.Ends.{FallsQuiet}

abbrev one_board : AssembledOasmProgram
one_board = record {
  schema_version = 1;
  reply_node = 0;
  reply_channel = 3;
  boards = record { address = main; ich_words = 0x12345678 ∷ []; exception_handler_word = 0 } ∷ [];
}

abbrev one_endpoint : LinuxRawEthernetRuntimeConfig
one_endpoint = record {
  schema_version = 1;
  interface = "eth0";
  destination_mac = none;
  timeout_ms = 100;
  boards = record { address = main; node = 5; channel = 7; instruction_capacity_words = 64 } ∷ [];
}

abbrev local_envelope : TransportEnvelope
local_envelope = record {
  ether_type = 0xface;
  source_mac = 1 ∷ 1 ∷ 1 ∷ 1 ∷ 1 ∷ 1 ∷ [];
  destination_mac = 2 ∷ 2 ∷ 2 ∷ 2 ∷ 2 ∷ 2 ∷ [];
  loopback_marker = 9 ∷ 9 ∷ 9 ∷ 9 ∷ 9 ∷ 9 ∷ 9 ∷ 9 ∷ [];
}

-- The reply by which the board of node 5 reports its success.
abbrev success_frame : RtlinkFrame
success_frame = record { flag = 0; channel = 3; node = 0; tag = 0xffff; payload = (5, 0) }

abbrev success_packet : WirePacket
success_packet = record {
  ether_type = 0xface;
  source_mac = 2 ∷ 2 ∷ 2 ∷ 2 ∷ 2 ∷ 2 ∷ [];
  destination_mac = 1 ∷ 1 ∷ 1 ∷ 1 ∷ 1 ∷ 1 ∷ [];
  loopback_marker = 8 ∷ 8 ∷ 8 ∷ 8 ∷ 8 ∷ 8 ∷ 8 ∷ 8 ∷ [];
  payload = 0 ∷ 0x30 ∷ 0 ∷ 0 ∷ 0xff ∷ 0xff ∷ 0 ∷ 0 ∷ 0 ∷ 5 ∷ 0 ∷ 0 ∷ 0 ∷ 0 ∷ [];
}

-- A transport that accepts every packet and receives those of a list.
abbrev receive_from : List WirePacket → Result ReceiveError (Option WirePacket) × List WirePacket
receive_from [] = (ok none, [])
receive_from (p ∷ ps) = (ok (some p), ps)

abbrev scripted : Transport
scripted = record {
  Port = List WirePacket;
  open_port = λ ps. (ok local_envelope, ps);
  send = λ packet ps. (ok tt, ps);
  receive = receive_from;
  close = λ ps. ps;
}

-- A clock that can represent every deadline.
abbrev any_time : ℕ → Bool
any_time ms = true

success_frame-encode : Rtlink.encode success_frame ≡ success_packet.payload
unfolding Rtlink.encode
success_frame-encode = refl

abbrev success : RuntimeSuccess
success = record { schema_version = 1; board_evidence = (main, succeeded) ∷ []; results = [] }

run_succeeds :
    execute_with_transport scripted one_board one_endpoint 100 3 any_time (success_packet ∷ [])
    ≡ some (ok success, [])
unfolding execute_with_transport run_opened prepare prepare_boards prepare_board mark_frames
    dispatch send_frames send_frame advance_submitted outbound_packet monitor observe finished
    apply_frame apply_operation board_for_node envelope_is_attributable lookup insert all_values
    contains all_new validate_runtime_handoff all_contained check_capacities find_endpoint
    materialize_download_loader build_loader push push_prologue push_words push_word push_launch
    Isa.encode opcode_offset encode_operand pack_atomic_mask encode_word_stream push_frames new
    Rtlink.encode Rtlink.decode route decode_header decode_fields is_terminal
run_succeeds = refl

has_board : one_board.boards ≢ []
has_board e = ground arith

one_board-words : All HoldsWords one_board.boards
one_board-words = (((omega arith, tt), omega arith), tt)

execute-IsSound_example :
    (names : List ℕ) × IsStrict names
    × ((k : ℕ) → contains k names ≡ contains k (0 ∷ []))
    × IsSound names (ok success)
execute-IsSound_example =
    execute-IsSound scripted one_board one_endpoint 100 3 any_time (success_packet ∷ []) []
      (ok success) has_board one_board-words run_succeeds

-- The evidence of two boards is in the order of their addresses, not in that of the program.
evidence_sorted :
    initial_evidence (record one_board {
      boards =
          record { address = rwg1; ich_words = []; exception_handler_word = 0 }
          ∷ record { address = rwg0; ich_words = []; exception_handler_word = 0 }
          ∷ [];
    })
    ≡ (rwg0, not_dispatched) ∷ (rwg1, not_dispatched) ∷ []
evidence_sorted = refl

-- A script of packets falls quiet at its end.
script_ends : (ps : List WirePacket) → FallsQuiet scripted (length ps) ps
script_ends [] = refl
script_ends (p ∷ ps) = inr (script_ends ps)

execute-returns_example :
    (fuel : ℕ) × ((m : ℕ)
      → fuel ≤ m
      → (outcome : Result Stop RuntimeSuccess) × (port : List WirePacket) × (execute_with_transport
            scripted one_board one_endpoint 100 m any_time
            (success_packet ∷ [])
          ≡ some (outcome, port))
        × (names : List ℕ) × IsStrict names
        × ((k : ℕ) → contains k names ≡ contains k (0 ∷ []))
        × IsSound names outcome)
execute-returns_example =
    execute-returns scripted one_board one_endpoint 100 (λ ps. (length ps, script_ends ps)) any_time
      (success_packet ∷ []) has_board one_board-words

abbrev launched : Observed
launched = record {
  evidence = (main, launch_submitted) ∷ [];
  exceptions = [];
  exception_addresses = [];
  results = [];
}

apply_frame-accepted :
    apply_frame one_endpoint.boards success_frame launched
    ≡ ok (record launched { evidence = (main, succeeded) ∷ [] })
unfolding apply_frame apply_operation board_for_node lookup insert
apply_frame-accepted = refl

launched-lookup : lookup main launched.evidence ≡ some launch_submitted
unfolding lookup
launched-lookup = refl

apply_frame-Forward_example :
    (w : BoardExecutionState) × (lookup main (insert main succeeded launched.evidence) ≡ some w)
    × Forward launch_submitted w
unfolding insert
apply_frame-Forward_example =
    apply_frame-Forward one_endpoint.boards success_frame launched
      (record launched { evidence = (main, succeeded) ∷ [] }) main launch_submitted
      apply_frame-accepted launched-lookup

abbrev small_loader : DownloadLoaderConfig
small_loader = record { instruction_capacity_words = 64; exception_handler_word = 1 }

abbrev two_words : List ℕ
two_words = 0x12345678 ∷ 0xdeadbeef ∷ []

abbrev empty_cache : Cache
empty_cache = record { control = 5; address = 77; latch = 5; memory = λ j. 0 }

two_words-IsWord : All IsWord two_words
two_words-IsWord = (omega arith, (omega arith, tt))

two_words_loader : materialize_download_loader two_words small_loader ≡ ok (loader_of two_words 1)
two_words_loader = elim (materialize_cases two_words small_loader two_words-IsWord (omega arith)) [
  | inl (fits, space, e) ↦ e
  | inr (inl (big, e)) ↦ absurd (omega arith)
  | inr (inr (fits, big, e)) ↦ absurd (omega arith)
]

loader-stores-program_example :
    (run (map Isa.decode (loader_of two_words 1).words) empty_cache).memory 1 ≡ 0xdeadbeef
loader-stores-program_example =
    loader-stores-program two_words small_loader (loader_of two_words 1) empty_cache
      two_words-IsWord (omega arith) refl two_words_loader 1

materialize_cases_example :
    ((2 ≤ 64)
      × (2 ≤ 2 ^ 20)
      × (materialize_download_loader two_words small_loader ≡ ok (loader_of two_words 1)))
    ⊎ (((64 < 2)
          × (materialize_download_loader two_words small_loader ≡ err (program_too_large 2 64)))
        ⊎ ((2 ≤ 64)
            × (2 ^ 20 < 2)
            × (materialize_download_loader two_words small_loader
                ≡ err (program_too_large 2 (2 ^ 20)))))
materialize_cases_example = materialize_cases two_words small_loader two_words-IsWord (omega arith)

abbrev sample_mask : Instruction
sample_mask = atomic_mask 3 (nibble 1 2) (csr 4) pause

sample_mask-IsTyped : IsTyped sample_mask
sample_mask-IsTyped = (omega arith, (omega arith, omega arith), omega arith)

sample_mask-encode : Isa.encode sample_mask ≡ ok 0x03f4_1204
unfolding Isa.encode opcode_offset encode_operand pack_atomic_mask
sample_mask-encode = refl

decode-encode_example : Isa.decode 0x03f4_1204 ≡ known sample_mask
decode-encode_example = decode-encode sample_mask 0x03f4_1204 sample_mask-IsTyped sample_mask-encode

encode-decode_example : IsTyped sample_mask × (Isa.encode sample_mask ≡ ok 0x03f4_1204)
encode-decode_example = encode-decode 0x03f4_1204 sample_mask (omega arith) decode-encode_example

encode_iff_example :
    (Isa.encode sample_mask ≡ ok 0x03f4_1204)
    ↔ (Fits sample_mask × (0x03f4_1204 ≡ layout sample_mask))
encode_iff_example = encode_iff sample_mask 0x03f4_1204 sample_mask-IsTyped

stream_delivers_example :
    (frames : List RtlinkFrame) × (encode_word_stream 4 7 5 0 two_words ≡ ok frames)
    × All (HasHeader 4 7 5 0) frames
    × (map Rtlink.decode (map Rtlink.encode frames) ≡ map ok frames)
    × (payload_words frames ≡ two_words ++ padding two_words)
stream_delivers_example =
    stream_delivers 4 7 5 0 two_words (omega arith, omega arith, omega arith) (omega arith)
      two_words-IsWord

stream_fails_iff_example :
    ((e : Rtlink.RtlinkFrameError) × (encode_word_stream 8 7 5 0 two_words ≡ err e))
    ↔ ((two_words ≢ []) × ¬ HeaderFits 8 7 0)
stream_fails_iff_example = stream_fails_iff 8 7 5 0 two_words

payload-IsByte : All IsByte success_packet.payload
payload-IsByte = omega arith

decode_cases_example : Exact.Outcome success_packet.payload
decode_cases_example = decode_cases success_packet.payload payload-IsByte

success_frame-IsValid : IsValid success_frame
success_frame-IsValid = record {
  flag_fits = omega arith;
  channel_fits = omega arith;
  node_fits = omega arith;
  tag_fits = omega arith;
  first_fits = omega arith;
  second_fits = omega arith;
}

decode-encode_frame_example :
    (length (Rtlink.encode success_frame) ≡ 14)
    × All IsByte (Rtlink.encode success_frame)
    × (Rtlink.decode (Rtlink.encode success_frame) ≡ ok success_frame)
decode-encode_frame_example = decode-encode_frame success_frame success_frame-IsValid

handoff_cases_example :
    ((validate_runtime_handoff one_board one_endpoint ≡ some (ok tt))
      × HandoffIsValid one_board one_endpoint)
    ⊎ ((code : RuntimeContractErrorCode) × (validate_runtime_handoff one_board one_endpoint
          ≡ some (err code))
        × ¬ HandoffIsValid one_board one_endpoint)
handoff_cases_example = handoff_cases one_board one_endpoint

derive_destination_mac_cases_example :
    ((destination : List ℕ) × (derive_destination_mac local_envelope.source_mac ≡ ok destination)
      × (length destination ≡ 6)
      × All IsByte destination
      × (of_be_bytes destination ≡ of_be_bytes local_envelope.source_mac + 2))
    ⊎ ((derive_destination_mac local_envelope.source_mac ≡ err mac_overflow)
        × (2 ^ 48 ≤ of_be_bytes local_envelope.source_mac + 2))
derive_destination_mac_cases_example =
    derive_destination_mac_cases local_envelope.source_mac refl (omega arith)

new_program_iff_example :
    (new_program 1 0 3 one_board.boards ≡ ok one_board)
    ↔ (ProgramIsValid 1 3 one_board.boards × (one_board ≡ program_of 1 0 3 one_board.boards))
new_program_iff_example = new_program_iff 1 0 3 one_board.boards one_board

new_config_iff_example : (new_config 1 "eth0" none 100 one_endpoint.boards ≡ ok one_endpoint) ↔ (
    ConfigIsValid 1 "eth0" 100 one_endpoint.boards
    × (one_endpoint ≡ config_of 1 "eth0" none 100 one_endpoint.boards))
new_config_iff_example = new_config_iff 1 "eth0" none 100 one_endpoint.boards one_endpoint

from_str_iff_example : (from_str "rwg0" ≡ ok rwg0) ↔ (as_str rwg0 ≡ "rwg0")
from_str_iff_example = from_str_iff "rwg0" rwg0

-- Two events, the second of them placed by a value of the scan point, and then again by another.
abbrev scanned : RelativeBoardFragment
scanned = record {
  board = 4;
  duration_cycles = 50;
  events =
      record { offset_cycles = 10; operation_id = 1 }
      ∷ record { offset_cycles = 20; operation_id = 2 }
      ∷ [];
  time_relocations =
      record { target = event_offset 1; runtime_value = 8 }
      ∷ record { target = duration; runtime_value = 9 }
      ∷ record { target = event_offset 1; runtime_value = 9 }
      ∷ [];
}

abbrev scan_point : RuntimeValues
scan_point = (8, 70) ∷ (9, 90) ∷ []

abbrev linked : LinkedBoardFragment
linked = record {
  board = 4;
  duration_cycles = 90;
  events =
      record { timestamp_cycles = 1010; operation_id = 1 }
      ∷ record { timestamp_cycles = 1090; operation_id = 2 }
      ∷ [];
}

scanned-linked : link_at scanned 1000 scan_point ≡ ok linked
unfolding link_at relocate_all relocate write_at link_events link_event lookup
scanned-linked = refl

link_at-ok_example :
    (linked.board ≡ scanned.board)
    × (linked.duration_cycles ≡ final_duration scan_point scanned.time_relocations 50)
    × (length linked.events ≡ length scanned.events)
    × (get_elem? linked.events 1
        ≡ some (
            placed 1000
              (record { offset_cycles = 20; operation_id = 2 })
              (final_offset scan_point scanned.time_relocations 1 20)))
    × (1000 + final_offset scan_point scanned.time_relocations 1 20 < 2 ^ 64)
link_at-ok_example =
    link_at-ok scanned 1000 scan_point linked 1 (record { offset_cycles = 20; operation_id = 2 })
      scanned-linked refl

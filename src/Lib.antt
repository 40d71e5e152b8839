-- ===== src/Lib.antt =====
-- CatSeq compiles experiment sequences to programs for RTMQ boards and runs them. This library is
-- about the store that sequences are built in, the scheduler that makes the calls of a board from
-- its events, and the part between the compiled words and the hardware: the instruction set, the
-- loader that brings a program into a board, the link step, the frames of the wire and the runtime
-- that sends them and watches the boards.
--
-- The parts and their files:
--   Core/Arena: rust/catseq-core/src/arena.rs, the store of nodes, templates and instances that
--     threads share behind a lock. An operation is a function of the state under one lock;
--     `compose` and `append_raw` take the store they check in one section and the store they append
--     to in a later one. Steps is the relation
--     of the sections of all threads in any order, where what is appended was checked in an earlier
--     store; Wellformed states the invariant; Preserve and Descent are about the stores that steps
--     lead to. Walk is `reachable_stats` of `FrozenProgram`. `add_atomic`, `add_wait`,
--     `add_source_call` and `add_instance` are `atomic`, `wait`, `source_call` and `instantiate`.
--     Indices are lengths cast to u32, as in the source, where they wrap; the results on valid
--     stores take a store of at most 2 ^ 32 instances, a hypothesis that each of them states.
--   Rtmq/Schedule: rust/catseq-rtmq/src/oasm_call_plan/model.rs and abi_cost.rs, the types of
--     events and calls and the cost of a call; a float is its 64 bits, a JSON value is of a
--     parameter type. Coalesce, Preload and Board are the functions of scheduler.rs beside it:
--     `coalesce_direct_events`, the preloads and handoffs, and `schedule_board_events` and
--     `compile_board`. Loops is loop_lowering.rs, `apply_loop_timing`. Vectors that the source
--     mutates are passed on; its maps by key are lists in the order of the keys.
--   Rtmq/Isa: rust/catseq-rtmq/src/isa.rs, primitive instructions. `encode` and `decode` are
--     `Instruction::encode` and `DecodedInstruction::decode`; u8, u16, u32 and i8, i32 values are
--     numbers with their ranges as hypotheses, and shifts wrap as those of the machine word.
--   Rtmq/Download: rust/catseq-rtmq/src/download.rs, `materialize_download_loader`, in one
--     definition for each stretch of pushes. Rtmq/Download/Cache is the cache port of a board as
--     docs/dev/01_RTMQv2_ISA.md and docs/dev/03_RTMQv2_StdCohNode.md describe it, with the access
--     control ICF, which the loader leaves as it is.
--   Rtmq/Link: rust/catseq-rtmq/src/lib.rs, `RelativeBoardFragment::link_at`.
--   Runtime/Bytes and Runtime/Rtlink: rust/catseq-runtime/src/protocol/rtlink.rs, frames of 14
--     bytes and the framing of word streams.
--   Runtime/Address and Runtime/Contract: rust/catseq-runtime/src/model.rs, addresses, the checked
--     constructors, the check of a program against its configuration, and the derived MAC address.
--   Runtime/Transport: rust/catseq-runtime/src/transport/mod.rs, packets and the transport, a
--     record of operations over a state of its own that every definition of the runtime takes.
--   Runtime/Execution: rust/catseq-runtime/src/execution.rs. Outcome has the states of a board and
--     the reports, Prepare, Dispatch and Monitor the three phases, Run the whole. The maps that the
--     source mutates are passed on as states: `Sent` in the dispatch, `Observed` in the monitor.
--     The children of Laws go from the step of one frame to a whole run.
--   Prelude: helpers; Prelude/Map is `BTreeMap` as an association list, with keys compared by their
--     numbers. The order of entries is that of insertion; the evidence of a run begins in the order
--     of the addresses, and later writes are to entries that are there.
--   Witnesses, with a module for the store, the scheduler and the loops: tests, and concrete inputs
--     for the theorems.
--
-- How the parts interact: `compile_board` takes events of one board and epoch, finds starts for the
-- preloads (Preload), merges what can be one call (Coalesce), sorts, and lays the calls out with
-- waits between them (Board); the assembly of calls to words is not part of this library. The
-- runtime checks a program against its configuration (Contract), turns each board's words into a
-- loader (Download, which encodes with Isa) and that into frames (Rtlink), sends these (Dispatch),
-- and reads the replies (Rtlink) until each board is terminal (Monitor).
--
-- Loops: the loop of `monitor` runs on fuel, one unit for each received packet; one more than the
-- packets that can still come is enough. The walk of `reachable_stats` runs on
-- fuel, one unit for each reference it pops; that some is enough follows from the end of descents.
-- The retries of a frame are bounded in the source. All else is structural recursion. A panic of
-- the source (`expect`, an index into a map or a vector) is a value of the model.
--
-- Not modelled: the raw socket and the clock, which are parameters (`Transport`, `clock_fits`); the
-- text of messages and of diagnostics; in the store, the pinned owners; in the scheduler, the cost
-- of a waveform, which is read from JSON and computed with floats (`rwg_load_waveform_cost`, a
-- parameter); the other arenas of rust/catseq-core, the rest of the call plan compiler, the front
-- end, the compiler service and the Python package.

pub mod Core
pub mod Prelude
pub mod Rtmq
pub mod Runtime
pub mod Witnesses

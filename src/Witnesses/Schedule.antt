-- ===== src/Witnesses/Schedule.antt =====
-- Concrete inputs for the scheduling of a board: a waveform that is loaded before its play, two plays
-- that become one, and TTL events of two offsets.
use catseq.Rtmq.Schedule.{index_panic}
use catseq.Prelude.{◌≢◌}
use catseq.Prelude.{
  ℕ, ◌≡◌, ◌⊎◌, max, refl, Bool, true, false, none, some, List, [], ◌∷◌, ◌++◌, All, Result, ok, err,
}
use mathlib.Core.List.{Perm}
use catseq.Prelude.Sort.{IsAscending, of_key, sort_by_key}
use catseq.Rtmq.Schedule.{
  OasmFunction, OasmArgument, DirectEvent, TtlEvent, EventOrder, BoardEpochInput, OasmCall,
  OasmBoardPlan, OasmCompileError, unsigned, json, text, float, rwg, rwg_load_waveform, rwg_play,
  ttl_set, wait, fixed_oasm_call_cost, rwg_set_carrier_cost, count_ones, oasm_call_cost,
  rwg_set_carrier, cursor_overflow, board_order, preload_cost_overflow,
}
use catseq.Rtmq.Schedule.Coalesce.{
  coalesce_key, merge_args, merge_event, coalesce_after, coalesce_direct_events,
}
use catseq.Rtmq.Schedule.Coalesce.Kept.{occurs, sets_bit}
use catseq.Rtmq.Schedule.Coalesce.Merged.{AllApart, coalesce_direct_events-Merges}
use catseq.Rtmq.Schedule.Preload.{
  PreloadGroup, fused_handoffs, eliminate_superseded_preloads, remove_fused_handoff_plays,
  group_preloads, preload_pairs, preload_cost, first_conflict, preload_start, move_all,
  place_groups, schedule_preloads,
}
use catseq.Rtmq.Schedule.Preload.Moves.{
  Moves, costs_at, schedule_preloads-Moves, schedule_preloads_cases,
}
use mathlib.Core.List.{reverse}
use catseq.Prelude.{get_elem?, ◌<◌, ◌≤◌, ◌^◌}
use catseq.Rtmq.Schedule.Board.{
  ttl_calls, rebase_ttl, rebase_direct, add_to_group, gather_after, gather, ttl_key, emit, lay_out,
  raise_costs, schedule_partition, schedule_partitions, schedule_board_events, schedule_key,
  compile_board,
}
use catseq.Rtmq.Schedule.Board.Layout.{
  IsCall, play, costs_of, start_times, end_of, calls_at, without_waits,
}
use catseq.Rtmq.Schedule.Board.Overflow.{EndsFit, lay_out_cases}
use catseq.Rtmq.Schedule.Board.NoPanic.{compile_board-NoPanic}
use catseq.Rtmq.Schedule.Board.Ttl.{gather_groups, group_at, HasGroup, IsStrict}
use catseq.Rtmq.Schedule.Board.Compiled.{
  InOrder, IsPaid, schedule_board_events-InOrder, compile_board-plays,
}

-- The cost of a waveform, where a JSON value is a number.
abbrev load_cost : DirectEvent ℕ → Result OasmCompileError ℕ
load_cost event = ok 20

abbrev on_channel : ℕ → ℕ → EventOrder
on_channel local_id sequence = record { channel_kind = 0; local_id = local_id; sequence = sequence }

abbrev direct : ℕ → OasmFunction → List (OasmArgument ℕ) → EventOrder → ℕ → Bool → DirectEvent ℕ
direct offset function args order group_id preload = record {
  epoch = 1;
  offset_cycles = offset;
  board = "rwg0";
  function = function;
  args = args;
  instruction_cost_cycles = 0;
  order = order;
  group_id = group_id;
  preload = preload;
  loop_scope = none;
}

abbrev ttl : ℕ → ℕ → Bool → TtlEvent
ttl offset local_id high = record {
  epoch = 1;
  offset_cycles = offset;
  board = "rwg0";
  local_id = local_id;
  high = high;
  instruction_cost_cycles = 1;
  order = record { channel_kind = 1; local_id = local_id; sequence = 0 };
  loop_scope = none;
}

abbrev direct_events : List (DirectEvent ℕ)
direct_events =
    direct 200 rwg_play (unsigned 1 ∷ unsigned 1 ∷ []) (on_channel 0 5) 5 false
    ∷ direct 200 rwg_load_waveform (json 8 ∷ []) (on_channel 0 5) 5 true
    ∷ direct 200 rwg_play (unsigned 2 ∷ unsigned 2 ∷ []) (on_channel 1 6) 6 false
    ∷ []

abbrev ttl_events : List TtlEvent
ttl_events = ttl 300 0 false ∷ ttl 250 3 false ∷ ttl 250 0 true ∷ []

abbrev board_input : BoardEpochInput ℕ
board_input = record {
  epoch = 1;
  origin_cycles = 100;
  address = "rwg0";
  board_kind = rwg;
  duration_cycles = 400;
  initial_cursor = 0;
  ttl_events = ttl_events;
  direct_events = direct_events;
}

abbrev call : ℕ → OasmFunction → List (OasmArgument ℕ) → OasmCall ℕ
call offset function args = record { offset_cycles = offset; function = function; args = args }

abbrev board_plan : OasmBoardPlan ℕ
board_plan = record {
  address = "rwg0";
  calls =
      call 0 wait (unsigned 80 ∷ [])
      ∷ call 80 rwg_load_waveform (json 8 ∷ [])
      ∷ call 100 rwg_play (unsigned 3 ∷ unsigned 3 ∷ [])
      ∷ call 115 wait (unsigned 35 ∷ [])
      ∷ call 150 ttl_set (unsigned 9 ∷ unsigned 1 ∷ text "rwg" ∷ [])
      ∷ call 151 wait (unsigned 49 ∷ [])
      ∷ call 200 ttl_set (unsigned 1 ∷ unsigned 0 ∷ text "rwg" ∷ [])
      ∷ call 201 wait (unsigned 199 ∷ [])
      ∷ [];
}

board_compiles : compile_board load_cost board_input ≡ ok board_plan
unfolding compile_board rebase_ttl rebase_direct add_to_group gather_after emit lay_out raise_costs
    schedule_partition schedule_partitions schedule_board_events oasm_call_cost fixed_oasm_call_cost
    fused_handoffs eliminate_superseded_preloads remove_fused_handoff_plays group_preloads
    preload_pairs preload_cost first_conflict preload_start move_all place_groups schedule_preloads
    merge_args merge_event coalesce_after coalesce_direct_events
board_compiles = refl

no_waits : All IsCall direct_events
no_waits = (refl, (refl, (refl, tt)))

compile_board-plays_example :
    (events : List TtlEvent) × (placed scheduled : List (DirectEvent ℕ)) × (rebase_ttl 1
        board_input.origin_cycles board_input.ttl_events
      ≡ ok events)
    × (rebase_direct 1 board_input.origin_cycles board_input.direct_events ≡ ok placed)
    × (schedule_board_events load_cost (placed ∷ []) (
          ttl_calls 1 board_input.address board_input.board_kind
            (gather (sort_by_key ttl_key events)))
        ≡ ok scheduled)
    × InOrder scheduled
    × All (IsPaid load_cost) scheduled
    × (without_waits board_plan.calls ≡ calls_at (start_times 0 scheduled) scheduled)
    × (play 0 board_plan.calls (costs_of scheduled) ≡ some (max 400 (end_of 0 scheduled)))
compile_board-plays_example =
    compile_board-plays load_cost board_input board_plan no_waits board_compiles

-- Two events as they are scheduled, the second of them too early for the first to be over.
abbrev late : List (DirectEvent ℕ)
late =
    record (direct 10 rwg_play [] board_order 5 false) { instruction_cost_cycles = 15 }
    ∷ record (direct 20 ttl_set [] board_order 6 false) { instruction_cost_cycles = 1 }
    ∷ []

abbrev late_calls : List (OasmCall ℕ)
late_calls =
    call 4 wait (unsigned 6 ∷ [])
    ∷ call 10 rwg_play []
    ∷ call 25 ttl_set []
    ∷ call 26 wait (unsigned 14 ∷ [])
    ∷ []

late_laid_out : lay_out 4 40 late ≡ ok late_calls
unfolding lay_out emit
late_laid_out = refl

lay_out_cases_example :
    (EndsFit 4 late × ((calls : List (OasmCall ℕ)) × (lay_out 4 40 late ≡ ok calls)))
    ⊎ ((EndsFit 4 late → ⊥) × (lay_out 4 40 late ≡ err cursor_overflow))
lay_out_cases_example = lay_out_cases 4 40 late

-- The direct events of the board, with their costs.
abbrev raised : List (DirectEvent ℕ)
raised =
    record (direct 200 rwg_play (unsigned 1 ∷ unsigned 1 ∷ []) (on_channel 0 5) 5 false) {
      instruction_cost_cycles = 15;
    }
    ∷ record (direct 200 rwg_load_waveform (json 8 ∷ []) (on_channel 0 5) 5 true) {
      instruction_cost_cycles = 20;
    }
    ∷ record (direct 200 rwg_play (unsigned 2 ∷ unsigned 2 ∷ []) (on_channel 1 6) 6 false) {
      instruction_cost_cycles = 15;
    }
    ∷ []

abbrev placed : List (DirectEvent ℕ)
placed =
    record (direct 200 rwg_play (unsigned 1 ∷ unsigned 1 ∷ []) (on_channel 0 5) 5 false) {
      instruction_cost_cycles = 15;
    }
    ∷ record (direct 180 rwg_load_waveform (json 8 ∷ []) (on_channel 0 5) 5 true) {
      instruction_cost_cycles = 20;
    }
    ∷ record (direct 200 rwg_play (unsigned 2 ∷ unsigned 2 ∷ []) (on_channel 1 6) 6 false) {
      instruction_cost_cycles = 15;
    }
    ∷ []

preload_placed : schedule_preloads raised ≡ ok placed
unfolding group_preloads preload_pairs preload_cost first_conflict preload_start move_all
    place_groups schedule_preloads
preload_placed = refl

schedule_preloads-Moves_example : Moves raised placed
schedule_preloads-Moves_example = schedule_preloads-Moves raised placed preload_placed

schedule_preloads_cases_example :
    ((done : List (DirectEvent ℕ)) × (schedule_preloads raised ≡ ok done)
      × All (λ g. costs_at raised g.indices < 2 ^ 64) (reverse (preload_pairs raised)))
    ⊎ ((schedule_preloads raised ≡ err preload_cost_overflow)
        × ((i : ℕ) × (g : PreloadGroup) × (get_elem? (reverse (preload_pairs raised)) i ≡ some g)
            × (2 ^ 64 ≤ costs_at raised g.indices)))
schedule_preloads_cases_example = schedule_preloads_cases raised

abbrev merged : List (DirectEvent ℕ)
merged =
    record (direct 180 rwg_load_waveform (json 8 ∷ []) (on_channel 0 5) 5 true) {
      instruction_cost_cycles = 20;
    }
    ∷ record (direct 200 rwg_play (unsigned 3 ∷ unsigned 3 ∷ []) (on_channel 0 5) 5 false) {
      instruction_cost_cycles = 15;
    }
    ∷ []

plays_merged : coalesce_direct_events placed ≡ ok merged
unfolding merge_args merge_event coalesce_after coalesce_direct_events
plays_merged = refl

coalesce_direct_events-Merges_example :
    AllApart merged
    × IsAscending coalesce_key merged
    × ((g : OasmFunction) → occurs 200 g merged ≡ occurs 200 g placed)
    × (sets_bit 200 rwg_play true 1 merged ≡ sets_bit 200 rwg_play true 1 placed)
coalesce_direct_events-Merges_example =
    coalesce_direct_events-Merges placed merged 200 rwg_play true 1 plays_merged (λ q. cc)

abbrev ttl_set_call : DirectEvent ℕ
ttl_set_call = record (direct 190 ttl_set [] board_order 9 false) { instruction_cost_cycles = 1 }

abbrev scheduled_events : List (DirectEvent ℕ)
scheduled_events =
    record (direct 180 rwg_load_waveform (json 8 ∷ []) (on_channel 0 5) 5 true) {
      instruction_cost_cycles = 20;
    }
    ∷ ttl_set_call
    ∷ record (direct 200 rwg_play (unsigned 3 ∷ unsigned 3 ∷ []) (on_channel 0 5) 5 false) {
      instruction_cost_cycles = 15;
    }
    ∷ []

events_scheduled :
    schedule_board_events load_cost (direct_events ∷ []) (ttl_set_call ∷ []) ≡ ok scheduled_events
unfolding compile_board rebase_ttl rebase_direct add_to_group gather_after emit lay_out raise_costs
    schedule_partition schedule_partitions schedule_board_events oasm_call_cost fixed_oasm_call_cost
    fused_handoffs eliminate_superseded_preloads remove_fused_handoff_plays group_preloads
    preload_pairs preload_cost first_conflict preload_start move_all place_groups schedule_preloads
    merge_args merge_event coalesce_after coalesce_direct_events
events_scheduled = refl

schedule_board_events-InOrder_example :
    (merged raised : List (DirectEvent ℕ)) × (schedule_partitions load_cost (direct_events ∷ [])
      ≡ ok merged)
    × (raise_costs load_cost (merged ++ ttl_set_call ∷ []) ≡ ok raised)
    × InOrder scheduled_events
    × All (IsPaid load_cost) scheduled_events
    × Perm scheduled_events raised
    × ((k : List ℕ) → of_key schedule_key k scheduled_events ≡ of_key schedule_key k raised)
schedule_board_events-InOrder_example =
    schedule_board_events-InOrder load_cost (direct_events ∷ []) (ttl_set_call ∷ [])
      scheduled_events events_scheduled

gather_groups_example :
    IsStrict (gather (sort_by_key ttl_key ttl_events))
    × All
        (λ g. group_at g.offset (sort_by_key ttl_key ttl_events) ≡ some g)
        (gather (sort_by_key ttl_key ttl_events))
    × All
        (λ (event : TtlEvent).
          HasGroup (gather (sort_by_key ttl_key ttl_events)) event.offset_cycles)
        (sort_by_key ttl_key ttl_events)
gather_groups_example = gather_groups ttl_events

-- The cost of 250 MHz as a float, and of a mask.
carrier_cost :
    rwg_set_carrier_cost load_cost
      (direct 0 rwg_set_carrier (unsigned 1 ∷ float 4643000109586448384 ∷ []) board_order 0 false)
    ≡ ok 17
unfolding rwg_set_carrier_cost
carrier_cost = refl

mask_ones : count_ones 64 13 ≡ 3
unfolding count_ones
mask_ones = refl

load_cost_plain : (event : DirectEvent ℕ) → load_cost event ≢ err index_panic
load_cost_plain event q = cc

compile_board-NoPanic_example : compile_board load_cost board_input ≢ err index_panic
compile_board-NoPanic_example = compile_board-NoPanic load_cost load_cost_plain board_input

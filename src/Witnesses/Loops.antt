-- ===== src/Witnesses/Loops.antt =====
-- A loop of five turns whose play takes longer than the ten cycles of its body.
use catseq.Prelude.{ℕ, ◌≡◌, ◌≤◌, refl, false, Option, none, some, [], ◌∷◌, Result, ok}
use catseq.Rtmq.Schedule.{
  OasmFunction, DirectEvent, TtlEvent, LoopRegion, OasmCompileError, board_order, loop_begin,
  loop_end, rwg_play, rwg_init, fixed_oasm_call_cost, oasm_call_cost,
}
use catseq.Rtmq.Schedule.Coalesce.{merge_args, merge_event, coalesce_after, coalesce_direct_events}
use catseq.Rtmq.Schedule.Preload.{
  fused_handoffs, eliminate_superseded_preloads, remove_fused_handoff_plays, group_preloads,
  preload_pairs, preload_cost, first_conflict, preload_start, move_all, place_groups,
  schedule_preloads,
}
use catseq.Rtmq.Schedule.Board.{
  raise_costs, schedule_partition, schedule_partitions, schedule_board_events,
}
use catseq.Rtmq.Schedule.Loops.{
  LoopState, enter_ttl, put_cursor, delay_ttl, delay_origins, displace, push_board,
  body_events_by_board, ttl_by_offset, run_body, delay_direct, delay_after, body_duration,
  apply_region, apply_loop_timing,
}
use catseq.Rtmq.Schedule.Loops.Delays.{Delays, apply_loop_timing-Delays}

abbrev load_cost : DirectEvent ℕ → Result OasmCompileError ℕ
load_cost event = ok 20

abbrev event : ℕ → OasmFunction → ℕ → ℕ → Option ℕ → DirectEvent ℕ
event offset function cost group_id scope = record {
  epoch = 0;
  offset_cycles = offset;
  board = "rwg0";
  function = function;
  args = [];
  instruction_cost_cycles = cost;
  order = board_order;
  group_id = group_id;
  preload = false;
  loop_scope = scope;
}

abbrev level : ℕ → Option ℕ → TtlEvent
level offset scope = record {
  epoch = 0;
  offset_cycles = offset;
  board = "rwg0";
  local_id = 2;
  high = false;
  instruction_cost_cycles = 1;
  order = record { channel_kind = 1; local_id = 2; sequence = 0 };
  loop_scope = scope;
}

abbrev region : LoopRegion
region = record { epoch = 0; start = 0; body_duration = 10; count = 5; marker_group_id = 9 }

abbrev before : LoopState ℕ
before = record {
  ttl_events = level 3 (some 9) ∷ level 7 none ∷ [];
  direct_events =
      event 0 loop_begin 0 9 (some 9)
      ∷ event 0 rwg_play 15 1 (some 9)
      ∷ event 10 loop_end 0 9 (some 9)
      ∷ event 60 rwg_init 53 2 none
      ∷ [];
  epoch_origins = (0, 0) ∷ (1, 200) ∷ [];
}

-- The play ends at 15 and the level is set then: six cycles more in each turn.
abbrev timed : LoopState ℕ
timed = record {
  ttl_events = level 3 (some 9) ∷ level 41 none ∷ [];
  direct_events =
      event 0 loop_begin 0 9 (some 9)
      ∷ event 0 rwg_play 15 1 (some 9)
      ∷ event 10 loop_end 24 9 (some 9)
      ∷ event 90 rwg_init 53 2 none
      ∷ [];
  epoch_origins = (0, 0) ∷ (1, 230) ∷ [];
}

is_timed : apply_loop_timing load_cost (region ∷ []) 0 before ≡ ok (30, timed)
unfolding apply_loop_timing apply_region body_duration delay_after delay_direct run_body
    ttl_by_offset body_events_by_board push_board displace delay_origins delay_ttl put_cursor
    enter_ttl raise_costs schedule_partition schedule_partitions schedule_board_events
    oasm_call_cost fixed_oasm_call_cost fused_handoffs eliminate_superseded_preloads
    remove_fused_handoff_plays group_preloads preload_pairs preload_cost first_conflict
    preload_start move_all place_groups schedule_preloads merge_args merge_event coalesce_after
    coalesce_direct_events
is_timed = refl

apply_loop_timing-Delays_example : (0 ≤ 30) × Delays before timed
apply_loop_timing-Delays_example =
    apply_loop_timing-Delays load_cost (region ∷ []) 0 before (30, timed) is_timed

-- ===== src/Rtmq/Schedule/Board.antt =====
-- rust/catseq-rtmq/src/oasm_call_plan/scheduler.rs, `compile_board` and `schedule_board_events`: the
-- events of one board in one epoch become its calls.
pub mod Layout
pub mod Functions
pub mod Ttl
pub mod Compiled
pub mod Overflow
pub mod NoPanic
use catseq.Prelude.{
  ℕ, suc, ◌+◌, ◌-◌, ◌%◌, ◌^◌, max, ◌==◌, ltb, bit_or, bit_and, Bool, true, false, not, ◌&&◌,
  if◌then◌else◌, Option, none, some, List, [], ◌∷◌, ◌++◌, Result, ok, err, ◌>>=◌, ◌>>◌, fail_if,
}
use catseq.Prelude.Sort.{sort_by_key}
use catseq.Rtmq.Schedule.{
  OasmFunction, OasmArgument, DirectEvent, TtlEvent, EventOrder, BoardEpochInput, OasmCall,
  OasmBoardPlan, OasmCompileError, TargetBoardKind, oasm_argument, board_order, order_key,
  max_order, checked_add, oasm_call_cost, loop_begin, loop_end, rwg_init, wait_master, trig_slave,
  ttl_set, wait, unsigned, text, wrong_ttl_epoch, early_ttl_event, wrong_direct_epoch,
  early_direct_event, cursor_overflow,
}
use catseq.Rtmq.Schedule.Coalesce.{coalesce_direct_events}
use catseq.Rtmq.Schedule.Preload.{
  fused_handoffs, eliminate_superseded_preloads, schedule_preloads, remove_fused_handoff_plays,
}
use Prim.Native.String.{String}

abbrev pub oasm_function_priority : OasmFunction → ℕ
oasm_function_priority loop_begin = 0
oasm_function_priority rwg_init = 1
oasm_function_priority wait_master = 3
oasm_function_priority trig_slave = 3
oasm_function_priority loop_end = 4
oasm_function_priority _ = 2

-- The two loops that check the epoch of an event and take its offset from the origin.
unfoldable pub rebase_ttl : ℕ → ℕ → List TtlEvent → Result OasmCompileError (List TtlEvent)
rebase_ttl epoch origin [] = ok []
rebase_ttl epoch origin (event ∷ rest) = do
  fail_if (not (event.epoch == epoch)) wrong_ttl_epoch
  fail_if (ltb event.offset_cycles origin) early_ttl_event
  done ← rebase_ttl epoch origin rest
  ok (record event { offset_cycles = event.offset_cycles - origin } ∷ done)

-- What the loop over the events of one offset gathers.
pub record TtlGroup : Type 0 where
  pub offset : ℕ
  pub mask : ℕ
  pub state : ℕ
  pub instruction_cost_cycles : ℕ
  pub order : EventOrder
  pub loop_scope : Option ℕ

abbrev same_scope : Option ℕ → Option ℕ → Bool
same_scope none none = true
same_scope (some a) (some b) = a == b
same_scope _ _ = false

-- A shift of a word takes its count modulo the width.
abbrev pub channel_bit : ℕ → ℕ
channel_bit local_id = 2 ^ (local_id % 64)

abbrev pub open_group : TtlEvent → TtlGroup
open_group event = record {
  offset = event.offset_cycles;
  mask = 0;
  state = 0;
  instruction_cost_cycles = 0;
  order = board_order;
  loop_scope = event.loop_scope;
}

-- The body of the inner loop.
unfoldable pub add_to_group : TtlGroup → TtlEvent → TtlGroup
add_to_group g event =
    let channel = channel_bit event.local_id in
    record {
      offset = g.offset;
      mask = bit_or g.mask channel;
      state = if event.high then bit_or g.state channel else bit_and g.state (2 ^ 64 - 1 - channel);
      instruction_cost_cycles = max g.instruction_cost_cycles event.instruction_cost_cycles;
      order = max_order g.order event.order;
      loop_scope = if same_scope g.loop_scope event.loop_scope then g.loop_scope else none;
    }

-- The two loops over the sorted events, with the group that is being gathered.
unfoldable pub gather_after : TtlGroup → List TtlEvent → List TtlGroup
gather_after g [] = g ∷ []
gather_after g (event ∷ rest) = elim (event.offset_cycles == g.offset) [
  | true ↦ gather_after (add_to_group g event) rest
  | false ↦ g ∷ gather_after (add_to_group (open_group event) event) rest
]

abbrev pub gather : List TtlEvent → List TtlGroup
gather [] = []
gather (event ∷ rest) = gather_after (add_to_group (open_group event) event) rest

abbrev pub ttl_key : TtlEvent → List ℕ
ttl_key event = event.offset_cycles ∷ event.local_id ∷ order_key event.order

module _ {Json : Type 0} where
  unfoldable pub rebase_direct :
      ℕ → ℕ → List (DirectEvent Json) → Result OasmCompileError (List (DirectEvent Json))
  rebase_direct epoch origin [] = ok []
  rebase_direct epoch origin (event ∷ rest) = do
    fail_if (not (event.epoch == epoch)) wrong_direct_epoch
    fail_if (ltb event.offset_cycles origin) early_direct_event
    done ← rebase_direct epoch origin rest
    ok (record event { offset_cycles = event.offset_cycles - origin } ∷ done)

  abbrev pub ttl_call : ℕ → String → TargetBoardKind → TtlGroup → DirectEvent Json
  ttl_call epoch address board_kind g = record {
    epoch = epoch;
    offset_cycles = g.offset;
    board = address;
    function = ttl_set;
    args = unsigned g.mask ∷ unsigned g.state ∷ text (oasm_argument board_kind) ∷ [];
    instruction_cost_cycles = g.instruction_cost_cycles;
    order = g.order;
    group_id = g.order.sequence;
    preload = false;
    loop_scope = g.loop_scope;
  }

  abbrev pub ttl_calls : ℕ → String → TargetBoardKind → List TtlGroup → List (DirectEvent Json)
  ttl_calls epoch address board_kind [] = []
  ttl_calls epoch address board_kind (g ∷ groups) =
      ttl_call epoch address board_kind g ∷ ttl_calls epoch address board_kind groups

  -- The key of the last sort.
  abbrev pub schedule_key : DirectEvent Json → List ℕ
  schedule_key event =
      event.offset_cycles ∷ oasm_function_priority event.function ∷ order_key event.order

  -- A wait from the cursor up to a time after it.
  abbrev pub wait_until : ℕ → ℕ → List (OasmCall Json)
  wait_until cursor time =
      if ltb cursor time
      then record { offset_cycles = cursor; function = wait; args = unsigned (time - cursor) ∷ [] }
        ∷ []
      else []

  abbrev pub call_at : ℕ → DirectEvent Json → OasmCall Json
  call_at actual_start event = record {
    offset_cycles = actual_start;
    function = event.function;
    args = event.args;
  }

  -- The loop over the scheduled events: the calls and the cursor after them.
  unfoldable pub emit :
      ℕ → List (DirectEvent Json) → Result OasmCompileError (List (OasmCall Json) × ℕ)
  emit cursor [] = ok ([], cursor)
  emit cursor (event ∷ rest) =
      let actual_start = max event.offset_cycles cursor in
      checked_add actual_start event.instruction_cost_cycles cursor_overflow >>= λ next.
      emit next rest >>= λ done.
      ok (wait_until cursor event.offset_cycles ++ call_at actual_start event ∷ done.0, done.1)

  -- What follows the schedule in `compile_board`.
  unfoldable pub lay_out :
      ℕ → ℕ → List (DirectEvent Json) → Result OasmCompileError (List (OasmCall Json))
  lay_out initial_cursor duration_cycles scheduled =
      emit initial_cursor scheduled >>= λ done. ok (done.0 ++ wait_until done.1 duration_cycles)

module _ {Json : Type 0}
    (rwg_load_waveform_cost : DirectEvent Json → Result OasmCompileError ℕ) where
  -- The two loops that raise the cost of an event to that of its call.
  unfoldable pub raise_costs :
      List (DirectEvent Json) → Result OasmCompileError (List (DirectEvent Json))
  raise_costs [] = ok []
  raise_costs (event ∷ rest) = do
    cost ← oasm_call_cost rwg_load_waveform_cost event
    done ← raise_costs rest
    ok (record event { instruction_cost_cycles = max event.instruction_cost_cycles cost } ∷ done)

  -- The body of the loop over the partitions.
  unfoldable pub schedule_partition :
      List (DirectEvent Json) → Result OasmCompileError (List (DirectEvent Json))
  schedule_partition direct_events = do
    raised ← raise_costs direct_events
    placed ← schedule_preloads (eliminate_superseded_preloads raised)
    coalesce_direct_events (remove_fused_handoff_plays (fused_handoffs raised) placed)

  unfoldable pub schedule_partitions :
      List (List (DirectEvent Json)) → Result OasmCompileError (List (DirectEvent Json))
  schedule_partitions [] = ok []
  schedule_partitions (partition ∷ rest) = do
    first ← schedule_partition partition
    others ← schedule_partitions rest
    ok (first ++ others)

  unfoldable pub schedule_board_events :
      List (List (DirectEvent Json))
      → List (DirectEvent Json)
      → Result OasmCompileError (List (DirectEvent Json))
  schedule_board_events partitions additional = do
    scheduled ← schedule_partitions partitions
    raised ← raise_costs (scheduled ++ additional)
    ok (sort_by_key schedule_key raised)

  unfoldable pub compile_board : BoardEpochInput Json → Result OasmCompileError (OasmBoardPlan Json)
  compile_board input = do
    events ← rebase_ttl input.epoch input.origin_cycles input.ttl_events
    direct_events ← rebase_direct input.epoch input.origin_cycles input.direct_events
    scheduled ←
        schedule_board_events (direct_events ∷ []) (
          ttl_calls input.epoch input.address input.board_kind
            (gather (sort_by_key ttl_key events)))
    calls ← lay_out input.initial_cursor input.duration_cycles scheduled
    ok (record { address = input.address; calls = calls })

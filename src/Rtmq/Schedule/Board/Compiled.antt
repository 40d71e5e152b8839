-- ===== src/Rtmq/Schedule/Board/Compiled.antt =====
-- The calls of a board as `compile_board` gives them.
use catseq.Prelude.{
  ◌<◌, ◌≤◌, ◌⊎◌, true, arith, ◌==◌, ◌||◌, if◌then◌else◌, All-map, ℕ, max, ◌≡◌, refl, false, some,
  List, [], ◌∷◌, ◌++◌, Result, ok, >>=-eq-ok, All, ok_inj, sym, ap, ◌∙◌,
}
use mathlib.Core.List.{Perm}
use mathlib.Core.Path.{subst}
use catseq.Prelude.Sort.{
  key_leb, All-sort_by_key, IsAscending, sort_by_key, sort_by_key-IsAscending, sort_by_key-perm,
  of_key, of_key-sort_by_key,
}
use catseq.Rtmq.Schedule.{
  TtlEvent, function_index, order_key, oasm_call_cost, OasmFunction, DirectEvent, TargetBoardKind,
  BoardEpochInput, OasmBoardPlan, OasmCompileError,
}
use catseq.Rtmq.Schedule.Board.{
  oasm_function_priority, rebase_ttl, rebase_direct, gather, ttl_key, ttl_calls, TtlGroup,
  schedule_key, raise_costs, schedule_partitions, schedule_board_events, lay_out, compile_board,
}
use catseq.Rtmq.Schedule.Board.Layout.{
  IsCall, is_wait, play, costs_of, start_times, end_of, calls_at, without_waits, lay_out-plays,
  without_waits-lay_out,
}
use catseq.Rtmq.Schedule.Board.Functions.{rebase_direct-All, schedule_board_events-All}
use Prim.Native.String.{String}

abbrev IsNotWait : OasmFunction → Type 0
IsNotWait f = is_wait f ≡ false

ttl_calls-All :
    (Json : Type 0) (epoch : ℕ) (address : String) (kind : TargetBoardKind) (groups : List TtlGroup)
    → All (IsCall {Json = Json}) (ttl_calls epoch address kind groups)
ttl_calls-All Json epoch address kind [] = tt
ttl_calls-All Json epoch address kind (g ∷ groups) =
    (refl, ttl_calls-All Json epoch address kind groups)

-- The place of the functions among those of one offset: a loop begins before all else and ends after
-- all else; a generator is initialised before any function but the begin of a loop; and to wait for
-- the master, or to trigger the slaves, comes after any function but the end of a loop.
abbrev pub stage : OasmFunction → ℕ
stage f =
    if function_index f == 0
    then 0
    else if function_index f == 5
    then 1
    else if (function_index f == 10) || (function_index f == 11)
    then 3
    else if function_index f == 1
    then 4
    else 2

priority-stage : (f : OasmFunction) → oasm_function_priority f ≡ stage f
priority-stage f = ground arith

key-Precedes :
    (a b c d : ℕ) (o p : List ℕ)
    → key_leb (a ∷ b ∷ o) (c ∷ d ∷ p) ≡ true
    → (a < c) ⊎ ((a ≡ c) × ((b < d) ⊎ ((b ≡ d) × (key_leb o p ≡ true))))
key-Precedes a b c d o p h = ground arith

module _ {Json : Type 0} where
  -- An event may stand before another: it has an earlier offset, or the same one and an earlier
  -- stage, or these are the same and its order is not behind.
  abbrev pub Precedes : DirectEvent Json → DirectEvent Json → Type 0
  Precedes e f =
      (e.offset_cycles < f.offset_cycles)
      ⊎ ((e.offset_cycles ≡ f.offset_cycles)
          × ((stage e.function < stage f.function)
              ⊎ ((stage e.function ≡ stage f.function)
                  × (key_leb (order_key e.order) (order_key f.order) ≡ true))))

  abbrev pub InOrder : List (DirectEvent Json) → Type 0
  InOrder [] = Unit
  InOrder (e ∷ rest) = All (Precedes e) rest × InOrder rest

  leb-Precedes :
      (e f : DirectEvent Json) → key_leb (schedule_key e) (schedule_key f) ≡ true → Precedes e f
  leb-Precedes e f h =
      rw (← priority-stage e.function, ← priority-stage f.function)
        (key-Precedes e.offset_cycles (oasm_function_priority e.function) f.offset_cycles
          (oasm_function_priority f.function) (order_key e.order) (order_key f.order) h)

  ascending-InOrder :
      (events : List (DirectEvent Json)) → IsAscending schedule_key events → InOrder events
  ascending-InOrder [] h = tt
  ascending-InOrder (e ∷ rest) (below, h) =
      (All-map (λ f p. leb-Precedes e f p) rest below, ascending-InOrder rest h)

module _ {Json : Type 0}
    (rwg_load_waveform_cost : DirectEvent Json → Result OasmCompileError ℕ) where
  -- The cost of an event is that of its call, or more.
  abbrev pub IsPaid : DirectEvent Json → Type 0
  IsPaid f =
      (e : DirectEvent Json) × (cost : ℕ) × (oasm_call_cost rwg_load_waveform_cost e ≡ ok cost)
      × (f ≡ record e { instruction_cost_cycles = f.instruction_cost_cycles })
      × (cost ≤ f.instruction_cost_cycles)
      × (e.instruction_cost_cycles ≤ f.instruction_cost_cycles)

  raise_costs-IsPaid :
      (events raised : List (DirectEvent Json))
      → raise_costs rwg_load_waveform_cost events ≡ ok raised
      → All IsPaid raised
  unfolding raise_costs
  raise_costs-IsPaid [] raised h = subst (All IsPaid) (ok_inj h) tt
  raise_costs-IsPaid (event ∷ rest) raised h =
      let (cost, e1, h1) = >>=-eq-ok (oasm_call_cost rwg_load_waveform_cost event) _ h in
      let (done, e2, h2) = >>=-eq-ok (raise_costs rwg_load_waveform_cost rest) _ h1 in
      subst (All IsPaid) (ok_inj h2)
        ((event, cost, e1, refl, omega arith, omega arith), raise_costs-IsPaid rest done e2)

  -- The schedule of a board holds exactly what its partitions are merged to and the additional
  -- events, with their costs raised to those of their calls at least; it is in the order of the
  -- offsets, of the stages at one offset, and of the orders at one stage; and events that agree in
  -- these stay in the order they came in.
  pub schedule_board_events-InOrder :
      (partitions : List (List (DirectEvent Json))) (additional scheduled : List (DirectEvent Json))
      → schedule_board_events rwg_load_waveform_cost partitions additional ≡ ok scheduled
      → (merged raised : List (DirectEvent Json)) × (schedule_partitions rwg_load_waveform_cost
            partitions
          ≡ ok merged)
        × (raise_costs rwg_load_waveform_cost (merged ++ additional) ≡ ok raised)
        × InOrder scheduled
        × All IsPaid scheduled
        × Perm scheduled raised
        × ((k : List ℕ) → of_key schedule_key k scheduled ≡ of_key schedule_key k raised)
  unfolding schedule_board_events
  schedule_board_events-InOrder partitions additional scheduled e =
      let (merged, e1, e2) =
        >>=-eq-ok (schedule_partitions rwg_load_waveform_cost partitions) _ e in
      let (raised, e3, e4) =
        >>=-eq-ok (raise_costs rwg_load_waveform_cost (merged ++ additional)) _ e2 in
      let same = ok_inj e4 in
      (
        merged,
        raised,
        e1,
        e3,
        subst InOrder same (ascending-InOrder _ (sort_by_key-IsAscending schedule_key raised)),
        subst (All IsPaid) same (
            All-sort_by_key schedule_key IsPaid raised
              (raise_costs-IsPaid (merged ++ additional) raised e3)),
        subst (λ l. Perm l raised) same (sort_by_key-perm schedule_key raised),
        λ k. ap (of_key schedule_key k) (sym same) ∙ of_key-sort_by_key schedule_key k raised,
      )

  compile_board-ok :
      (input : BoardEpochInput Json) (plan : OasmBoardPlan Json)
      → All IsCall input.direct_events
      → compile_board rwg_load_waveform_cost input ≡ ok plan
      → (events : List TtlEvent) × (direct scheduled : List (DirectEvent Json)) × (rebase_ttl
            input.epoch input.origin_cycles input.ttl_events
          ≡ ok events)
        × (rebase_direct input.epoch input.origin_cycles input.direct_events ≡ ok direct)
        × (schedule_board_events rwg_load_waveform_cost (direct ∷ []) (
              ttl_calls input.epoch input.address input.board_kind
                (gather (sort_by_key ttl_key events)))
            ≡ ok scheduled)
        × All IsCall scheduled
        × (lay_out input.initial_cursor input.duration_cycles scheduled ≡ ok plan.calls)
  unfolding compile_board
  compile_board-ok input plan h e =
      let (events, e1, e2) =
        >>=-eq-ok (rebase_ttl input.epoch input.origin_cycles input.ttl_events) _ e in
      let (direct, e3, e4) =
        >>=-eq-ok (rebase_direct input.epoch input.origin_cycles input.direct_events) _ e2 in
      let additional =
        ttl_calls input.epoch input.address input.board_kind
          (gather (sort_by_key ttl_key events)) in
      let (scheduled, e5, e6) =
        >>=-eq-ok (schedule_board_events rwg_load_waveform_cost (direct ∷ []) additional) _ e4 in
      let (calls, e7, e8) =
        >>=-eq-ok (lay_out input.initial_cursor input.duration_cycles scheduled) _ e6 in
      let p =
        rebase_direct-All IsNotWait input.epoch input.origin_cycles input.direct_events direct h
          e3 in
      let q =
        ttl_calls-All Json input.epoch input.address input.board_kind
          (gather (sort_by_key ttl_key events)) in
      (
        events,
        direct,
        scheduled,
        e1,
        e3,
        e5,
        schedule_board_events-All IsNotWait rwg_load_waveform_cost (direct ∷ []) additional
            scheduled (p, tt) q e5,
        e7 ∙ ap (λ (l : OasmBoardPlan Json). ok l.calls) (ok_inj e8),
      )

  -- A board that compiles, from direct events of which none is a wait: its TTL and its direct events
  -- were placed from the origin; they are scheduled together, those of the TTL gathered to calls, in
  -- order and with the costs of their calls at least; and the calls carry this schedule out. Without
  -- the waits they are its events, each at its offset or at the end of the event before it; and
  -- played on a clock from the initial cursor each call stands at the time when the one before it
  -- ends, up to the end of the last event, or the duration where that is later.
  pub compile_board-plays :
      (input : BoardEpochInput Json) (plan : OasmBoardPlan Json)
      → All IsCall input.direct_events
      → compile_board rwg_load_waveform_cost input ≡ ok plan
      → (events : List TtlEvent) × (direct scheduled : List (DirectEvent Json)) × (rebase_ttl
            input.epoch input.origin_cycles input.ttl_events
          ≡ ok events)
        × (rebase_direct input.epoch input.origin_cycles input.direct_events ≡ ok direct)
        × (schedule_board_events rwg_load_waveform_cost (direct ∷ []) (
              ttl_calls input.epoch input.address input.board_kind
                (gather (sort_by_key ttl_key events)))
            ≡ ok scheduled)
        × InOrder scheduled
        × All IsPaid scheduled
        × (without_waits plan.calls
            ≡ calls_at (start_times input.initial_cursor scheduled) scheduled)
        × (play input.initial_cursor plan.calls (costs_of scheduled)
            ≡ some (max input.duration_cycles (end_of input.initial_cursor scheduled)))
  compile_board-plays input plan h e =
      let (events, direct, scheduled, e0, e1, e2, calls, laid) = compile_board-ok input plan h e in
      let (merged, raised, e3, e4, in_order, paid, perm, stable) =
        schedule_board_events-InOrder (direct ∷ []) _ scheduled e2 in
      (
        events,
        direct,
        scheduled,
        e0,
        e1,
        e2,
        in_order,
        paid,
        without_waits-lay_out input.initial_cursor input.duration_cycles scheduled plan.calls calls
            laid,
        lay_out-plays input.initial_cursor input.duration_cycles scheduled plan.calls calls laid,
      )

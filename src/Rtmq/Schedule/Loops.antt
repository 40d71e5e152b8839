-- ===== src/Rtmq/Schedule/Loops.antt =====
-- rust/catseq-rtmq/src/oasm_call_plan/loop_lowering.rs: the time that a hardware loop takes on its
-- boards, and what comes after the loop moved by it. A map by board, or by board and offset, is a list
-- in the order of its keys.
pub mod Delays
pub mod Ttl
use catseq.Prelude.{
  ℕ, ◌+◌, ◌-◌, ◌*◌, ◌^◌, max, ◌==◌, ltb, leb, Bool, true, false, not, ◌&&◌, ◌||◌, if◌then◌else◌,
  Option, none, some, List, [], ◌∷◌, ◌++◌, map, Result, ok, err, ◌>>=◌, ◌>>◌,
}
use catseq.Prelude.Sort.{keep}
use Prim.Native.Nat.{Ordering, compare as compare_numbers}
use Prim.Native.String.{String, compare}
use text.Mathlib.Text.{◌==◌ as str_eq}
use catseq.Rtmq.Schedule.{
  OasmFunction, DirectEvent, TtlEvent, EventOrder, LoopRegion, OasmCompileError, min_order,
  checked_add, loop_begin, loop_end, ttl_set, loop_end_overflow, loop_boundary_overflow,
  loop_cursor_overflow, loop_delta_overflow, loop_marker_overflow, post_loop_overflow,
  post_loop_ttl_overflow, origin_overflow, program_delta_overflow,
}
use catseq.Rtmq.Schedule.Board.{schedule_board_events}

abbrev pub is_loop_begin : OasmFunction → Bool
is_loop_begin loop_begin = true
is_loop_begin _ = false

abbrev pub is_loop_end : OasmFunction → Bool
is_loop_end loop_end = true
is_loop_end _ = false

abbrev pub has_scope : Option ℕ → ℕ → Bool
has_scope none group_id = false
has_scope (some scope) group_id = scope == group_id

abbrev pub has_board : String → List String → Bool
has_board board [] = false
has_board board (other ∷ rest) = str_eq other board || has_board board rest

-- `checked_mul` on `u64`.
abbrev pub checked_mul : ℕ → ℕ → OasmCompileError → Result OasmCompileError ℕ
checked_mul a b e = if ltb (a * b) (2 ^ 64) then ok (a * b) else err e

abbrev pub is_ttl_body : LoopRegion → TtlEvent → Bool
is_ttl_body region event =
    (event.epoch == region.epoch) && has_scope event.loop_scope region.marker_group_id

-- The entry of a board and an offset in `ttl_by_offset`.
pub record TtlOffset : Type 0 where
  pub board : String
  pub offset_cycles : ℕ
  pub order : EventOrder

abbrev pub new_ttl_offset : TtlEvent → TtlOffset
new_ttl_offset event = record {
  board = event.board;
  offset_cycles = event.offset_cycles;
  order = event.order;
}

unfoldable pub enter_ttl : TtlEvent → List TtlOffset → List TtlOffset
enter_ttl event [] = new_ttl_offset event ∷ []
enter_ttl event (t ∷ m) =
    let rest = enter_ttl event m in
    elim (compare event.board t.board) [
      | Ordering.lt ↦ new_ttl_offset event ∷ t ∷ m
      | Ordering.gt ↦ t ∷ rest
      | Ordering.eq ↦ elim (compare_numbers event.offset_cycles t.offset_cycles) [
        | Ordering.lt ↦ new_ttl_offset event ∷ t ∷ m
        | Ordering.gt ↦ t ∷ rest
        | Ordering.eq ↦ record t { order = min_order t.order event.order } ∷ m
      ]
    ]

unfoldable pub ttl_by_offset : List TtlEvent → List TtlOffset → List TtlOffset
ttl_by_offset [] m = m
ttl_by_offset (event ∷ rest) m = ttl_by_offset rest (enter_ttl event m)

-- `board_cursors`: the cursor of a board, and its entry.
abbrev pub cursor_of : String → ℕ → List (String × ℕ) → ℕ
cursor_of board start [] = start
cursor_of board start ((other, cursor) ∷ m) =
    if str_eq other board then cursor else cursor_of board start m

unfoldable pub put_cursor : String → ℕ → List (String × ℕ) → List (String × ℕ)
put_cursor board cursor [] = (board, cursor) ∷ []
put_cursor board cursor ((other, old) ∷ m) =
    let rest = put_cursor board cursor m in
    elim (compare board other) [
      | Ordering.lt ↦ (board, cursor) ∷ (other, old) ∷ m
      | Ordering.gt ↦ (other, old) ∷ rest
      | Ordering.eq ↦ (other, cursor) ∷ m
    ]

-- `values().copied().max()`.
abbrev pub max_cursor : List (String × ℕ) → Option ℕ
max_cursor [] = none
max_cursor ((board, cursor) ∷ m) = elim (max_cursor m) [
  | none ↦ some cursor
  | some other ↦ some (max cursor other)
]

abbrev pub or_else : Option ℕ → ℕ → ℕ
or_else none n = n
or_else (some m) n = m

-- An event between the start and the end of the body, of a board of the loop, that is not of the loop.
abbrev pub is_inside : LoopRegion → ℕ → ℕ → List String → ℕ → String → Option ℕ → ℕ → Bool
is_inside region start end boards epoch board scope offset =
    (epoch == region.epoch)
    && (has_board board boards
        && (not (has_scope scope region.marker_group_id) && (leb start offset && leb offset end)))

abbrev pub is_after : LoopRegion → ℕ → ℕ → ℕ → Bool
is_after region end epoch offset =
    ltb region.epoch epoch || ((epoch == region.epoch) && ltb end offset)

abbrev pub displace_ttl : LoopRegion → ℕ → ℕ → List String → ℕ → TtlEvent → TtlEvent
displace_ttl region start end boards after_body event =
    if is_inside region start end boards event.epoch event.board event.loop_scope
      event.offset_cycles
    then record event { offset_cycles = after_body }
    else event

unfoldable pub delay_ttl :
    LoopRegion → ℕ → ℕ → List TtlEvent → Result OasmCompileError (List TtlEvent)
delay_ttl region end loop_delta [] = ok []
delay_ttl region end loop_delta (event ∷ rest) =
    (if is_after region end event.epoch event.offset_cycles
      then checked_add event.offset_cycles loop_delta post_loop_ttl_overflow
      else ok event.offset_cycles)
    >>= λ offset. delay_ttl region end loop_delta rest >>= λ done.
        ok (record event { offset_cycles = offset } ∷ done)

unfoldable pub delay_origins : ℕ → ℕ → List (ℕ × ℕ) → Result OasmCompileError (List (ℕ × ℕ))
delay_origins end loop_delta [] = ok []
delay_origins end loop_delta ((epoch, origin) ∷ rest) =
    (if ltb end origin then checked_add origin loop_delta origin_overflow else ok origin)
    >>= λ moved. delay_origins end loop_delta rest >>= λ done. ok ((epoch, moved) ∷ done)

-- What `apply_loop_timing` changes.
pub record LoopState (Json : Type 0) : Type 0 where
  pub ttl_events : List TtlEvent
  pub direct_events : List (DirectEvent Json)
  pub epoch_origins : List (ℕ × ℕ)

module _ {Json : Type 0} where
  -- The offset of the marker that begins the loop, or the start of its region.
  abbrev pub loop_start : LoopRegion → List (DirectEvent Json) → ℕ
  loop_start region [] = region.start
  loop_start region (event ∷ rest) =
      if (event.group_id == region.marker_group_id) && is_loop_begin event.function
      then event.offset_cycles
      else loop_start region rest

  abbrev pub is_direct_body : LoopRegion → DirectEvent Json → Bool
  is_direct_body region event =
      (event.epoch == region.epoch)
      && (has_scope event.loop_scope region.marker_group_id
          && not (event.group_id == region.marker_group_id))

  abbrev pub loop_boards : LoopRegion → LoopState Json → List String
  loop_boards region s =
      map (λ (event : DirectEvent Json). event.board) (keep (is_direct_body region) s.direct_events)
      ++ map (λ (event : TtlEvent). event.board) (keep (is_ttl_body region) s.ttl_events)

  abbrev pub displace_direct :
      LoopRegion → ℕ → ℕ → List String → ℕ → DirectEvent Json → DirectEvent Json
  displace_direct region start end boards after_body event =
      if is_inside region start end boards event.epoch event.board event.loop_scope
        event.offset_cycles
      then record event { offset_cycles = after_body }
      else event

  -- The two loops that move events out of the body.
  unfoldable pub displace : LoopRegion → ℕ → ℕ → ℕ → LoopState Json → LoopState Json
  displace region start end after_body s =
      let boards = loop_boards region s in
      record {
        ttl_events = map (displace_ttl region start end boards after_body) s.ttl_events;
        direct_events = map (displace_direct region start end boards after_body) s.direct_events;
        epoch_origins = s.epoch_origins;
      }

  -- `entry(board).or_default().push(event)`.
  unfoldable pub push_board :
      DirectEvent Json
      → List (String × List (DirectEvent Json))
      → List (String × List (DirectEvent Json))
  push_board event [] = (event.board, event ∷ []) ∷ []
  push_board event ((board, events) ∷ m) =
      let rest = push_board event m in
      elim (compare event.board board) [
        | Ordering.lt ↦ (event.board, event ∷ []) ∷ (board, events) ∷ m
        | Ordering.gt ↦ (board, events) ∷ rest
        | Ordering.eq ↦ (board, events ++ event ∷ []) ∷ m
      ]

  unfoldable pub body_events_by_board :
      List (DirectEvent Json)
      → List (String × List (DirectEvent Json))
      → List (String × List (DirectEvent Json))
  body_events_by_board [] m = m
  body_events_by_board (event ∷ rest) m = body_events_by_board rest (push_board event m)

  abbrev pub loop_ttl_call : LoopRegion → TtlOffset → DirectEvent Json
  loop_ttl_call region t = record {
    epoch = region.epoch;
    offset_cycles = t.offset_cycles;
    board = t.board;
    function = ttl_set;
    args = [];
    instruction_cost_cycles = 1;
    order = t.order;
    group_id = t.order.sequence;
    preload = false;
    loop_scope = some region.marker_group_id;
  }

  -- The loop over the scheduled events of the body.
  unfoldable pub run_body :
      ℕ → List (DirectEvent Json) → List (String × ℕ) → Result OasmCompileError (List (String × ℕ))
  run_body start [] cursors = ok cursors
  run_body start (event ∷ rest) cursors =
      checked_add (max event.offset_cycles (cursor_of event.board start cursors))
        event.instruction_cost_cycles loop_cursor_overflow
      >>= λ cursor. run_body start rest (put_cursor event.board cursor cursors)

  -- The body of the last loop over the direct events.
  abbrev pub delay_event :
      LoopRegion → ℕ → ℕ → ℕ → DirectEvent Json → Result OasmCompileError (DirectEvent Json)
  delay_event region end loop_delta marker_extra event =
      if (event.group_id == region.marker_group_id) && is_loop_end event.function
      then (checked_add event.instruction_cost_cycles marker_extra loop_marker_overflow >>= λ cost.
          ok (record event { instruction_cost_cycles = cost }))
      else if is_after region end event.epoch event.offset_cycles
      then (checked_add event.offset_cycles loop_delta post_loop_overflow >>= λ offset.
          ok (record event { offset_cycles = offset }))
      else ok event

  unfoldable pub delay_direct :
      LoopRegion
      → ℕ
      → ℕ
      → ℕ
      → List (DirectEvent Json)
      → Result OasmCompileError (List (DirectEvent Json))
  delay_direct region end loop_delta marker_extra [] = ok []
  delay_direct region end loop_delta marker_extra (event ∷ rest) =
      delay_event region end loop_delta marker_extra event >>= λ delayed.
      delay_direct region end loop_delta marker_extra rest >>= λ done. ok (delayed ∷ done)

  -- What follows `loop_delta == 0`, but for the total.
  unfoldable pub delay_after :
      LoopRegion → ℕ → ℕ → ℕ → LoopState Json → Result OasmCompileError (LoopState Json)
  delay_after region end body_delta loop_delta s = do
    direct_events ← delay_direct region end loop_delta (loop_delta - body_delta) s.direct_events
    ttl_events ← delay_ttl region end loop_delta s.ttl_events
    epoch_origins ← delay_origins end loop_delta s.epoch_origins
    ok (record {
      ttl_events = ttl_events;
      direct_events = direct_events;
      epoch_origins = epoch_origins;
    })

module _ {Json : Type 0}
    (rwg_load_waveform_cost : DirectEvent Json → Result OasmCompileError ℕ) where
  -- How long the body takes on its boards, from the events in it.
  unfoldable pub body_duration : LoopRegion → ℕ → ℕ → LoopState Json → Result OasmCompileError ℕ
  body_duration region start end s = do
    scheduled ←
        schedule_board_events rwg_load_waveform_cost
          (map (λ (entry : String × List (DirectEvent Json)). entry.1)
            (body_events_by_board (keep (is_direct_body region) s.direct_events) []))
          (map (loop_ttl_call region) (ttl_by_offset (keep (is_ttl_body region) s.ttl_events) []))
    cursors ← run_body start scheduled []
    ok (max (or_else (max_cursor cursors) end - start) region.body_duration)

  -- One turn of the loop over the regions: what it adds to the total, and the state.
  unfoldable pub apply_region :
      LoopRegion → LoopState Json → Result OasmCompileError (ℕ × LoopState Json)
  apply_region region s =
      let start = loop_start region s.direct_events in
      checked_add start region.body_duration loop_end_overflow >>= λ end.
      checked_add end 1 loop_boundary_overflow >>= λ after_body.
      let displaced = displace region start end after_body s in
      body_duration region start end displaced >>= λ actual.
      let body_delta = actual - region.body_duration in
      checked_mul body_delta region.count loop_delta_overflow >>= λ loop_delta.
      if loop_delta == 0
      then ok (0, displaced)
      else (delay_after region end body_delta loop_delta displaced >>= λ done.
          ok (loop_delta, done))

  unfoldable pub apply_loop_timing :
      List LoopRegion → ℕ → LoopState Json → Result OasmCompileError (ℕ × LoopState Json)
  apply_loop_timing [] total_delta s = ok (total_delta, s)
  apply_loop_timing (region ∷ rest) total_delta s = apply_region region s >>= λ done.
      checked_add total_delta done.0 program_delta_overflow >>= λ total.
      apply_loop_timing rest total done.1

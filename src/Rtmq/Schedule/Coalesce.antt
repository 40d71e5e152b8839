-- ===== src/Rtmq/Schedule/Coalesce.antt =====
-- rust/catseq-rtmq/src/oasm_call_plan/scheduler.rs, `coalesce_direct_events`: events of one offset and
-- one function that work on masks become one event.
pub mod Distinct
pub mod Kept
pub mod Merged
use catseq.Prelude.{
  ℕ, max, ◌==◌, bit_or, Bool, true, false, ◌&&◌, if◌then◌else◌, List, [], ◌∷◌, ◌++◌, Result, ok,
  err, ◌>>=◌,
}
use catseq.Prelude.Sort.{sort_by_key}
use catseq.Rtmq.Schedule.{
  OasmFunction, OasmArgument, DirectEvent, OasmCompileError, function_index, min_order, ttl_config,
  rwg_init, rwg_play, unsigned, coalesced_arity, coalesced_argument,
}

abbrev pub coalesce_priority : OasmFunction → ℕ
coalesce_priority rwg_init = 0
coalesce_priority ttl_config = 1
coalesce_priority rwg_play = 2
coalesce_priority _ = 3

abbrev pub is_mergeable : OasmFunction → Bool
is_mergeable ttl_config = true
is_mergeable rwg_init = true
is_mergeable rwg_play = true
is_mergeable _ = false

abbrev is_rwg_init : OasmFunction → Bool
is_rwg_init rwg_init = true
is_rwg_init _ = false

module _ {Json : Type 0} where
  abbrev pub coalesce_key : DirectEvent Json → List ℕ
  coalesce_key event = event.offset_cycles ∷ coalesce_priority event.function ∷ []

  -- The filter on the last of the coalesced events.
  abbrev pub takes : DirectEvent Json → DirectEvent Json → Bool
  takes previous event =
      is_mergeable event.function
      && ((previous.offset_cycles == event.offset_cycles)
          && (function_index previous.function == function_index event.function))

  -- The loop over the two arguments.
  unfoldable pub merge_args :
      List (OasmArgument Json)
      → List (OasmArgument Json)
      → Result OasmCompileError (List (OasmArgument Json))
  merge_args (a ∷ b ∷ []) (c ∷ d ∷ []) =
      merge_arg a c >>= λ left. merge_arg b d >>= λ right. ok (left ∷ right ∷ [])
    where
      merge_arg :
          OasmArgument Json → OasmArgument Json → Result OasmCompileError (OasmArgument Json)
      merge_arg (unsigned left) (unsigned right) = ok (unsigned (bit_or left right))
      merge_arg _ _ = err coalesced_argument
  merge_args _ _ = err coalesced_arity

  abbrev pub merged_args :
      DirectEvent Json → DirectEvent Json → Result OasmCompileError (List (OasmArgument Json))
  merged_args previous event =
      if is_rwg_init event.function then ok previous.args else merge_args previous.args event.args

  -- The event `previous` after it took in `event`.
  unfoldable pub merge_event :
      DirectEvent Json → DirectEvent Json → Result OasmCompileError (DirectEvent Json)
  merge_event previous event = merged_args previous event >>= λ args. ok (record previous {
    instruction_cost_cycles = max previous.instruction_cost_cycles event.instruction_cost_cycles;
    order = min_order previous.order event.order;
    args = args;
  })

  -- The loop, with the last of the coalesced events at hand.
  unfoldable pub coalesce_after :
      DirectEvent Json → List (DirectEvent Json) → Result OasmCompileError (List (DirectEvent Json))
  coalesce_after previous [] = ok (previous ∷ [])
  coalesce_after previous (event ∷ rest) = elim (takes previous event) [
    | true ↦ merge_event previous event >>= λ merged. coalesce_after merged rest
    | false ↦ coalesce_after event rest >>= λ done. ok (previous ∷ done)
  ]

  abbrev pub coalesce_sorted :
      List (DirectEvent Json) → Result OasmCompileError (List (DirectEvent Json))
  coalesce_sorted [] = ok []
  coalesce_sorted (event ∷ rest) = coalesce_after event rest

  unfoldable pub coalesce_direct_events :
      List (DirectEvent Json) → Result OasmCompileError (List (DirectEvent Json))
  coalesce_direct_events events = coalesce_sorted (sort_by_key coalesce_key events)

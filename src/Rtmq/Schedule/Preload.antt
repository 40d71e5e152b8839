-- ===== src/Rtmq/Schedule/Preload.antt =====
-- rust/catseq-rtmq/src/oasm_call_plan/scheduler.rs: the preloads of a waveform before its play, and
-- the handoffs in which a later group of preloads takes the place of an earlier one. A set of keys is
-- a list of them, and `BTreeMap` a list of entries in the order of their keys.
pub mod Moves
pub mod Groups
use catseq.Prelude.{
  ℕ, suc, zero, ◌+◌, ◌-◌, ◌<◌, ◌^◌, min, max, ◌==◌, ltb, Bool, true, false, not, ◌&&◌, ◌||◌,
  if◌then◌else◌, Option, none, some, List, [], ◌∷◌, ◌++◌, map, length, get_elem?, set, Result, ok,
  err, ◌>>=◌,
}
use mathlib.Core.List.{reverse}
use catseq.Prelude.Sort.{sort_by_key, keep, key_leb, key_eqb}
use catseq.Rtmq.Schedule.{
  OasmFunction, DirectEvent, EventOrder, OasmCompileError, order_key, is_rwg_play, checked_add,
  saturating_add, preload_cost_overflow, index_panic,
}

abbrev any {ℓ} : {A : Type ℓ} → (A → Bool) → List A → Bool
any p [] = false
any p (x ∷ xs) = p x || any p xs

-- `insert` on a set of numbers.
abbrev insert_number : ℕ → List ℕ → List ℕ
insert_number n ns = if any (λ m. m == n) ns then ns else n ∷ ns

-- A key of the groups of preloads, with its deadline, and the places of its events.
pub record PreloadGroup : Type 0 where
  pub group_id : ℕ
  pub deadline : ℕ
  pub order : EventOrder
  pub indices : List ℕ

abbrev is_latest : Option ℕ → ℕ → Bool
is_latest none group_id = true
is_latest (some group) group_id = group == group_id

abbrev pub group_key : PreloadGroup → List ℕ
group_key g = g.group_id ∷ g.deadline ∷ order_key g.order

-- `entry(..).or_default().push(index)`.
abbrev pub enter : PreloadGroup → List PreloadGroup → List PreloadGroup
enter new [] = new ∷ []
enter new (g ∷ groups) =
    let rest = enter new groups in
    if key_eqb (group_key new) (group_key g)
    then record g { indices = g.indices ++ new.indices } ∷ groups
    else if key_leb (group_key new) (group_key g)
    then new ∷ g ∷ groups
    else g ∷ rest

module _ {Json : Type 0} where
  -- `PreloadKey`.
  abbrev pub preload_key : DirectEvent Json → List ℕ
  preload_key event = event.offset_cycles ∷ event.order.channel_kind ∷ event.order.local_id ∷ []

  -- The entry of a key in `preload_groups`, and in `latest_groups`.
  abbrev groups_of : List ℕ → List (DirectEvent Json) → List ℕ
  groups_of key [] = []
  groups_of key (event ∷ rest) =
      let groups = groups_of key rest in
      if event.preload && key_eqb (preload_key event) key
      then insert_number event.group_id groups
      else groups

  abbrev latest_of : List ℕ → List (DirectEvent Json) → Option ℕ
  latest_of key [] = none
  latest_of key (event ∷ rest) =
      let latest = latest_of key rest in
      if event.preload && key_eqb (preload_key event) key
      then elim latest [ none ↦ some event.group_id | some group ↦ some (max group event.group_id) ]
      else latest

  unfoldable pub fused_handoffs : List (DirectEvent Json) → List (List ℕ)
  fused_handoffs events =
      keep (λ key. ltb 1 (length (groups_of key events)))
        (map preload_key (keep (λ (event : DirectEvent Json). event.preload) events))

  unfoldable pub eliminate_superseded_preloads : List (DirectEvent Json) → List (DirectEvent Json)
  eliminate_superseded_preloads events =
      keep
        (λ (event : DirectEvent Json).
          not event.preload || is_latest (latest_of (preload_key event) events) event.group_id)
        events

  unfoldable pub remove_fused_handoff_plays :
      List (List ℕ) → List (DirectEvent Json) → List (DirectEvent Json)
  remove_fused_handoff_plays fused events =
      keep
        (λ (event : DirectEvent Json).
          not (is_rwg_play event.function) || not (any (key_eqb (preload_key event)) fused))
        events

  abbrev pub new_group : ℕ → DirectEvent Json → PreloadGroup
  new_group index event = record {
    group_id = event.group_id;
    deadline = event.offset_cycles;
    order = event.order;
    indices = index ∷ [];
  }

  -- The loop over the events, from an index.
  unfoldable pub group_preloads :
      ℕ → List (DirectEvent Json) → List PreloadGroup → List PreloadGroup
  group_preloads index [] groups = groups
  group_preloads index (event ∷ rest) groups =
      group_preloads (suc index) rest
        (if event.preload then enter (new_group index event) groups else groups)

  -- The play that a group of preloads is for.
  abbrev pub is_play_of : PreloadGroup → DirectEvent Json → Bool
  is_play_of g event =
      (event.group_id == g.group_id)
      && ((event.offset_cycles == g.deadline) && is_rwg_play event.function)

  unfoldable pub preload_pairs : List (DirectEvent Json) → List PreloadGroup
  preload_pairs events =
      sort_by_key (λ (g : PreloadGroup). g.deadline ∷ order_key g.order)
        (keep (λ g. any (is_play_of g) events) (group_preloads 0 events []))

  -- The sum of the costs of a group.
  unfoldable pub preload_cost : List (DirectEvent Json) → List ℕ → ℕ → Result OasmCompileError ℕ
  preload_cost events [] total = ok total
  preload_cost events (index ∷ rest) total = elim (get_elem? events index) [
    | none ↦ err index_panic
    | some event ↦ checked_add total event.instruction_cost_cycles preload_cost_overflow >>= λ sum.
        preload_cost events rest sum
  ]

  -- An event that a group must not run into, where the two overlap.
  abbrev pub conflicts : PreloadGroup → ℕ → ℕ → DirectEvent Json → Bool
  conflicts g start end event =
      not (event.preload || is_play_of g event)
      && (ltb start (saturating_add event.offset_cycles event.instruction_cost_cycles)
          && ltb event.offset_cycles end)

  unfoldable pub first_conflict : PreloadGroup → ℕ → ℕ → List (DirectEvent Json) → Option ℕ
  first_conflict g start end [] = none
  first_conflict g start end (event ∷ rest) =
      let later = first_conflict g start end rest in
      if conflicts g start end event
      then elim later [
        | none ↦ some event.offset_cycles
        | some offset ↦ some (min event.offset_cycles offset)
      ]
      else later

  -- When a group starts, with the limit that the groups after it set.
  unfoldable pub preload_start : PreloadGroup → ℕ → ℕ → List (DirectEvent Json) → ℕ
  preload_start g next_load_available cost events =
      let latest_finish = min g.deadline next_load_available in
      let proposed_start = latest_finish - cost in
      let proposed_end = saturating_add proposed_start cost in
      elim (first_conflict g proposed_start proposed_end events) [
        | none ↦ latest_finish - cost
        | some finish ↦ finish - cost
      ]

  abbrev pub moved : ℕ → DirectEvent Json → DirectEvent Json
  moved start event = record event { offset_cycles = start }

  -- The loop that writes the start, which panics where an index is out of range.
  unfoldable pub move_all :
      ℕ → List ℕ → List (DirectEvent Json) → Result OasmCompileError (List (DirectEvent Json))
  move_all start [] events = ok events
  move_all start (index ∷ rest) events = elim (get_elem? events index) [
    | none ↦ err index_panic
    | some event ↦ move_all start rest (set events index (moved start event))
  ]

  -- The loop over the groups, the last deadline first.
  unfoldable pub place_groups :
      List PreloadGroup
      → ℕ
      → List (DirectEvent Json)
      → Result OasmCompileError (List (DirectEvent Json))
  place_groups [] next_load_available events = ok events
  place_groups (g ∷ rest) next_load_available events = preload_cost events g.indices 0 >>= λ cost.
      let start = preload_start g next_load_available cost events in
      move_all start g.indices events >>= λ placed. place_groups rest start placed

  unfoldable pub schedule_preloads :
      List (DirectEvent Json) → Result OasmCompileError (List (DirectEvent Json))
  schedule_preloads events = place_groups (reverse (preload_pairs events)) (2 ^ 64 - 1) events

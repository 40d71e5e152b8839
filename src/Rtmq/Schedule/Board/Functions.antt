-- ===== src/Rtmq/Schedule/Board/Functions.antt =====
-- Which functions a schedule has: those of the events that went into it.
use catseq.Prelude.{
  ℕ, ◌==◌, ltb, ◌≡◌, not, List, [], ◌∷◌, ◌++◌, get_elem?, set, Result, ok, err, fail_if, >>=-eq-ok,
  >>-ok, All, All-append, All-set, All-get_elem?, ok_inj, sym, ap, inl, inr, Bool-cases,
  Option-cases,
}
use mathlib.Core.Path.{subst}
use mathlib.Core.List.{reverse}
use catseq.Prelude.Sort.{All-keep, All-sort_by_key}
use catseq.Rtmq.Schedule.{
  OasmFunction, DirectEvent, OasmCompileError, oasm_call_cost, wrong_direct_epoch,
  early_direct_event, index_panic,
}
use catseq.Rtmq.Schedule.Coalesce.{
  coalesce_key, takes, merge_event, merged_args, coalesce_after, coalesce_sorted,
  coalesce_direct_events,
}
use catseq.Rtmq.Schedule.Preload.{
  PreloadGroup, moved, move_all, place_groups, preload_cost, preload_start, preload_pairs,
  schedule_preloads, eliminate_superseded_preloads, remove_fused_handoff_plays,
}
use catseq.Rtmq.Schedule.Board.{
  rebase_direct, raise_costs, schedule_key, schedule_partition, schedule_partitions,
  schedule_board_events,
}

module _ {Json : Type 0} (P : OasmFunction → Type 0) where
  abbrev pub OfFunction : DirectEvent Json → Type 0
  OfFunction event = P event.function

  pub rebase_direct-All :
      (epoch origin : ℕ) (events done : List (DirectEvent Json))
      → All OfFunction events
      → rebase_direct epoch origin events ≡ ok done
      → All OfFunction done
  unfolding rebase_direct
  rebase_direct-All epoch origin [] done h e = rw (sym (ok_inj e)) tt
  rebase_direct-All epoch origin (event ∷ rest) done (p, h) e =
      let (epoch_fits, e1) = >>-ok (fail_if (not (event.epoch == epoch)) wrong_direct_epoch) _ e in
      let (offset_fits, e2) =
        >>-ok (fail_if (ltb event.offset_cycles origin) early_direct_event) _ e1 in
      let (later, e3, e4) = >>=-eq-ok (rebase_direct epoch origin rest) _ e2 in
      subst (All OfFunction) (ok_inj e4) (p, rebase_direct-All epoch origin rest later h e3)

  move_all-All :
      (start : ℕ) (indices : List ℕ) (events done : List (DirectEvent Json))
      → All OfFunction events
      → move_all start indices events ≡ ok done
      → All OfFunction done
  unfolding move_all
  move_all-All start [] events done h q = subst (All OfFunction) (ok_inj q) h
  move_all-All start (index ∷ rest) events done h q = elim (Option-cases (get_elem? events index)) [
    | inl e ↦ absurd (clash (rw (e, move_all) at q))
    | inr (event, e) ↦
        move_all-All start rest (set events index (moved start event)) done
          (All-set OfFunction events index (moved start event) h
            (All-get_elem? OfFunction events index event h e))
          (rw (e, move_all) at q)
  ]
    where
      clash :
          ◌≡◌ {A = Result OasmCompileError (List (DirectEvent Json))} (err index_panic) (ok done)
          → ⊥
      clash p = cc

  place_groups-All :
      (groups : List PreloadGroup) (next : ℕ) (events done : List (DirectEvent Json))
      → All OfFunction events
      → place_groups groups next events ≡ ok done
      → All OfFunction done
  unfolding place_groups
  place_groups-All [] next events done h e = rw (sym (ok_inj e)) h
  place_groups-All (g ∷ groups) next events done h e =
      let (cost, e1, e2) = >>=-eq-ok (preload_cost events g.indices 0) _ e in
      let start = preload_start g next cost events in
      let (placed, e3, e4) = >>=-eq-ok (move_all start g.indices events) _ e2 in
      place_groups-All groups start placed done (move_all-All start g.indices events placed h e3) e4

  merge_event-function :
      (previous event merged : DirectEvent Json)
      → merge_event previous event ≡ ok merged
      → merged.function ≡ previous.function
  unfolding merge_event
  merge_event-function previous event merged e =
      let (args, e1, e2) = >>=-eq-ok (merged_args previous event) _ e in
      ap (λ (m : DirectEvent Json). m.function) (sym (ok_inj e2))

  coalesce_after-All :
      (events : List (DirectEvent Json)) (previous : DirectEvent Json)
      (done : List (DirectEvent Json))
      → P previous.function
      → All OfFunction events
      → coalesce_after previous events ≡ ok done
      → All OfFunction done
  unfolding coalesce_after
  coalesce_after-All [] previous done p h e = subst (All OfFunction) (ok_inj e) (p, tt)
  coalesce_after-All (event ∷ rest) previous done p (q, h) e =
      elim (Bool-cases (takes previous event)) [
        | inl hit ↦
            let (merged, e1, e2) =
              >>=-eq-ok (merge_event previous event) _ (rw (hit, coalesce_after) at e) in
            coalesce_after-All rest merged done
              (subst P (sym (merge_event-function previous event merged e1)) p) h e2
        | inr miss ↦
            let (later, e1, e2) =
              >>=-eq-ok (coalesce_after event rest) _ (rw (miss, coalesce_after) at e) in
            subst (All OfFunction) (ok_inj e2) (p, coalesce_after-All rest event later q h e1)
      ]

  coalesce_sorted-All :
      (events done : List (DirectEvent Json))
      → All OfFunction events
      → coalesce_sorted events ≡ ok done
      → All OfFunction done
  coalesce_sorted-All [] done h e = subst (All OfFunction) (ok_inj e) tt
  coalesce_sorted-All (event ∷ rest) done (p, h) e = coalesce_after-All rest event done p h e

  module _ (rwg_load_waveform_cost : DirectEvent Json → Result OasmCompileError ℕ) where
    pub raise_costs-All :
        (events done : List (DirectEvent Json))
        → All OfFunction events
        → raise_costs rwg_load_waveform_cost events ≡ ok done
        → All OfFunction done
    unfolding raise_costs
    raise_costs-All [] done h e = subst (All OfFunction) (ok_inj e) tt
    raise_costs-All (event ∷ rest) done (p, h) e =
        let (cost, e1, e2) = >>=-eq-ok (oasm_call_cost rwg_load_waveform_cost event) _ e in
        let (later, e3, e4) = >>=-eq-ok (raise_costs rwg_load_waveform_cost rest) _ e2 in
        subst (All OfFunction) (ok_inj e4) (p, raise_costs-All rest later h e3)

    schedule_partition-All :
        (events done : List (DirectEvent Json))
        → All OfFunction events
        → schedule_partition rwg_load_waveform_cost events ≡ ok done
        → All OfFunction done
    unfolding schedule_partition schedule_preloads eliminate_superseded_preloads
        remove_fused_handoff_plays coalesce_direct_events
    schedule_partition-All events done h e =
        let (raised, e1, e2) = >>=-eq-ok (raise_costs rwg_load_waveform_cost events) _ e in
        let r = raise_costs-All events raised h e1 in
        let k = All-keep OfFunction _ raised r in
        let (placed, e3, e4) =
          >>=-eq-ok (schedule_preloads (eliminate_superseded_preloads raised)) _ e2 in
        let q =
          place_groups-All (reverse (preload_pairs (eliminate_superseded_preloads raised))) _ _
            placed k e3 in
        coalesce_sorted-All _ done
          (All-sort_by_key coalesce_key OfFunction _ (All-keep OfFunction _ placed q)) e4

    schedule_partitions-All :
        (partitions : List (List (DirectEvent Json))) (done : List (DirectEvent Json))
        → All (All OfFunction) partitions
        → schedule_partitions rwg_load_waveform_cost partitions ≡ ok done
        → All OfFunction done
    unfolding schedule_partitions
    schedule_partitions-All [] done h e = subst (All OfFunction) (ok_inj e) tt
    schedule_partitions-All (events ∷ rest) done (p, h) e =
        let (first, e1, e2) = >>=-eq-ok (schedule_partition rwg_load_waveform_cost events) _ e in
        let (others, e3, e4) = >>=-eq-ok (schedule_partitions rwg_load_waveform_cost rest) _ e2 in
        subst (All OfFunction) (ok_inj e4) (
          All-append OfFunction first others (schedule_partition-All events first p e1)
            (schedule_partitions-All rest others h e3))

    pub schedule_board_events-All :
        (partitions : List (List (DirectEvent Json))) (additional done : List (DirectEvent Json))
        → All (All OfFunction) partitions
        → All OfFunction additional
        → schedule_board_events rwg_load_waveform_cost partitions additional ≡ ok done
        → All OfFunction done
    unfolding schedule_board_events
    schedule_board_events-All partitions additional done h k e =
        let (scheduled, e1, e2) =
          >>=-eq-ok (schedule_partitions rwg_load_waveform_cost partitions) _ e in
        let (raised, e3, e4) =
          >>=-eq-ok (raise_costs rwg_load_waveform_cost (scheduled ++ additional)) _ e2 in
        let s = schedule_partitions-All partitions scheduled h e1 in
        subst (All OfFunction) (ok_inj e4) (
          All-sort_by_key schedule_key OfFunction raised (
            raise_costs-All (scheduled ++ additional) raised
              (All-append OfFunction scheduled additional s k) e3))

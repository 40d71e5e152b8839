-- ===== src/Rtmq/Schedule/Board/NoPanic.antt =====
-- No index of the scheduler runs past its events.
use catseq.Prelude.{
  ℕ, ◌==◌, ltb, ◌≡◌, ◌≢◌, Bool, true, false, not, if◌then◌else◌, List, [], ◌∷◌, Result, ok, err,
  ◌>>=◌, ◌>>◌, fail_if, inl, inr, arith, ap, Bool-cases, Option-cases,
}
use catseq.Rtmq.Schedule.{
  DirectEvent, TtlEvent, BoardEpochInput, OasmArgument, OasmFunction, OasmCompileError, index_panic,
  rwg_set_carrier, rwg_rf_switch, fixed_oasm_call_cost, variable_cost, second_argument_cost,
  rwg_set_carrier_cost, oasm_call_cost, wrong_ttl_epoch, early_ttl_event, wrong_direct_epoch,
  early_direct_event,
}
use catseq.Rtmq.Schedule.Coalesce.{
  merge_args, merged_args, merge_event, coalesce_after, coalesce_sorted, coalesce_direct_events,
  takes,
}
use catseq.Rtmq.Schedule.Preload.{schedule_preloads, eliminate_superseded_preloads}
use catseq.Rtmq.Schedule.Preload.Moves.{schedule_preloads_cases}
use catseq.Rtmq.Schedule.Board.{
  rebase_ttl, rebase_direct, lay_out, raise_costs, schedule_partition, schedule_partitions,
  schedule_board_events, compile_board,
}
use catseq.Rtmq.Schedule.Board.Overflow.{lay_out_cases}

abbrev pub NoPanic {ℓ} : {A : Type ℓ} → Result OasmCompileError A → Type ℓ
NoPanic r = r ≢ err index_panic

NoPanic-ok {ℓ} : {A : Type ℓ} (a : A) → NoPanic {A = A} (ok a)
NoPanic-ok a h = cc

err_inj {ℓ} :
    {A : Type ℓ} {e f : OasmCompileError}
    → ◌≡◌ {A = Result OasmCompileError A} (err e) (err f)
    → e ≡ f
err_inj q = cc

NoPanic-if {ℓ} :
    {A : Type ℓ} (b : Bool) (r s : Result OasmCompileError A)
    → NoPanic r
    → NoPanic s
    → NoPanic (if b then r else s)
NoPanic-if true r s h k = h
NoPanic-if false r s h k = k

NoPanic-bind {ℓ κ} :
    {A : Type ℓ} {B : Type κ} (r : Result OasmCompileError A) (f : A → Result OasmCompileError B)
    → NoPanic r
    → ((a : A) → NoPanic (f a))
    → NoPanic (r >>= f)
NoPanic-bind (ok a) f h k = k a
NoPanic-bind (err e) f h k = λ q. h (ap err (err_inj q))

NoPanic-fail_if {κ} :
    {B : Type κ} (b : Bool) (e : OasmCompileError) (r : Result OasmCompileError B)
    → e ≢ index_panic
    → NoPanic r
    → NoPanic (fail_if b e >> r)
NoPanic-fail_if true e r h k = λ q. h (err_inj q)
NoPanic-fail_if false e r h k = k

rebase_ttl-NoPanic :
    (epoch origin : ℕ) (events : List TtlEvent) → NoPanic (rebase_ttl epoch origin events)
unfolding rebase_ttl
rebase_ttl-NoPanic epoch origin [] = NoPanic-ok []
rebase_ttl-NoPanic epoch origin (event ∷ rest) =
    NoPanic-fail_if (not (event.epoch == epoch)) wrong_ttl_epoch _ (λ q. cc)
      (NoPanic-fail_if (ltb event.offset_cycles origin) early_ttl_event _ (λ q. cc)
        (NoPanic-bind (rebase_ttl epoch origin rest) _ (rebase_ttl-NoPanic epoch origin rest)
          (λ done. NoPanic-ok _)))

module _ {Json : Type 0} where
  rebase_direct-NoPanic :
      (epoch origin : ℕ) (events : List (DirectEvent Json))
      → NoPanic (rebase_direct epoch origin events)
  unfolding rebase_direct
  rebase_direct-NoPanic epoch origin [] = NoPanic-ok []
  rebase_direct-NoPanic epoch origin (event ∷ rest) =
      NoPanic-fail_if (not (event.epoch == epoch)) wrong_direct_epoch _ (λ q. cc)
        (NoPanic-fail_if (ltb event.offset_cycles origin) early_direct_event _ (λ q. cc)
          (NoPanic-bind (rebase_direct epoch origin rest) _
            (rebase_direct-NoPanic epoch origin rest) (λ done. NoPanic-ok _)))

  merge_args-NoPanic : (xs ys : List (OasmArgument Json)) → NoPanic (merge_args xs ys)
  unfolding merge_args
  merge_args-NoPanic xs ys q = ground arith

  merge_event-NoPanic : (previous event : DirectEvent Json) → NoPanic (merge_event previous event)
  unfolding merge_event
  merge_event-NoPanic previous event =
      NoPanic-bind (merged_args previous event) _
        (NoPanic-if _ (ok previous.args) (merge_args previous.args event.args) (NoPanic-ok _)
          (merge_args-NoPanic _ _))
        (λ args. NoPanic-ok _)

  coalesce_after-NoPanic :
      (events : List (DirectEvent Json)) (previous : DirectEvent Json)
      → NoPanic (coalesce_after previous events)
  unfolding coalesce_after
  coalesce_after-NoPanic [] previous = NoPanic-ok _
  coalesce_after-NoPanic (event ∷ rest) previous = elim (Bool-cases (takes previous event)) [
    | inl hit ↦
        rw (hit, coalesce_after)
          (NoPanic-bind (merge_event previous event) (λ merged. coalesce_after merged rest)
            (merge_event-NoPanic previous event) (λ merged. coalesce_after-NoPanic rest merged))
    | inr miss ↦
        rw (miss, coalesce_after)
          (NoPanic-bind (coalesce_after event rest) _ (coalesce_after-NoPanic rest event)
            (λ done. NoPanic-ok _))
  ]

  coalesce_sorted-NoPanic : (events : List (DirectEvent Json)) → NoPanic (coalesce_sorted events)
  coalesce_sorted-NoPanic [] = NoPanic-ok _
  coalesce_sorted-NoPanic (event ∷ rest) = coalesce_after-NoPanic rest event

  schedule_preloads-NoPanic :
      (events : List (DirectEvent Json)) → NoPanic (schedule_preloads events)
  schedule_preloads-NoPanic events = elim (schedule_preloads_cases events) [
    | inl (done, e, fit) ↦ λ q. cc
    | inr (e, over) ↦ λ q. cc
  ]

  lay_out-NoPanic :
      (cursor duration : ℕ) (events : List (DirectEvent Json))
      → NoPanic (lay_out cursor duration events)
  lay_out-NoPanic cursor duration events = elim (lay_out_cases cursor duration events) [
    | inl (fit, (calls, e)) ↦ λ q. cc
    | inr (over, e) ↦ λ q. cc
  ]

  module _ (rwg_load_waveform_cost : DirectEvent Json → Result OasmCompileError ℕ) where
    abbrev CostsArePlain : Type 0
    CostsArePlain = (event : DirectEvent Json) → NoPanic (rwg_load_waveform_cost event)

    second_argument_cost-NoPanic :
        (args : List (OasmArgument Json))
        → NoPanic (second_argument_cost rwg_load_waveform_cost args)
    second_argument_cost-NoPanic args q = ground arith

    variable_cost-NoPanic :
        CostsArePlain
        → (f : OasmFunction) (event : DirectEvent Json)
        → NoPanic (variable_cost rwg_load_waveform_cost f event)
    unfolding rwg_set_carrier_cost
    variable_cost-NoPanic plain f event =
        elim f as (λ k. NoPanic (variable_cost rwg_load_waveform_cost k event)) [
          | rwg_set_carrier ↦ second_argument_cost-NoPanic event.args
          | rwg_rf_switch ↦ NoPanic-ok _
          | _ ↦ plain event
        ]

    oasm_call_cost-NoPanic :
        CostsArePlain
        → (event : DirectEvent Json) → NoPanic (oasm_call_cost rwg_load_waveform_cost event)
    unfolding oasm_call_cost
    oasm_call_cost-NoPanic plain event = elim (Option-cases (fixed_oasm_call_cost event.function)) [
      | inl e ↦ rw (e, oasm_call_cost) (variable_cost-NoPanic plain event.function event)
      | inr (cost, e) ↦ rw (e, oasm_call_cost) (NoPanic-ok cost)
    ]

    raise_costs-NoPanic :
        CostsArePlain
        → (events : List (DirectEvent Json)) → NoPanic (raise_costs rwg_load_waveform_cost events)
    unfolding raise_costs
    raise_costs-NoPanic plain [] = NoPanic-ok []
    raise_costs-NoPanic plain (event ∷ rest) =
        NoPanic-bind (oasm_call_cost rwg_load_waveform_cost event) _
          (oasm_call_cost-NoPanic plain event)
          (λ cost.
            NoPanic-bind (raise_costs rwg_load_waveform_cost rest) _
              (raise_costs-NoPanic plain rest) (λ done. NoPanic-ok _))

    schedule_partition-NoPanic :
        CostsArePlain
        → (events : List (DirectEvent Json))
        → NoPanic (schedule_partition rwg_load_waveform_cost events)
    unfolding schedule_partition coalesce_direct_events
    schedule_partition-NoPanic plain events =
        NoPanic-bind (raise_costs rwg_load_waveform_cost events) _
          (raise_costs-NoPanic plain events)
          (λ raised.
            NoPanic-bind (schedule_preloads (eliminate_superseded_preloads raised)) _
              (schedule_preloads-NoPanic (eliminate_superseded_preloads raised))
              (λ placed. coalesce_sorted-NoPanic _))

    schedule_partitions-NoPanic :
        CostsArePlain
        → (partitions : List (List (DirectEvent Json)))
        → NoPanic (schedule_partitions rwg_load_waveform_cost partitions)
    unfolding schedule_partitions
    schedule_partitions-NoPanic plain [] = NoPanic-ok []
    schedule_partitions-NoPanic plain (events ∷ rest) =
        NoPanic-bind (schedule_partition rwg_load_waveform_cost events) _
          (schedule_partition-NoPanic plain events)
          (λ first.
            NoPanic-bind (schedule_partitions rwg_load_waveform_cost rest) _
              (schedule_partitions-NoPanic plain rest) (λ others. NoPanic-ok _))

    -- Where the cost of a waveform is never the panic, the compilation of a board is not: whatever its
    -- events are, no index into them is out of range on any of its paths.
    pub compile_board-NoPanic :
        ((event : DirectEvent Json) → rwg_load_waveform_cost event ≢ err index_panic)
        → (input : BoardEpochInput Json) → NoPanic (compile_board rwg_load_waveform_cost input)
    unfolding compile_board schedule_board_events
    compile_board-NoPanic plain input =
        NoPanic-bind (rebase_ttl input.epoch input.origin_cycles input.ttl_events) _
          (rebase_ttl-NoPanic input.epoch input.origin_cycles input.ttl_events)
          (λ events.
            NoPanic-bind (rebase_direct input.epoch input.origin_cycles input.direct_events) _
              (rebase_direct-NoPanic input.epoch input.origin_cycles input.direct_events)
              (λ direct.
                NoPanic-bind (schedule_board_events rwg_load_waveform_cost (direct ∷ []) _) _
                  (NoPanic-bind (schedule_partitions rwg_load_waveform_cost (direct ∷ [])) _
                    (schedule_partitions-NoPanic plain (direct ∷ []))
                    (λ scheduled.
                      NoPanic-bind (raise_costs rwg_load_waveform_cost _) _
                        (raise_costs-NoPanic plain _) (λ raised. NoPanic-ok _)))
                  (λ scheduled.
                    NoPanic-bind (lay_out input.initial_cursor input.duration_cycles scheduled) _
                      (lay_out-NoPanic input.initial_cursor input.duration_cycles scheduled)
                      (λ calls. NoPanic-ok _))))

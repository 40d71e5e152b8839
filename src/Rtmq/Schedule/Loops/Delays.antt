-- ===== src/Rtmq/Schedule/Loops/Delays.antt =====
-- The timing of loops only delays.
use catseq.Prelude.{
  ℕ, ◌+◌, ◌-◌, ◌≤◌, ◌==◌, ◌≡◌, refl, arith, Bool, true, false, ◌&&◌, if◌then◌else◌, List, [], ◌∷◌,
  Result, ok, ◌>>=◌, >>=-eq-ok, ok_inj, sym, ap, ◌∙◌, inl, inr, Bool-cases,
}
use mathlib.Core.Path.{subst}
use Prim.Native.String.{String}
use catseq.Rtmq.Schedule.{
  DirectEvent, LoopRegion, OasmCompileError, checked_add, loop_end_overflow, loop_boundary_overflow,
  loop_delta_overflow, loop_marker_overflow, post_loop_overflow, program_delta_overflow,
}
use catseq.Rtmq.Schedule.Board.Layout.{checked_add-ok}
use catseq.Rtmq.Schedule.Loops.{
  LoopState, is_inside, is_after, is_loop_end, checked_mul, loop_start, loop_boards, displace_ttl,
  displace_direct, displace, delay_ttl, delay_event, delay_direct, delay_origins, delay_after,
  body_duration, apply_region, apply_loop_timing,
}
use catseq.Rtmq.Schedule.Loops.Ttl.{
  AllBoth, AllBoth-refl, AllBoth-trans, AllBoth-map, DelaysTtl, DelaysOrigin, inside_le,
  DelaysTtl-trans, DelaysOrigin-trans, displace_ttl-Delays, delay_ttl-Delays, delay_origins-Delays,
}

module _ {Json : Type 0} where
  -- The same direct event, not earlier; only the marker that ends a loop may cost more.
  abbrev pub DelaysDirect : DirectEvent Json → DirectEvent Json → Type 0
  DelaysDirect e f =
      (f ≡ record e {
        offset_cycles = f.offset_cycles;
        instruction_cost_cycles = f.instruction_cost_cycles;
      })
      × (e.offset_cycles ≤ f.offset_cycles)
      × (e.instruction_cost_cycles ≤ f.instruction_cost_cycles)
      × ((is_loop_end e.function ≡ false) → f.instruction_cost_cycles ≡ e.instruction_cost_cycles)

  DelaysDirect-refl : (e : DirectEvent Json) → DelaysDirect e e
  DelaysDirect-refl e = (refl, omega arith, omega arith, λ h. refl)

  DelaysDirect-trans :
      (e f g : DirectEvent Json) → DelaysDirect e f → DelaysDirect f g → DelaysDirect e g
  DelaysDirect-trans e f g (p, h, i, j) (q, k, l, m) = (
    q
        ∙ ap
            (λ (x : DirectEvent Json). record x {
              offset_cycles = g.offset_cycles;
              instruction_cost_cycles = g.instruction_cost_cycles;
            })
            p,
    omega arith,
    omega arith,
    λ plain. m (ap (λ (x : DirectEvent Json). is_loop_end x.function) p ∙ plain) ∙ j plain,
  )

  -- What the timing of loops may do to its state.
  pub record Delays (s t : LoopState Json) : Type 0 where
    pub ttl_events : AllBoth DelaysTtl s.ttl_events t.ttl_events
    pub direct_events : AllBoth DelaysDirect s.direct_events t.direct_events
    pub epoch_origins : AllBoth DelaysOrigin s.epoch_origins t.epoch_origins

  Delays-refl : (s : LoopState Json) → Delays s s
  Delays-refl s = record {
    ttl_events = AllBoth-refl DelaysTtl (λ e. (refl, omega arith)) s.ttl_events;
    direct_events = AllBoth-refl DelaysDirect DelaysDirect-refl s.direct_events;
    epoch_origins = AllBoth-refl DelaysOrigin (λ e. (refl, omega arith)) s.epoch_origins;
  }

  Delays-trans : (s t u : LoopState Json) → Delays s t → Delays t u → Delays s u
  Delays-trans s t u a b = record {
    ttl_events =
        AllBoth-trans DelaysTtl DelaysTtl-trans s.ttl_events t.ttl_events u.ttl_events a.ttl_events
          b.ttl_events;
    direct_events =
        AllBoth-trans DelaysDirect DelaysDirect-trans s.direct_events t.direct_events
          u.direct_events a.direct_events b.direct_events;
    epoch_origins =
        AllBoth-trans DelaysOrigin DelaysOrigin-trans s.epoch_origins t.epoch_origins
          u.epoch_origins a.epoch_origins b.epoch_origins;
  }

  displace_direct-Delays :
      (region : LoopRegion) (start end : ℕ) (boards : List String) (event : DirectEvent Json)
      → DelaysDirect event (displace_direct region start end boards (end + 1) event)
  displace_direct-Delays region start end boards event =
      elim (Bool-cases (
        is_inside region start end boards event.epoch event.board event.loop_scope
          event.offset_cycles)) [
            | inl h ↦
                let le =
                  inside_le region start end boards event.epoch event.board event.loop_scope
                    event.offset_cycles h in
                rw h (refl, omega arith, omega arith, λ q. refl)
            | inr h ↦ rw h (DelaysDirect-refl event)
          ]

  displace-Delays :
      (region : LoopRegion) (start end : ℕ) (s : LoopState Json)
      → Delays s (displace region start end (end + 1) s)
  unfolding displace
  displace-Delays region start end s =
      let boards = loop_boards region s in
      record {
        ttl_events =
            AllBoth-map DelaysTtl (displace_ttl region start end boards (end + 1))
              (displace_ttl-Delays region start end boards) s.ttl_events;
        direct_events =
            AllBoth-map DelaysDirect (displace_direct region start end boards (end + 1))
              (displace_direct-Delays region start end boards) s.direct_events;
        epoch_origins = AllBoth-refl DelaysOrigin (λ e. (refl, omega arith)) s.epoch_origins;
      }

  moved-Delays :
      (behind : Bool) (loop_delta : ℕ) (event done : DirectEvent Json)
      → (if behind
          then (checked_add event.offset_cycles loop_delta post_loop_overflow >>= λ offset.
              ok (record event { offset_cycles = offset }))
          else ok event)
        ≡ ok done
      → DelaysDirect event done
  moved-Delays true loop_delta event done e =
      let (offset, e1, e2) =
        >>=-eq-ok (checked_add event.offset_cycles loop_delta post_loop_overflow) _ e in
      let (fits, q) = checked_add-ok event.offset_cycles loop_delta post_loop_overflow offset e1 in
      subst (DelaysDirect event) (ok_inj e2) (refl, omega arith, omega arith, λ h. refl)
  moved-Delays false loop_delta event done e =
      subst (DelaysDirect event) (ok_inj e) (DelaysDirect-refl event)

  delay_event-Delays :
      (region : LoopRegion) (end loop_delta marker_extra : ℕ) (event done : DirectEvent Json)
      → delay_event region end loop_delta marker_extra event ≡ ok done
      → DelaysDirect event done
  delay_event-Delays region end loop_delta marker_extra event done e =
      by_test (event.group_id == region.marker_group_id) (is_loop_end event.function) refl
        (is_after region end event.epoch event.offset_cycles) e
    where
      by_test :
          (marked ends : Bool)
          → is_loop_end event.function ≡ ends
          → (behind : Bool)
          → (if marked && ends
              then (checked_add event.instruction_cost_cycles marker_extra loop_marker_overflow
                  >>= λ cost. ok (record event { instruction_cost_cycles = cost }))
              else if behind
              then (checked_add event.offset_cycles loop_delta post_loop_overflow >>= λ offset.
                  ok (record event { offset_cycles = offset }))
              else ok event)
            ≡ ok done
          → DelaysDirect event done
      by_test true true p behind e =
          let (cost, e1, e2) =
            >>=-eq-ok (checked_add event.instruction_cost_cycles marker_extra loop_marker_overflow)
              _ e in
          let (fits, q) =
            checked_add-ok event.instruction_cost_cycles marker_extra loop_marker_overflow cost
              e1 in
          subst (DelaysDirect event) (ok_inj e2)
            (refl, omega arith, omega arith, λ h. absurd (clash (sym p ∙ h)))
        where
          clash : true ≡ false → ⊥
          clash h = cc
      by_test true false p behind e = moved-Delays behind loop_delta event done e
      by_test false ends p behind e = moved-Delays behind loop_delta event done e

  delay_direct-Delays :
      (region : LoopRegion) (end loop_delta marker_extra : ℕ)
      (events done : List (DirectEvent Json))
      → delay_direct region end loop_delta marker_extra events ≡ ok done
      → AllBoth DelaysDirect events done
  unfolding delay_direct
  delay_direct-Delays region end loop_delta marker_extra [] done e =
      subst (AllBoth DelaysDirect []) (ok_inj e) tt
  delay_direct-Delays region end loop_delta marker_extra (event ∷ rest) done e =
      let (delayed, e1, e2) =
        >>=-eq-ok (delay_event region end loop_delta marker_extra event) _ e in
      let (later, e3, e4) = >>=-eq-ok (delay_direct region end loop_delta marker_extra rest) _ e2 in
      subst (AllBoth DelaysDirect (event ∷ rest)) (ok_inj e4) (
        delay_event-Delays region end loop_delta marker_extra event delayed e1,
        delay_direct-Delays region end loop_delta marker_extra rest later e3,
      )

  delay_after-Delays :
      (region : LoopRegion) (end body_delta loop_delta : ℕ) (s t : LoopState Json)
      → delay_after region end body_delta loop_delta s ≡ ok t
      → Delays s t
  unfolding delay_after
  delay_after-Delays region end body_delta loop_delta s t e =
      let (direct_events, e1, e2) =
        >>=-eq-ok (delay_direct region end loop_delta (loop_delta - body_delta) s.direct_events) _
          e in
      let (ttl_events, e3, e4) = >>=-eq-ok (delay_ttl region end loop_delta s.ttl_events) _ e2 in
      let (epoch_origins, e5, e6) = >>=-eq-ok (delay_origins end loop_delta s.epoch_origins) _ e4 in
      subst (Delays s) (ok_inj e6) (record {
        ttl_events = delay_ttl-Delays region end loop_delta s.ttl_events ttl_events e3;
        direct_events =
            delay_direct-Delays region end loop_delta (loop_delta - body_delta) s.direct_events
              direct_events e1;
        epoch_origins = delay_origins-Delays end loop_delta s.epoch_origins epoch_origins e5;
      })

  module _ (rwg_load_waveform_cost : DirectEvent Json → Result OasmCompileError ℕ) where
    apply_region-Delays :
        (region : LoopRegion) (s : LoopState Json) (r : ℕ × LoopState Json)
        → apply_region rwg_load_waveform_cost region s ≡ ok r
        → Delays s r.1
    unfolding apply_region
    apply_region-Delays region s r e =
        let start = loop_start region s.direct_events in
        let (end, e1, e2) =
          >>=-eq-ok (checked_add start region.body_duration loop_end_overflow) _ e in
        let (after_body, e3, e4) = >>=-eq-ok (checked_add end 1 loop_boundary_overflow) _ e2 in
        let (fits, p) = checked_add-ok end 1 loop_boundary_overflow after_body e3 in
        let displaced = displace region start end after_body s in
        let first : Delays s displaced = rw p (displace-Delays region start end s) in
        let (actual, e5, e6) =
          >>=-eq-ok (body_duration rwg_load_waveform_cost region start end displaced) _ e4 in
        let body_delta = actual - region.body_duration in
        let (loop_delta, e7, e8) =
          >>=-eq-ok (checked_mul body_delta region.count loop_delta_overflow) _ e6 in
        elim (Bool-cases (loop_delta == 0)) [
          | inl idle ↦
              subst (λ (q : ℕ × LoopState Json). Delays s q.1) (ok_inj (rw idle at e8)) first
          | inr busy ↦
              let (done, e9, e10) =
                >>=-eq-ok (delay_after region end body_delta loop_delta displaced) _
                  (rw busy at e8) in
              subst (λ (q : ℕ × LoopState Json). Delays s q.1) (ok_inj e10)
                (Delays-trans s displaced done first
                  (delay_after-Delays region end body_delta loop_delta displaced done e9))
        ]

    -- The timing of loops only delays. When it is done every event stands in its place with all it
    -- had but its offset, which is not earlier, every epoch has an origin that is not earlier, and no
    -- event costs more than before but the markers that end a loop, which never cost less; and the total is not
    -- below the one it began with.
    pub apply_loop_timing-Delays :
        (regions : List LoopRegion) (total_delta : ℕ) (s : LoopState Json) (r : ℕ × LoopState Json)
        → apply_loop_timing rwg_load_waveform_cost regions total_delta s ≡ ok r
        → (total_delta ≤ r.0) × Delays s r.1
    unfolding apply_loop_timing
    apply_loop_timing-Delays [] total_delta s r e =
        subst (λ (q : ℕ × LoopState Json). (total_delta ≤ q.0) × Delays s q.1) (ok_inj e)
          (omega arith, Delays-refl s)
    apply_loop_timing-Delays (region ∷ rest) total_delta s r e =
        let (done, e1, e2) = >>=-eq-ok (apply_region rwg_load_waveform_cost region s) _ e in
        let (total, e3, e4) =
          >>=-eq-ok (checked_add total_delta done.0 program_delta_overflow) _ e2 in
        let (fits, p) = checked_add-ok total_delta done.0 program_delta_overflow total e3 in
        let (more, later) = apply_loop_timing-Delays rest total done.1 r e4 in
        (omega arith, Delays-trans s done.1 r.1 (apply_region-Delays region s done e1) later)

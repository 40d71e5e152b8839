-- ===== src/Rtmq/Schedule/Board/Layout.antt =====
-- What the calls of a board do when they are played against a clock.
use catseq.Prelude.{
  ℕ, ◌+◌, ◌-◌, ◌<◌, ◌^◌, max, ◌==◌, ltb, ==_refl, ◌≡◌, refl, arith, Bool, true, false, not,
  if◌then◌else◌, Option, none, some, List, [], ◌∷◌, ◌++◌, map, Result, ok, err, >>=-eq-ok, All,
  ok_inj, sym, ap, ◌∙◌, inl, inr, Bool-cases,
}
use mathlib.Core.List.{append_assoc, append-nil}
use catseq.Prelude.Sort.{keep}
use catseq.Rtmq.Schedule.{
  OasmFunction, OasmArgument, DirectEvent, OasmCall, OasmCompileError, wait, unsigned, checked_add,
  cursor_overflow,
}
use catseq.Rtmq.Schedule.Board.{emit, lay_out, wait_until, call_at}

abbrev pub is_wait : OasmFunction → Bool
is_wait wait = true
is_wait _ = false

abbrev pub next_cost : List ℕ → Option (ℕ × List ℕ)
next_cost [] = none
next_cost (cost ∷ costs) = some (cost, costs)

pub checked_add-ok :
    (a b : ℕ) (e : OasmCompileError) (c : ℕ)
    → checked_add a b e ≡ ok c
    → (a + b < 2 ^ 64) × (c ≡ a + b)
checked_add-ok a b e c h = elim (Bool-cases (ltb (a + b) (2 ^ 64))) [
  | inl fits ↦ (ground arith, sym (ok_inj (rw fits at h)))
  | inr over ↦ absurd (clash (rw over at h))
]
  where
    clash : err e ≡ ok c → ⊥
    clash q = cc

module _ {Json : Type 0} where
  -- When each event starts on a board that is busy with what came before: at its offset, or later
  -- when the one before it has ended.
  abbrev pub start_times : ℕ → List (DirectEvent Json) → List ℕ
  start_times cursor [] = []
  start_times cursor (event ∷ rest) =
      let start = max event.offset_cycles cursor in
      start ∷ start_times (start + event.instruction_cost_cycles) rest

  abbrev pub end_of : ℕ → List (DirectEvent Json) → ℕ
  end_of cursor [] = cursor
  end_of cursor (event ∷ rest) =
      end_of (max event.offset_cycles cursor + event.instruction_cost_cycles) rest

  abbrev pub costs_of : List (DirectEvent Json) → List ℕ
  costs_of = map (λ (event : DirectEvent Json). event.instruction_cost_cycles)

  -- How long a call takes: a wait as long as it says, another call the next of the costs.
  abbrev pub wait_length : List (OasmArgument Json) → List ℕ → Option (ℕ × List ℕ)
  wait_length (unsigned n ∷ []) costs = some (n, costs)
  wait_length _ costs = none

  abbrev pub length_of : OasmCall Json → List ℕ → Option (ℕ × List ℕ)
  length_of call costs =
      if is_wait call.function then wait_length call.args costs else next_cost costs

  -- The clock after the calls, where each call stands at the time the clock then shows, and each
  -- cost is used up.
  abbrev pub play : ℕ → List (OasmCall Json) → List ℕ → Option ℕ
  play clock [] [] = some clock
  play clock [] (cost ∷ costs) = none
  play clock (call ∷ calls) costs = elim (call.offset_cycles == clock) [
    | false ↦ none
    | true ↦ elim (length_of call costs) [
      | none ↦ none
      | some (n, left) ↦ play (clock + n) calls left
    ]
  ]

  abbrev pub IsCall : DirectEvent Json → Type 0
  IsCall event = is_wait event.function ≡ false

  emit-ok :
      (cursor : ℕ) (event : DirectEvent Json) (rest : List (DirectEvent Json))
      (r : List (OasmCall Json) × ℕ)
      → emit cursor (event ∷ rest) ≡ ok r
      → (done : List (OasmCall Json) × ℕ) × (max event.offset_cycles cursor
            + event.instruction_cost_cycles
          < 2 ^ 64)
        × (emit (max event.offset_cycles cursor + event.instruction_cost_cycles) rest ≡ ok done)
        × ((
          wait_until cursor event.offset_cycles
              ++ call_at (max event.offset_cycles cursor) event ∷ done.0,
          done.1,
        )
            ≡ r)
  unfolding emit
  emit-ok cursor event rest r h =
      let start = max event.offset_cycles cursor in
      let (next, h1, h2) =
        >>=-eq-ok (checked_add start event.instruction_cost_cycles cursor_overflow) _ h in
      let (fits, p) = checked_add-ok start event.instruction_cost_cycles cursor_overflow next h1 in
      let (done, h3, h4) = >>=-eq-ok (emit next rest) _ h2 in
      (done, fits, ap (λ n. emit n rest) (sym p) ∙ h3, ok_inj h4)

  emit_nil :
      (cursor : ℕ)
      → ◌≡◌ {A = Result OasmCompileError (List (OasmCall Json) × ℕ)}
          (ok ([], cursor))
          (emit cursor [])
  unfolding emit
  emit_nil cursor = refl

  play-call :
      (start : ℕ) (event : DirectEvent Json) (calls : List (OasmCall Json)) (costs : List ℕ)
      → IsCall event
      → play start (call_at start event ∷ calls) (event.instruction_cost_cycles ∷ costs)
        ≡ play (start + event.instruction_cost_cycles) calls costs
  play-call start event calls costs h = rw (==_refl start, h, play) refl

  play-wait_until :
      (cursor time : ℕ) (calls : List (OasmCall Json)) (costs : List ℕ)
      → play cursor (wait_until cursor time ++ calls) costs ≡ play (max time cursor) calls costs
  play-wait_until cursor time calls costs = elim (Bool-cases (ltb cursor time)) [
    | inl early ↦
        let up_to : cursor + (time - cursor) ≡ max time cursor = ground arith in
        rw (early, ==_refl cursor, play) (ap (λ n. play n calls costs) up_to)
    | inr late ↦
        let there : cursor ≡ max time cursor = ground arith in
        rw late (ap (λ n. play n calls costs) there)
  ]

  play-emit :
      (events : List (DirectEvent Json)) (cursor : ℕ) (r : List (OasmCall Json) × ℕ)
      (tail : List (OasmCall Json))
      → All IsCall events
      → emit cursor events ≡ ok r
      → play cursor (r.0 ++ tail) (costs_of events) ≡ play r.1 tail []
  play-emit [] cursor r tail h e = let same = ok_inj (emit_nil cursor ∙ e) in rw (sym same) refl
  play-emit (event ∷ rest) cursor r tail (h, hs) e =
      let (done, fits, more, same) = emit-ok cursor event rest r e in
      let start = max event.offset_cycles cursor in
      rw (← same) (
        ap (λ l. play cursor l (costs_of (event ∷ rest)))
          (append_assoc (wait_until cursor event.offset_cycles) (call_at start event ∷ done.0) tail)
        ∙ play-wait_until cursor event.offset_cycles (call_at start event ∷ (done.0 ++ tail))
            (costs_of (event ∷ rest))
        ∙ play-call start event (done.0 ++ tail) (costs_of rest) h
        ∙ play-emit rest (start + event.instruction_cost_cycles) done tail hs more)

  lay_out-ok :
      (cursor duration : ℕ) (events : List (DirectEvent Json)) (calls : List (OasmCall Json))
      → lay_out cursor duration events ≡ ok calls
      → (done : List (OasmCall Json) × ℕ) × (emit cursor events ≡ ok done)
        × (done.0 ++ wait_until done.1 duration ≡ calls)
  unfolding lay_out
  lay_out-ok cursor duration events calls h =
      let (done, h1, h2) = >>=-eq-ok (emit cursor events) _ h in (done, h1, ok_inj h2)

  emit-end_of :
      (events : List (DirectEvent Json)) (cursor : ℕ) (r : List (OasmCall Json) × ℕ)
      → emit cursor events ≡ ok r
      → r.1 ≡ end_of cursor events
  emit-end_of [] cursor r e =
      ap (λ (q : List (OasmCall Json) × ℕ). q.1) (sym (ok_inj (emit_nil cursor ∙ e)))
  emit-end_of (event ∷ rest) cursor r e =
      let (done, fits, more, same) = emit-ok cursor event rest r e in
      ap (λ (q : List (OasmCall Json) × ℕ). q.1) (sym same)
      ∙ emit-end_of rest (max event.offset_cycles cursor + event.instruction_cost_cycles) done more

  -- Where none of the scheduled events is itself a wait, the calls that are laid out play: on a clock
  -- that starts at the cursor each call stands at the very time the calls before it end, so none
  -- overlap and no time is lost between them, every event takes its cost once, and the clock ends at
  -- the end of the last event, or at the duration where that is later.
  pub lay_out-plays :
      (cursor duration : ℕ) (events : List (DirectEvent Json)) (calls : List (OasmCall Json))
      → All IsCall events
      → lay_out cursor duration events ≡ ok calls
      → play cursor calls (costs_of events) ≡ some (max duration (end_of cursor events))
  lay_out-plays cursor duration events calls h e =
      let (done, laid, same) = lay_out-ok cursor duration events calls e in
      rw (← same) (
        play-emit events cursor done (wait_until done.1 duration) h laid
        ∙ ap (λ l. play done.1 l []) (sym (append-nil (wait_until done.1 duration)))
        ∙ play-wait_until done.1 duration [] []
        ∙ ap (λ n. some (max duration n)) (emit-end_of events cursor done laid))

  -- The calls of events at given times.
  abbrev pub calls_at : List ℕ → List (DirectEvent Json) → List (OasmCall Json)
  calls_at (time ∷ times) (event ∷ events) = call_at time event ∷ calls_at times events
  calls_at _ _ = []

  abbrev pub without_waits : List (OasmCall Json) → List (OasmCall Json)
  without_waits = keep (λ (call : OasmCall Json). not (is_wait call.function))

  without_waits-wait_until :
      (cursor time : ℕ) (calls : List (OasmCall Json))
      → without_waits (wait_until cursor time ++ calls) ≡ without_waits calls
  without_waits-wait_until cursor time calls = elim (Bool-cases (ltb cursor time)) [
    | inl early ↦ rw early refl
    | inr late ↦ rw late refl
  ]

  without_waits-emit :
      (events : List (DirectEvent Json)) (cursor : ℕ) (r : List (OasmCall Json) × ℕ)
      → All IsCall events
      → emit cursor events ≡ ok r
      → (tail : List (OasmCall Json))
      → without_waits (r.0 ++ tail)
        ≡ calls_at (start_times cursor events) events ++ without_waits tail
  without_waits-emit [] cursor r h e tail =
      let same = ok_inj (emit_nil cursor ∙ e) in rw (sym same) refl
  without_waits-emit (event ∷ rest) cursor r (h, hs) e tail =
      let (done, fits, more, same) = emit-ok cursor event rest r e in
      let start = max event.offset_cycles cursor in
      rw (← same) (
        ap without_waits
          (append_assoc (wait_until cursor event.offset_cycles) (call_at start event ∷ done.0) tail)
        ∙ without_waits-wait_until cursor event.offset_cycles
            (call_at start event ∷ (done.0 ++ tail))
        ∙ rw h (
            ap (◌∷◌ (call_at start event))
              (without_waits-emit rest (start + event.instruction_cost_cycles) done hs more tail)))

  -- Without its waits, a layout is the scheduled events in their order, each once with its function
  -- and its arguments, at its offset, or at the end of the event before it where that is later.
  -- None of the scheduled events is taken to be a wait.
  pub without_waits-lay_out :
      (cursor duration : ℕ) (events : List (DirectEvent Json)) (calls : List (OasmCall Json))
      → All IsCall events
      → lay_out cursor duration events ≡ ok calls
      → without_waits calls ≡ calls_at (start_times cursor events) events
  without_waits-lay_out cursor duration events calls h e =
      let (done, laid, same) = lay_out-ok cursor duration events calls e in
      rw (← same) (
        without_waits-emit events cursor done h laid (wait_until done.1 duration)
        ∙ ap (◌++◌ (calls_at (start_times cursor events) events)) (
            ap without_waits (sym (append-nil (wait_until done.1 duration)))
            ∙ without_waits-wait_until done.1 duration [])
        ∙ append-nil (calls_at (start_times cursor events) events))

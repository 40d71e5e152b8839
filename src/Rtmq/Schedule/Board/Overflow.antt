-- ===== src/Rtmq/Schedule/Board/Overflow.antt =====
-- When the calls of a board can be laid out.
use catseq.Prelude.{
  ℕ, ◌+◌, ◌<◌, ◌^◌, max, ltb, ◌≡◌, ◌⊎◌, refl, arith, List, [], ◌∷◌, ◌++◌, ok, err, inl, inr,
  Bool-cases,
}
use catseq.Rtmq.Schedule.{DirectEvent, OasmCall, cursor_overflow}
use catseq.Rtmq.Schedule.Board.{emit, lay_out, wait_until, call_at}

module _ {Json : Type 0} where
  -- Every event ends within 64 bits.
  abbrev pub EndsFit : ℕ → List (DirectEvent Json) → Type 0
  EndsFit cursor [] = Unit
  EndsFit cursor (event ∷ rest) =
      let end = max event.offset_cycles cursor + event.instruction_cost_cycles in
      (end < 2 ^ 64) × EndsFit end rest

  pub emit_cases :
      (events : List (DirectEvent Json)) (cursor : ℕ)
      → (EndsFit cursor events × ((r : List (OasmCall Json) × ℕ) × (emit cursor events ≡ ok r)))
        ⊎ ((EndsFit cursor events → ⊥) × (emit cursor events ≡ err cursor_overflow))
  unfolding emit
  emit_cases [] cursor = inl (tt, (([], cursor), refl))
  emit_cases (event ∷ rest) cursor =
      let end = max event.offset_cycles cursor + event.instruction_cost_cycles in
      elim (Bool-cases (ltb end (2 ^ 64))) [
        | inl fits ↦ elim (emit_cases rest end) [
          | inl (all_fit, (done, e)) ↦ inl (
            (ground arith, all_fit),
            (
              (
                wait_until cursor event.offset_cycles
                    ++ call_at (max event.offset_cycles cursor) event ∷ done.0,
                done.1,
              ),
              rw (fits, e) refl,
            ),
          )
          | inr (over, e) ↦ inr (λ h. over h.1, rw (fits, e) refl)
        ]
        | inr over ↦ inr (λ h. ground arith, rw over refl)
      ]

  -- The layout of a schedule is there exactly where every event ends within 64 bits, and is the
  -- overflow error otherwise.
  pub lay_out_cases :
      (cursor duration : ℕ) (events : List (DirectEvent Json))
      → (EndsFit cursor events
          × ((calls : List (OasmCall Json)) × (lay_out cursor duration events ≡ ok calls)))
        ⊎ ((EndsFit cursor events → ⊥) × (lay_out cursor duration events ≡ err cursor_overflow))
  unfolding lay_out
  lay_out_cases cursor duration events = elim (emit_cases events cursor) [
    | inl (fit, (done, e)) ↦ inl (fit, (done.0 ++ wait_until done.1 duration, rw e refl))
    | inr (over, e) ↦ inr (over, rw e refl)
  ]

-- ===== src/Rtmq/Schedule/Preload/Moves.antt =====
-- What the scheduling of preloads changes: offsets of preloads, and only to earlier times.
use catseq.Prelude.{
  ℕ, ◌+◌, suc, ◌-◌, ◌≤◌, ◌<◌, none, ◌^◌, ◌==◌, ltb, ◌≡◌, ◌⊎◌, refl, arith, true, false, some, List,
  [], ◌∷◌, length, length-set, get_elem?, get_elem?-set_self, get_elem?-set_ne, get_elem?-some_lt,
  set, ok, err, >>=-eq-ok, All, ok_inj, some_inj, sym, ap, ◌∙◌, inl, inr, Bool-cases, ==_iff,
}
use mathlib.Core.Path.{subst}
use mathlib.Core.List.{reverse}
use catseq.Rtmq.Schedule.{DirectEvent, preload_cost_overflow}
use catseq.Rtmq.Schedule.Preload.{
  PreloadGroup, preload_pairs, preload_cost, preload_start, moved, move_all, place_groups,
  schedule_preloads,
}
use catseq.Rtmq.Schedule.Preload.Groups.{
  IsMember, GroupIsValid, preload_start-le, pairs-GroupIsValid,
}

module _ {Json : Type 0} where
  -- An event that was moved: only its offset is another one, it is not later, and an event that is no
  -- preload is not moved at all.
  abbrev pub MovesTo : DirectEvent Json → DirectEvent Json → Type 0
  MovesTo e f =
      (f ≡ moved f.offset_cycles e)
      × (f.offset_cycles ≤ e.offset_cycles)
      × ((e.preload ≡ false) → f ≡ e)

  abbrev pub Moves : List (DirectEvent Json) → List (DirectEvent Json) → Type 0
  Moves es fs =
      (length fs ≡ length es)
      × ((i : ℕ) (e : DirectEvent Json)
          → get_elem? es i ≡ some e
          → (f : DirectEvent Json) × (get_elem? fs i ≡ some f) × MovesTo e f)

  Moves-refl : (events : List (DirectEvent Json)) → Moves events events
  Moves-refl events = (refl, λ i e p. (e, p, (refl, omega arith, λ q. refl)))

  -- One member of a group, moved to where the group starts.
  Moves-set :
      (original events : List (DirectEvent Json)) (deadline start i : ℕ)
      → start ≤ deadline
      → IsMember original deadline i
      → Moves original events
      → (f : DirectEvent Json) × (get_elem? events i ≡ some f)
        × Moves original (set events i (moved start f))
  Moves-set original events deadline start i early (e, there, is_preload, at_deadline) (size, all) =
      let (f, here, (same, earlier, fixed)) = all i e there in
      (
        f,
        here,
        (
          length-set events i (moved start f) ∙ size,
          λ j e' p. elim (Bool-cases (i == j)) [
            | inl hit ↦
                let q : i ≡ j = (==_iff i j).0 hit in
                let r : e ≡ e' = some_inj (sym there ∙ ap (get_elem? original) q ∙ p) in
                (
                  moved start f,
                  ap (get_elem? (set events i (moved start f))) (sym q)
                      ∙ get_elem?-set_self events i (moved start f)
                          (get_elem?-some_lt events i f here),
                  subst (λ z. MovesTo z (moved start f)) r
                      (
                        ap (moved start) same,
                        omega arith,
                        λ no. absurd (clash (sym is_preload ∙ no)),
                      ),
                )
            | inr other ↦
                let (f', found, to) = all j e' p in
                (f', get_elem?-set_ne events i j (moved start f) (ground arith) ∙ found, to)
          ],
        ),
      )
    where
      clash : true ≡ false → ⊥
      clash q = cc

  move_all-Moves :
      (original : List (DirectEvent Json)) (deadline start : ℕ) (indices : List ℕ)
      (events : List (DirectEvent Json))
      → start ≤ deadline
      → All (IsMember original deadline) indices
      → Moves original events
      → (placed : List (DirectEvent Json)) × (move_all start indices events ≡ ok placed)
        × Moves original placed
  unfolding move_all
  move_all-Moves original deadline start [] events early h m = (events, refl, m)
  move_all-Moves original deadline start (i ∷ rest) events early (p, h) m =
      let (f, here, after) = Moves-set original events deadline start i early p m in
      let (placed, e, n) =
        move_all-Moves original deadline start rest (set events i (moved start f)) early h after in
      (placed, rw (here, move_all) e, n)

  place_groups-Moves :
      (original : List (DirectEvent Json)) (groups : List PreloadGroup) (next : ℕ)
      (events done : List (DirectEvent Json))
      → All (GroupIsValid original) groups
      → Moves original events
      → place_groups groups next events ≡ ok done
      → Moves original done
  unfolding place_groups
  place_groups-Moves original [] next events done h m e = subst (Moves original) (ok_inj e) m
  place_groups-Moves original (g ∷ groups) next events done (p, h) m e =
      let (cost, e1, e2) = >>=-eq-ok (preload_cost events g.indices 0) _ e in
      let start = preload_start g next cost events in
      let (placed, e3, n) =
        move_all-Moves original g.deadline start g.indices events
          (preload_start-le g next cost events) p m in
      place_groups-Moves original groups start placed done h n (rw (e3) at e2)

  -- Scheduling the preloads of a board leaves the events in their places: only the offset of an event
  -- may change, only that of a preload, and only to an earlier time.
  pub schedule_preloads-Moves :
      (events done : List (DirectEvent Json))
      → schedule_preloads events ≡ ok done
      → Moves events done
  unfolding schedule_preloads
  schedule_preloads-Moves events done e =
      place_groups-Moves events (reverse (preload_pairs events)) (2 ^ 64 - 1) events done
        (pairs-GroupIsValid events) (Moves-refl events) e

  -- The costs of the events at some places, added up.
  abbrev pub costs_at : List (DirectEvent Json) → List ℕ → ℕ
  costs_at events [] = 0
  costs_at events (i ∷ rest) =
      let later = costs_at events rest in
      elim (get_elem? events i) [
        | none ↦ later
        | some event ↦ event.instruction_cost_cycles + later
      ]

  abbrev Fits : List (DirectEvent Json) → PreloadGroup → Type 0
  Fits original g = costs_at original g.indices < 2 ^ 64

  abbrev Overflows : List (DirectEvent Json) → List PreloadGroup → Type 0
  Overflows original groups =
      (i : ℕ) × (g : PreloadGroup) × (get_elem? groups i ≡ some g)
      × (2 ^ 64 ≤ costs_at original g.indices)

  preload_cost_cases :
      (original events : List (DirectEvent Json)) (deadline total : ℕ) (indices : List ℕ)
      → total < 2 ^ 64
      → All (IsMember original deadline) indices
      → Moves original events
      → ((total + costs_at original indices < 2 ^ 64)
          × (preload_cost events indices total ≡ ok (total + costs_at original indices)))
        ⊎ ((2 ^ 64 ≤ total + costs_at original indices)
            × (preload_cost events indices total ≡ err preload_cost_overflow))
  unfolding preload_cost
  preload_cost_cases original events deadline total [] small h m =
      inl (omega arith, ap ok (omega arith))
  preload_cost_cases original events deadline total (i ∷ rest) small
        ((e, there, is_preload, at_deadline), h) m =
      let (f, here, (same, earlier, fixed)) = m.1 i e there in
      let cost : f.instruction_cost_cycles ≡ e.instruction_cost_cycles =
        ap (λ (z : DirectEvent Json). z.instruction_cost_cycles) same in
      elim (Bool-cases (ltb (total + f.instruction_cost_cycles) (2 ^ 64))) [
        | inl fits ↦
            elim (preload_cost_cases original events deadline (total + f.instruction_cost_cycles)
              rest (ground arith) h m) [
                | inl (bound, e1) ↦ inl (
                  rw (there, costs_at) (omega arith),
                  rw (here, fits, preload_cost, there, costs_at) (e1 ∙ ap ok (omega arith)),
                )
                | inr (bound, e1) ↦
                    inr (rw (there, costs_at) (omega arith), rw (here, fits, preload_cost) e1)
              ]
        | inr over ↦ inr (rw (there, costs_at) (ground arith), rw (here, over, preload_cost) refl)
      ]

  place_groups_cases :
      (original : List (DirectEvent Json)) (groups : List PreloadGroup) (next : ℕ)
      (events : List (DirectEvent Json))
      → All (GroupIsValid original) groups
      → Moves original events
      → ((done : List (DirectEvent Json)) × (place_groups groups next events ≡ ok done)
          × All (Fits original) groups)
        ⊎ ((place_groups groups next events ≡ err preload_cost_overflow)
            × Overflows original groups)
  unfolding place_groups
  place_groups_cases original [] next events h m = inl (events, refl, tt)
  place_groups_cases original (g ∷ groups) next events (p, h) m =
      elim (preload_cost_cases original events g.deadline 0 g.indices (omega arith) p m) [
        | inl (fits, e0) ↦
            let small : Fits original g = omega arith in
            let e1 : preload_cost events g.indices 0 ≡ ok (costs_at original g.indices) =
              e0 ∙ ap ok (omega arith) in
            let start = preload_start g next (costs_at original g.indices) events in
            let (placed, e3, n) =
              move_all-Moves original g.deadline start g.indices events
                (preload_start-le g next (costs_at original g.indices) events) p m in
            elim (place_groups_cases original groups start placed h n) [
              | inl (done, e2, fit) ↦ inl (done, rw (e1, e3) e2, (small, fit))
              | inr (e2, (i, h, at, over)) ↦ inr (rw (e1, e3) e2, (suc i, h, at, over))
            ]
        | inr (over, e1) ↦ inr (rw e1 refl, (0, g, refl, omega arith))
      ]

  -- Scheduling the preloads of a board never reads or writes past its events. It gives them, moved,
  -- where the costs of the members of each group add up to less than 2 ^ 64; where those of one
  -- group do not, it is the error that they overflow.
  pub schedule_preloads_cases :
      (events : List (DirectEvent Json))
      → ((done : List (DirectEvent Json)) × (schedule_preloads events ≡ ok done)
          × All (λ g. costs_at events g.indices < 2 ^ 64) (reverse (preload_pairs events)))
        ⊎ ((schedule_preloads events ≡ err preload_cost_overflow)
            × ((i : ℕ) × (g : PreloadGroup) × (get_elem? (reverse (preload_pairs events)) i
                  ≡ some g)
                × (2 ^ 64 ≤ costs_at events g.indices)))
  unfolding schedule_preloads
  schedule_preloads_cases events =
      place_groups_cases events (reverse (preload_pairs events)) (2 ^ 64 - 1) events
        (pairs-GroupIsValid events) (Moves-refl events)

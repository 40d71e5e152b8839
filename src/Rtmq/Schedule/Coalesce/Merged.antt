-- ===== src/Rtmq/Schedule/Coalesce/Merged.antt =====
-- What coalescing makes of the events: no two of one offset and one merged function are left, and
-- every function and every bit of a mask is there that was there before.
use catseq.Prelude.{
  ℕ, ◌==◌, ◌≡◌, ◌≢◌, ◌⊎◌, refl, arith, Bool, true, false, ◌&&◌, ◌||◌, List, [], ◌∷◌, ok, >>=-eq-ok,
  All, All-map, ok_inj, sym, ap, ◌∙◌, inl, inr, Bool-cases, ==_iff,
}
use catseq.Prelude.Sort.{IsAscending}
use catseq.Rtmq.Schedule.{OasmFunction, DirectEvent, function_index, ttl_config, rwg_init, rwg_play}
use catseq.Rtmq.Schedule.Coalesce.{
  coalesce_key, takes, merged_args, merge_event, coalesce_direct_events, is_mergeable, is_rwg_init,
}
use catseq.Rtmq.Schedule.Coalesce.Distinct.{IsDistinct, coalesce_direct_events-IsDistinct}
use catseq.Rtmq.Schedule.Coalesce.Kept.{
  merge_args-bit, is_at, occurs, sets_bit, Unites, any-coalesced, occurs-any, bit_at, sets_bit-any,
}

-- A function whose events are not merged.
abbrev pub StaysSingle : OasmFunction → Type 0
StaysSingle f = (f ≢ ttl_config) × (f ≢ rwg_init) × (f ≢ rwg_play)

unmerged-StaysSingle : (f : OasmFunction) → is_mergeable f ≡ false → StaysSingle f
unmerged-StaysSingle f h = (
  λ q. clash (sym h ∙ ap is_mergeable q),
  λ q. clash (sym h ∙ ap is_mergeable q),
  λ q. clash (sym h ∙ ap is_mergeable q),
)
  where
    clash : false ≡ true → ⊥
    clash q = cc

index_inj : (f g : OasmFunction) → function_index f ≡ function_index g → f ≡ g
index_inj f g h = ground arith

init_lem : (f : OasmFunction) → is_rwg_init f ≡ true → f ≡ rwg_init
init_lem f h = ground arith

not_init : (f : OasmFunction) → f ≢ rwg_init → is_rwg_init f ≡ false
not_init f h = elim (Bool-cases (is_rwg_init f)) [
  | inl init ↦ absurd (h (init_lem f init))
  | inr plain ↦ plain
]

index-is_rwg_init :
    (f g : OasmFunction) → function_index f ≡ function_index g → is_rwg_init f ≡ is_rwg_init g
index-is_rwg_init f g h = ap is_rwg_init (index_inj f g h)

module _ {Json : Type 0} where
  -- Two events that differ in the offset or in the function, or whose function is not merged.
  abbrev pub Apart : DirectEvent Json → DirectEvent Json → Type 0
  Apart e f =
      (e.offset_cycles ≢ f.offset_cycles) ⊎ ((e.function ≢ f.function) ⊎ StaysSingle f.function)

  abbrev pub AllApart : List (DirectEvent Json) → Type 0
  AllApart [] = Unit
  AllApart (e ∷ rest) = All (Apart e) rest × AllApart rest

  refused-Apart : (e f : DirectEvent Json) → takes e f ≡ false → Apart e f
  refused-Apart e f h = elim (Bool-cases (is_mergeable f.function)) [
    | inr single ↦ inr (inr (unmerged-StaysSingle f.function single))
    | inl merges ↦ elim (Bool-cases (e.offset_cycles == f.offset_cycles)) [
      | inr other ↦ inl (ground arith)
      | inl same ↦ inr (inl λ q. clash (sym (rw (merges, same) at h) ∙ same_index q))
    ]
  ]
    where
      clash : false ≡ true → ⊥
      clash q = cc

      same_index :
          e.function ≡ f.function → (function_index e.function == function_index f.function) ≡ true
      same_index q =
          (==_iff (function_index e.function) (function_index f.function)).1 (ap function_index q)

  distinct-AllApart : (events : List (DirectEvent Json)) → IsDistinct events → AllApart events
  distinct-AllApart [] h = tt
  distinct-AllApart (e ∷ rest) (refused, h) =
      (All-map (λ f p. refused-Apart e f p) rest refused, distinct-AllApart rest h)

  taken :
      (previous event : DirectEvent Json)
      → takes previous event ≡ true
      → (previous.offset_cycles ≡ event.offset_cycles)
        × (function_index previous.function ≡ function_index event.function)
  taken previous event h = (ground arith, ground arith)

  merge_event-ok :
      (previous event merged : DirectEvent Json)
      → merge_event previous event ≡ ok merged
      → (merged_args previous event ≡ ok merged.args)
        × (merged.offset_cycles ≡ previous.offset_cycles)
        × (merged.function ≡ previous.function)
  unfolding merge_event
  merge_event-ok previous event merged h =
      let (args, e1, e2) = >>=-eq-ok (merged_args previous event) _ h in
      let same = ok_inj e2 in
      (
        e1 ∙ ap (λ (m : DirectEvent Json). ok m.args) same,
        ap (λ (m : DirectEvent Json). m.offset_cycles) (sym same),
        ap (λ (m : DirectEvent Json). m.function) (sym same),
      )

  is_at-same :
      (offset : ℕ) (f : OasmFunction) (e e' : DirectEvent Json)
      → e.offset_cycles ≡ e'.offset_cycles
      → function_index e.function ≡ function_index e'.function
      → is_at offset f e ≡ is_at offset f e'
  is_at-same offset f e e' p q = rw (p, q) refl

  is_at-Unites : (offset : ℕ) (f : OasmFunction) → Unites {Json = Json} (is_at offset f)
  is_at-Unites offset f previous event merged t h =
      let (args, p, q) = merge_event-ok previous event merged h in
      let (p', q') = taken previous event t in
      is_at-same offset f merged previous p (ap function_index q)
      ∙ once (is_at offset f previous) (is_at offset f event)
          (is_at-same offset f previous event p' q')
    where
      once : (a b : Bool) → a ≡ b → a ≡ (a || b)
      once a b e = ground arith

  bit_at-Unites :
      (offset : ℕ) (f : OasmFunction) (first : Bool) (k : ℕ)
      → is_rwg_init f ≡ false
      → Unites {Json = Json} (bit_at offset f first k)
  bit_at-Unites offset f first k other previous event merged t h =
      let (args, p, q) = merge_event-ok previous event merged h in
      let (p', q') = taken previous event t in
      let a = is_at-same offset f merged previous p (ap function_index q) in
      let b = is_at-same offset f previous event p' q' in
      elim (Bool-cases (is_rwg_init event.function)) [
        | inl init ↦
            neither (is_at offset f merged) (is_at offset f previous) (is_at offset f event) _ _ _ a
              b (not_at init)
        | inr plain ↦
            together (is_at offset f merged) (is_at offset f previous) (is_at offset f event) _ _ _
              a b (merge_args-bit first k previous.args event.args merged.args (rw plain at args))
      ]
    where
      neither : (x y z l m n : Bool) → x ≡ y → y ≡ z → z ≡ false → (x && l) ≡ ((y && m) || (z && n))
      neither x y z l m n a b c = ground arith

      together :
          (x y z l m n : Bool) → x ≡ y → y ≡ z → l ≡ (m || n) → (x && l) ≡ ((y && m) || (z && n))
      together x y z l m n a b c = ground arith

      not_at : is_rwg_init event.function ≡ true → is_at offset f event ≡ false
      not_at init = elim (Bool-cases (function_index event.function == function_index f)) [
        | inl same ↦ absurd (
            clash (
              sym other
              ∙ sym (
                  index-is_rwg_init event.function f
                    ((==_iff (function_index event.function) (function_index f)).0 same))
              ∙ init))
        | inr differs ↦ rw differs (none_at (event.offset_cycles == offset))
      ]
        where
          clash : false ≡ true → ⊥
          clash q = cc

          none_at : (b : Bool) → (b && false) ≡ false
          none_at b = ground arith

  -- Coalescing leaves no two events of one offset and one of the functions that it merges, and gives
  -- the events in the order of their offsets and priorities. At each offset it leaves the same
  -- functions, none lost and none new; and of each function but the initialisation of a generator,
  -- whose first event is kept, the same bits are set in the first and in the second arguments.
  pub coalesce_direct_events-Merges :
      (events done : List (DirectEvent Json)) (offset : ℕ) (f : OasmFunction) (first : Bool) (k : ℕ)
      → coalesce_direct_events events ≡ ok done
      → f ≢ rwg_init
      → AllApart done
        × IsAscending coalesce_key done
        × ((g : OasmFunction) → occurs offset g done ≡ occurs offset g events)
        × (sets_bit offset f first k done ≡ sets_bit offset f first k events)
  coalesce_direct_events-Merges events done offset f first k h plain =
      let (distinct, ascending) = coalesce_direct_events-IsDistinct events done h in
      (
        distinct-AllApart done distinct,
        ascending,
        λ g.
            occurs-any offset g done
            ∙ any-coalesced (is_at offset g) (is_at-Unites offset g) events done h
            ∙ sym (occurs-any offset g events),
        sets_bit-any offset f first k done
            ∙ any-coalesced (bit_at offset f first k)
                (bit_at-Unites offset f first k (not_init f plain)) events done h
            ∙ sym (sets_bit-any offset f first k events),
      )

-- ===== src/Rtmq/Schedule/Coalesce/Distinct.antt =====
-- After coalescing no two events are left that could be one.
use catseq.Prelude.{
  ℕ, ◌==◌, ltb, ◌≡◌, refl, arith, Bool, true, false, ◌&&◌, List, [], ◌∷◌, ok, >>=-eq-ok, All,
  All-map, ok_inj, sym, ap, ◌∙◌, inl, inr, Bool-cases, ==_iff,
}
use mathlib.Core.Path.{subst}
use catseq.Prelude.Sort.{
  IsAscending, key_leb, key_leb_refl, key_leb_trans, sort_by_key, sort_by_key-IsAscending,
}
use catseq.Rtmq.Schedule.{OasmFunction, DirectEvent, function_index}
use catseq.Rtmq.Schedule.Coalesce.{
  coalesce_priority, is_mergeable, coalesce_key, takes, merged_args, merge_event, coalesce_after,
  coalesce_sorted, coalesce_direct_events,
}

mergeable_iff : (f : OasmFunction) → is_mergeable f ≡ ltb (coalesce_priority f) 3
mergeable_iff f = ground arith

index_of_priority :
    (f g : OasmFunction)
    → is_mergeable g ≡ true
    → coalesce_priority f ≡ coalesce_priority g
    → function_index f ≡ function_index g
index_of_priority f g m p = ground arith

priority_of_index :
    (f g : OasmFunction)
    → function_index f ≡ function_index g
    → coalesce_priority f ≡ coalesce_priority g
priority_of_index f g p = ground arith

both_true : (a b : Bool) → (a && b) ≡ true → (a ≡ true) × (b ≡ true)
both_true true b h = (refl, h)
both_true false b h = cc

-- Between two keys that are the same there is only that key.
pair_between :
    (a b c d e f : ℕ)
    → key_leb (a ∷ b ∷ []) (c ∷ d ∷ []) ≡ true
    → key_leb (c ∷ d ∷ []) (e ∷ f ∷ []) ≡ true
    → a ≡ e
    → b ≡ f
    → (c ≡ e) × (d ≡ f)
pair_between a b c d e f h g p q = ground arith

module _ {Json : Type 0} where
  -- None of the events could take in a later one.
  abbrev pub IsDistinct : List (DirectEvent Json) → Type 0
  IsDistinct [] = Unit
  IsDistinct (event ∷ rest) = All (λ later. takes event later ≡ false) rest × IsDistinct rest

  -- An event that takes a later one takes all that stand between them.
  takes_between :
      (p e y : DirectEvent Json)
      → key_leb (coalesce_key p) (coalesce_key e) ≡ true
      → key_leb (coalesce_key e) (coalesce_key y) ≡ true
      → takes p y ≡ true
      → takes p e ≡ true
  takes_between p e y h g t =
      let (m, offset_and_function) = both_true (is_mergeable y.function) _ t in
      let (offset, function) =
        both_true (p.offset_cycles == y.offset_cycles) _ offset_and_function in
      let o : p.offset_cycles ≡ y.offset_cycles =
        (==_iff p.offset_cycles y.offset_cycles).0 offset in
      let i : function_index p.function ≡ function_index y.function =
        (==_iff (function_index p.function) (function_index y.function)).0 function in
      let pr : coalesce_priority p.function ≡ coalesce_priority y.function =
        priority_of_index p.function y.function i in
      let (eo, epr) =
        pair_between p.offset_cycles (coalesce_priority p.function) e.offset_cycles
          (coalesce_priority e.function) y.offset_cycles (coalesce_priority y.function) h g o pr in
      let ei = index_of_priority e.function y.function m epr in
      let em : is_mergeable e.function ≡ true =
        mergeable_iff e.function ∙ ap (λ n. ltb n 3) epr ∙ sym (mergeable_iff y.function) ∙ m in
      let same_offset : (p.offset_cycles == e.offset_cycles) ≡ true =
        (==_iff p.offset_cycles e.offset_cycles).1 (o ∙ sym eo) in
      let same_function : (function_index p.function == function_index e.function) ≡ true =
        (==_iff (function_index p.function) (function_index e.function)).1 (i ∙ sym ei) in
      rw (em, same_offset, same_function) refl

  merge_event-key :
      (previous event merged : DirectEvent Json)
      → merge_event previous event ≡ ok merged
      → coalesce_key merged ≡ coalesce_key previous
  unfolding merge_event
  merge_event-key previous event merged e =
      let (args, e1, e2) = >>=-eq-ok (merged_args previous event) _ e in
      ap (λ (m : DirectEvent Json). coalesce_key m) (sym (ok_inj e2))

  abbrev IsBehind : DirectEvent Json → DirectEvent Json → Type 0
  IsBehind previous event = key_leb (coalesce_key previous) (coalesce_key event) ≡ true

  abbrev Fits : DirectEvent Json → List (DirectEvent Json) → Type 0
  Fits previous done =
      All (IsBehind previous) done × IsDistinct done × IsAscending coalesce_key done

  coalesce_after-Fits :
      (events : List (DirectEvent Json)) (previous : DirectEvent Json)
      (done : List (DirectEvent Json))
      → All (IsBehind previous) events
      → IsAscending coalesce_key events
      → coalesce_after previous events ≡ ok done
      → Fits previous done
  unfolding coalesce_after
  coalesce_after-Fits [] previous done h s e =
      subst (Fits previous) (ok_inj e)
        ((key_leb_refl (coalesce_key previous), tt), (tt, tt), (tt, tt))
  coalesce_after-Fits (event ∷ rest) previous done (b, h) (below, s) e =
      elim (Bool-cases (takes previous event)) [
        | inl hit ↦
            let (merged, e1, e2) =
              >>=-eq-ok (merge_event previous event) _ (rw (hit, coalesce_after) at e) in
            let same = merge_event-key previous event merged e1 in
            let h' =
              subst (λ k. All (λ (y : DirectEvent Json). key_leb k (coalesce_key y) ≡ true) rest)
                (sym same) h in
            let (behind, distinct, ascending) = coalesce_after-Fits rest merged done h' s e2 in
            (
              subst (λ k. All (λ (y : DirectEvent Json). key_leb k (coalesce_key y) ≡ true) done)
                  same behind,
              distinct,
              ascending,
            )
        | inr miss ↦
            let (later, e1, e2) =
              >>=-eq-ok (coalesce_after event rest) _ (rw (miss, coalesce_after) at e) in
            let (behind, distinct, ascending) = coalesce_after-Fits rest event later below s e1 in
            let after =
              All-map
                (λ y. key_leb_trans (coalesce_key previous) (coalesce_key event) (coalesce_key y) b)
                later behind in
            let apart = All-map (λ y q. not_taken previous event y b q miss) later behind in
            subst (Fits previous) (ok_inj e2)
              ((key_leb_refl (coalesce_key previous), after), (apart, distinct), (after, ascending))
      ]
    where
      not_taken :
          (p x y : DirectEvent Json)
          → IsBehind p x
          → IsBehind x y
          → takes p x ≡ false
          → takes p y ≡ false
      not_taken p x y l m n = elim (Bool-cases (takes p y)) [
        | inl hit ↦ absurd (clash (sym n ∙ takes_between p x y l m hit))
        | inr miss ↦ miss
      ]
        where
          clash : false ≡ true → ⊥
          clash q = cc

  coalesce_sorted-Fits :
      (events done : List (DirectEvent Json))
      → IsAscending coalesce_key events
      → coalesce_sorted events ≡ ok done
      → IsDistinct done × IsAscending coalesce_key done
  coalesce_sorted-Fits [] done s e =
      subst (λ l. IsDistinct l × IsAscending coalesce_key l) (ok_inj e) (tt, tt)
  coalesce_sorted-Fits (event ∷ rest) done (below, s) e =
      let (behind, distinct, ascending) = coalesce_after-Fits rest event done below s e in
      (distinct, ascending)

  pub coalesce_direct_events-IsDistinct :
      (events done : List (DirectEvent Json))
      → coalesce_direct_events events ≡ ok done
      → IsDistinct done × IsAscending coalesce_key done
  unfolding coalesce_direct_events
  coalesce_direct_events-IsDistinct events done e =
      coalesce_sorted-Fits (sort_by_key coalesce_key events) done
        (sort_by_key-IsAscending coalesce_key events) e

-- ===== src/Rtmq/Schedule/Preload/Groups.antt =====
-- The groups of preloads: their members, their deadlines and when they start.
use catseq.Prelude.{
  ℕ, suc, ◌+◌, ◌-◌, ◌<◌, ◌≤◌, min, ltb, ◌≡◌, refl, arith, Bool, true, false, ◌&&◌, some, List, [],
  ◌∷◌, get_elem?, All, All-append, some_inj, sym, ap, inl, inr, Bool-cases, Option-cases,
}
use mathlib.Core.Path.{subst}
use mathlib.Core.List.{reverse, reverse_aux}
use catseq.Prelude.Sort.{All-keep, key_leb, key_eqb, key_eqb-eq, All-sort_by_key}
use catseq.Rtmq.Schedule.{DirectEvent, saturating_add, order_key}
use catseq.Rtmq.Schedule.Preload.{
  PreloadGroup, group_key, new_group, enter, group_preloads, preload_pairs, conflicts,
  first_conflict, preload_start,
}

pub All-reverse_aux {ℓ κ} :
    {A : Type ℓ} (P : A → Type κ) (xs ys : List A) → All P xs → All P ys → All P (reverse_aux xs ys)
All-reverse_aux P [] ys h k = k
All-reverse_aux P (x ∷ xs) ys (p, h) k = All-reverse_aux P xs (x ∷ ys) h (p, k)

abbrev pub second : List ℕ → ℕ
second (a ∷ b ∷ rest) = b
second _ = 0

pub right_true : (a b c : Bool) → (a && (b && c)) ≡ true → c ≡ true
right_true true true c h = h
right_true true false c h = cc
right_true false b c h = cc

module _ {Json : Type 0} where
  -- The members of a group are preloads at its deadline.
  abbrev pub IsMember : List (DirectEvent Json) → ℕ → ℕ → Type 0
  IsMember original deadline i =
      (e : DirectEvent Json) × (get_elem? original i ≡ some e)
      × (e.preload ≡ true)
      × (e.offset_cycles ≡ deadline)

  abbrev pub GroupIsValid : List (DirectEvent Json) → PreloadGroup → Type 0
  GroupIsValid original g = All (IsMember original g.deadline) g.indices

  pub enter-GroupIsValid :
      (original : List (DirectEvent Json)) (new : PreloadGroup) (groups : List PreloadGroup)
      → GroupIsValid original new
      → All (GroupIsValid original) groups
      → All (GroupIsValid original) (enter new groups)
  enter-GroupIsValid original new [] v h = (v, tt)
  enter-GroupIsValid original new (g ∷ groups) v (w, h) =
      elim (Bool-cases (key_eqb (group_key new) (group_key g))) [
        | inl same ↦
            let p : new.deadline ≡ g.deadline =
              ap second (key_eqb-eq (group_key new) (group_key g) same) in
            rw same
              (All-append (IsMember original g.deadline) g.indices new.indices w (rw p at v), h)
        | inr other ↦ elim (Bool-cases (key_leb (group_key new) (group_key g))) [
          | inl before ↦ rw (other, before) (v, (w, h))
          | inr behind ↦ rw (other, behind) (w, enter-GroupIsValid original new groups v h)
        ]
      ]

  pub group_preloads-GroupIsValid :
      (original : List (DirectEvent Json)) (index : ℕ) (events : List (DirectEvent Json))
      (groups : List PreloadGroup)
      → ((i : ℕ) (e : DirectEvent Json)
          → get_elem? events i ≡ some e
          → get_elem? original (index + i) ≡ some e)
      → All (GroupIsValid original) groups
      → All (GroupIsValid original) (group_preloads index events groups)
  unfolding group_preloads
  group_preloads-GroupIsValid original index [] groups there h = h
  group_preloads-GroupIsValid original index (event ∷ rest) groups there h =
      let next : (i : ℕ) (e : DirectEvent Json)
          → get_elem? rest i ≡ some e
          → get_elem? original (suc index + i) ≡ some e =
        λ i e p. subst (λ j. get_elem? original j ≡ some e) (omega arith) (there (suc i) e p) in
      elim (Bool-cases event.preload) [
        | inl is_preload ↦
            let here : get_elem? original index ≡ some event =
              subst (λ j. get_elem? original j ≡ some event) (omega arith) (there 0 event refl) in
            rw is_preload (
              group_preloads-GroupIsValid original (suc index) rest
                (enter (new_group index event) groups) next
                (enter-GroupIsValid original (new_group index event) groups
                  ((event, here, is_preload, refl), tt) h))
        | inr other ↦ rw other (group_preloads-GroupIsValid original (suc index) rest groups next h)
      ]

  pub first_conflict-lt :
      (g : PreloadGroup) (start end : ℕ) (events : List (DirectEvent Json)) (c : ℕ)
      → first_conflict g start end events ≡ some c
      → c < end
  unfolding first_conflict
  first_conflict-lt g start end [] c h = cc
  first_conflict-lt g start end (event ∷ rest) c h =
      elim (Bool-cases (conflicts g start end event)) [
        | inl hit ↦
            let early : event.offset_cycles < end =
              let q = right_true _ _ (ltb event.offset_cycles end) hit in ground arith in
            elim (Option-cases (first_conflict g start end rest)) [
              | inl e ↦ let p = some_inj (rw (hit, e, first_conflict) at h) in rw (sym p) early
              | inr (o, e) ↦ let p = some_inj (rw (hit, e, first_conflict) at h) in omega arith
            ]
        | inr miss ↦ first_conflict-lt g start end rest c (rw (miss, first_conflict) at h)
      ]

  pub preload_start-le :
      (g : PreloadGroup) (next cost : ℕ) (events : List (DirectEvent Json))
      → preload_start g next cost events ≤ g.deadline
  unfolding preload_start
  preload_start-le g next cost events =
      let start = min g.deadline next - cost in
      let end = saturating_add start cost in
      elim (Option-cases (first_conflict g start end events)) [
        | inl e ↦ rw (e, preload_start) (omega arith)
        | inr (c, e) ↦
            let early = first_conflict-lt g start end events c e in
            rw (e, preload_start) (omega arith)
      ]

  pub pairs-GroupIsValid :
      (events : List (DirectEvent Json))
      → All (GroupIsValid events) (reverse (preload_pairs events))
  unfolding preload_pairs
  pairs-GroupIsValid events =
      All-reverse_aux (GroupIsValid events) (preload_pairs events) []
        (All-sort_by_key (λ (g : PreloadGroup). g.deadline ∷ order_key g.order)
          (GroupIsValid events) _
          (All-keep (GroupIsValid events) _ _ (
            group_preloads-GroupIsValid events 0 events []
              (λ i x p. subst (λ j. get_elem? events j ≡ some x) (omega arith) p) tt)))
        tt

-- ===== src/Rtmq/Schedule/Board/Ttl.antt =====
-- The TTL events of a board, gathered to one call for each offset.
use catseq.Prelude.{
  ℕ, suc, ◌<◌, ◌≤◌, ◌==◌, ◌≡◌, ◌≢◌, refl, arith, true, Option, none, some, List, [], ◌∷◌, get_elem?,
  All, All-map, sym, ap, ◌∙◌, inl, inr, Bool-cases, ==_iff, ==_refl, ne→==,
}
use mathlib.Core.Path.{subst}
use catseq.Prelude.Sort.{keep, key_leb, IsAscending, sort_by_key, sort_by_key-IsAscending}
use catseq.Rtmq.Schedule.{TtlEvent, order_key}
use catseq.Rtmq.Schedule.Board.{TtlGroup, open_group, add_to_group, gather_after, gather, ttl_key}

abbrev pub add_all : TtlGroup → List TtlEvent → TtlGroup
add_all g [] = g
add_all g (event ∷ rest) = add_all (add_to_group g event) rest

abbrev pub at_offset : ℕ → List TtlEvent → List TtlEvent
at_offset offset = keep (λ (event : TtlEvent). event.offset_cycles == offset)

abbrev pub group_of : List TtlEvent → Option TtlGroup
group_of [] = none
group_of (event ∷ rest) = some (add_all (add_to_group (open_group event) event) rest)

-- The group of an offset by itself: what all the events of that offset come to, in their order.
abbrev pub group_at : ℕ → List TtlEvent → Option TtlGroup
group_at offset events = group_of (at_offset offset events)

abbrev IsBehind : ℕ → TtlEvent → Type 0
IsBehind offset event = offset ≤ event.offset_cycles

abbrev IsInOrder : List TtlEvent → Type 0
IsInOrder [] = Unit
IsInOrder (event ∷ rest) = All (IsBehind event.offset_cycles) rest × IsInOrder rest

abbrev pub IsStrict : List TtlGroup → Type 0
IsStrict [] = Unit
IsStrict (g ∷ groups) = All (λ (h : TtlGroup). g.offset < h.offset) groups × IsStrict groups

abbrev pub HasGroup : List TtlGroup → ℕ → Type 0
HasGroup groups offset =
    (i : ℕ) × (g : TtlGroup) × (get_elem? groups i ≡ some g) × (g.offset ≡ offset)

at_offset_none :
    (offset low : ℕ) (events : List TtlEvent)
    → offset < low
    → All (IsBehind low) events
    → at_offset offset events ≡ []
at_offset_none offset low [] h b = refl
at_offset_none offset low (event ∷ rest) h (p, b) =
    rw (ne→== event.offset_cycles offset (λ e. omega arith)) (at_offset_none offset low rest h b)

group_at_skip :
    (offset : ℕ) (event : TtlEvent) (rest : List TtlEvent)
    → event.offset_cycles ≢ offset
    → group_at offset (event ∷ rest) ≡ group_at offset rest
group_at_skip offset event rest n = rw (ne→== event.offset_cycles offset n) refl

add_all-offset : (g : TtlGroup) (events : List TtlEvent) → (add_all g events).offset ≡ g.offset
unfolding add_to_group
add_all-offset g [] = refl
add_all-offset g (event ∷ rest) = add_all-offset (add_to_group g event) rest

HasGroup-cons :
    (g : TtlGroup) (groups : List TtlGroup) (offset : ℕ)
    → HasGroup groups offset
    → HasGroup (g ∷ groups) offset
HasGroup-cons g groups offset (i, h, at, same) = (suc i, h, at, same)

All-both {ℓ κ μ ν} :
    {A : Type ℓ} {P : A → Type κ} {Q : A → Type μ} {R : A → Type ν}
    → ((x : A) → P x → Q x → R x)
    → (xs : List A) → All P xs
    → All Q xs
    → All R xs
All-both f [] h k = tt
All-both f (x ∷ xs) (p, h) (q, k) = (f x p q, All-both f xs h k)

abbrev first_group : TtlGroup → List TtlEvent → TtlGroup
first_group g events = add_all g (at_offset g.offset events)

-- The groups behind the one that is being gathered.
record Others (g : TtlGroup) (events : List TtlEvent) (others : List TtlGroup) : Type 0 where
  gathered : gather_after g events ≡ first_group g events ∷ others
  behind : All (λ (h : TtlGroup). g.offset < h.offset) others
  exact : All (λ (h : TtlGroup). group_at h.offset events ≡ some h) others
  strict : IsStrict others
  covered :
      All
        (λ (event : TtlEvent). HasGroup (first_group g events ∷ others) event.offset_cycles)
        events

skipped :
    (offset : ℕ) (event : TtlEvent) (rest : List TtlEvent) (others : List TtlGroup)
    → event.offset_cycles ≤ offset
    → All (λ (h : TtlGroup). offset < h.offset) others
    → All (λ (h : TtlGroup). group_at h.offset rest ≡ some h) others
    → All (λ (h : TtlGroup). group_at h.offset (event ∷ rest) ≡ some h) others
skipped offset event rest others le behind exact =
    All-both (λ (h : TtlGroup) p q. group_at_skip h.offset event rest (λ e. omega arith) ∙ q) others
      behind exact

Others-of :
    (g : TtlGroup) (events : List TtlEvent)
    → All (IsBehind g.offset) events
    → IsInOrder events
    → (others : List TtlGroup) × Others g events others
unfolding gather_after add_to_group
Others-of g [] b o =
    ([], record { gathered = refl; behind = tt; exact = tt; strict = tt; covered = tt })
Others-of g (event ∷ rest) (p, b) (below, o) = elim (Bool-cases (event.offset_cycles == g.offset)) [
  | inl same ↦
      let e : event.offset_cycles ≡ g.offset = (==_iff event.offset_cycles g.offset).0 same in
      let g' = add_to_group g event in
      let (others, r) = Others-of g' rest b o in
      let first = first_group g' rest in
      let whole : first_group g (event ∷ rest) ≡ first = rw same refl in
      (
        others,
        record {
          gathered = rw (same, gather_after) r.gathered;
          behind = r.behind;
          exact = skipped g.offset event rest others (omega arith) r.behind r.exact;
          strict = r.strict;
          covered =
              subst
                (λ k. All (λ (x : TtlEvent). HasGroup (k ∷ others) x.offset_cycles) (event ∷ rest))
                (sym whole)
                ((0, first, refl, add_all-offset g' (at_offset g.offset rest) ∙ sym e), r.covered);
        },
      )
  | inr other ↦
      let e : event.offset_cycles ≢ g.offset = λ q. ground arith in
      let later : g.offset < event.offset_cycles = omega arith in
      let g' = add_to_group (open_group event) event in
      let (others, r) = Others-of g' rest below o in
      let first = first_group g' rest in
      let at : first.offset ≡ event.offset_cycles =
        add_all-offset g' (at_offset event.offset_cycles rest) in
      let alone : first_group g (event ∷ rest) ≡ g =
        ap (add_all g)
          (at_offset_none g.offset event.offset_cycles (event ∷ rest) later (omega arith, below)) in
      let here : group_at event.offset_cycles (event ∷ rest) ≡ some first =
        rw (==_refl event.offset_cycles) refl in
      (
        first ∷ others,
        record {
          gathered =
              rw (other, gather_after) (ap (◌∷◌ g) r.gathered)
              ∙ ap (λ k. k ∷ first ∷ others) (sym alone);
          behind = (rw at later, All-map (λ (h : TtlGroup) q. omega arith) others r.behind);
          exact = (
            ap (λ k. group_at k (event ∷ rest)) at ∙ here,
            skipped event.offset_cycles event rest others (omega arith) r.behind r.exact,
          );
          strict = (rw at r.behind, r.strict);
          covered =
              subst
                (λ k.
                  All (λ (x : TtlEvent). HasGroup (k ∷ first ∷ others) x.offset_cycles)
                    (event ∷ rest))
                (sym alone)
                (
                  (1, first, refl, at),
                  All-map (λ (x : TtlEvent) q. HasGroup-cons g (first ∷ others) x.offset_cycles q)
                      rest r.covered,
                );
        },
      )
]

sorted-IsInOrder : (events : List TtlEvent) → IsAscending ttl_key events → IsInOrder events
sorted-IsInOrder [] h = tt
sorted-IsInOrder (event ∷ rest) (below, h) = (
  All-map
      (λ (x : TtlEvent) e.
        first_le event.offset_cycles x.offset_cycles (event.local_id ∷ order_key event.order)
          (x.local_id ∷ order_key x.order) e)
      rest below,
  sorted-IsInOrder rest h,
)
  where
    first_le : (a b : ℕ) (j k : List ℕ) → key_leb (a ∷ j) (b ∷ k) ≡ true → a ≤ b
    first_le a b j k e = ground arith

-- What is gathered from sorted events.
record Gathered (events : List TtlEvent) (groups : List TtlGroup) : Type 0 where
  strict : IsStrict groups
  exact : All (λ (g : TtlGroup). group_at g.offset events ≡ some g) groups
  covered : All (λ (event : TtlEvent). HasGroup groups event.offset_cycles) events

Gathered-of : (events : List TtlEvent) → IsInOrder events → Gathered events (gather events)
unfolding add_to_group
Gathered-of [] o = record { strict = tt; exact = tt; covered = tt }
Gathered-of (event ∷ rest) (below, o) =
    let g = add_to_group (open_group event) event in
    let (others, r) = Others-of g rest below o in
    let first = first_group g rest in
    let at : first.offset ≡ event.offset_cycles =
      add_all-offset g (at_offset event.offset_cycles rest) in
    let here : group_at event.offset_cycles (event ∷ rest) ≡ some first =
      rw (==_refl event.offset_cycles) refl in
    subst (Gathered (event ∷ rest)) (sym r.gathered) (record {
      strict = (rw at r.behind, r.strict);
      exact = (
        ap (λ k. group_at k (event ∷ rest)) at ∙ here,
        skipped event.offset_cycles event rest others (omega arith) r.behind r.exact,
      );
      covered = ((0, first, refl, at), r.covered);
    })

-- One call for each offset: the groups that the loop gathers from the sorted TTL events have strictly
-- ascending offsets, every event has a group at its offset, and each group is the one that the events
-- of its offset make by themselves, in their order.
pub gather_groups :
    (events : List TtlEvent)
    → IsStrict (gather (sort_by_key ttl_key events))
      × All
          (λ (g : TtlGroup). group_at g.offset (sort_by_key ttl_key events) ≡ some g)
          (gather (sort_by_key ttl_key events))
      × All
          (λ (event : TtlEvent). HasGroup (gather (sort_by_key ttl_key events)) event.offset_cycles)
          (sort_by_key ttl_key events)
gather_groups events =
    let sorted = sort_by_key ttl_key events in
    let r = Gathered-of sorted (sorted-IsInOrder sorted (sort_by_key-IsAscending ttl_key events)) in
    (r.strict, r.exact, r.covered)

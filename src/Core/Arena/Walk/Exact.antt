-- ===== src/Core/Arena/Walk/Exact.antt =====
-- What the walk counts: each node below the root, once.
use catseq.Prelude.{
  ℕ, suc, zero, ◌+◌, ◌≡◌, ◌↔◌, refl, true, false, ◌||◌, Option, none, some, List, [], ◌∷◌, ◌++◌,
  length, Result, ok, err, All, All-append, All-map, ok_inj, some_inj, sym, ap, ◌∙◌, inl, inr,
  Bool-cases,
}
use mathlib.Core.Path.{subst}
use catseq.Core.Arena.{StoreInner, NodeRef, ArenaError}
use catseq.Core.Arena.Acyclic.{Points}
use catseq.Core.Arena.Walk.{same_node, has_node, Walked, visit, walk, reachable_stats}
use catseq.Core.Arena.Walk.Pushes.{
  same_node-eq, same_node_refl, has_node-append, has_node-All, either, has_behind, NoTwins, or_left,
  or_right, left_of, visit-pushes,
}

module _ (id : ℕ) (s : StoreInner) where
  -- The nodes below a root, itself among them.
  pub data Below (root : NodeRef) : NodeRef → Type 0 where
    at_root : Below root root
    below : (r c : NodeRef) → Below root r → Points id s c r → Below root c

  record Walks (root : NodeRef) (seen stack : List NodeRef) : Type 0 where
    twins : NoTwins seen
    seen_below : All (Below root) seen
    stack_below : All (Below root) stack
    root_there : (has_node root seen || has_node root stack) ≡ true
    closed :
        (r c : NodeRef)
        → has_node r seen ≡ true
        → Points id s c r
        → (has_node c seen || has_node c stack) ≡ true

  drop_old :
      (r c : NodeRef) (seen stack : List NodeRef)
      → has_node r seen ≡ true
      → (has_node c seen || has_node c (r ∷ stack)) ≡ true
      → (has_node c seen || has_node c stack) ≡ true
  drop_old r c seen stack old h = elim (either (has_node c seen) _ h) [
    | inl e ↦ rw e refl
    | inr e ↦ elim (either (same_node r c) (has_node c stack) e) [
      | inl same ↦
          let there : has_node c seen ≡ true =
            ap (λ z. has_node z seen) (sym (same_node-eq r c same)) ∙ old in
          rw there refl
      | inr behind ↦ or_right (has_node c seen) (has_node c stack) behind
    ]
  ]

  keep_new :
      (r c : NodeRef) (seen stack pushed : List NodeRef)
      → (has_node c seen || has_node c (r ∷ stack)) ≡ true
      → (has_node c (r ∷ seen) || has_node c (pushed ++ stack)) ≡ true
  keep_new r c seen stack pushed h = elim (either (has_node c seen) _ h) [
    | inl e ↦ rw (has_behind r c seen e) refl
    | inr e ↦ elim (either (same_node r c) (has_node c stack) e) [
      | inl same ↦ rw same refl
      | inr behind ↦
          or_right (has_node c (r ∷ seen)) (has_node c (pushed ++ stack)) (
            has_node-append c pushed stack ∙ or_right (has_node c pushed) (has_node c stack) behind)
    ]
  ]

  Walks-old :
      (root r : NodeRef) (seen stack : List NodeRef)
      → has_node r seen ≡ true
      → Walks root seen (r ∷ stack)
      → Walks root seen stack
  Walks-old root r seen stack old w = record {
    twins = w.twins;
    seen_below = w.seen_below;
    stack_below = w.stack_below.1;
    root_there = drop_old r root seen stack old w.root_there;
    closed = λ x c h edge. drop_old r c seen stack old (w.closed x c h edge);
  }

  Walks-new :
      (root r : NodeRef) (seen stack pushed : List NodeRef) (k : ℕ)
      → has_node r seen ≡ false
      → visit id s r ≡ ok (pushed, k)
      → Walks root seen (r ∷ stack)
      → Walks root (r ∷ seen) (pushed ++ stack)
  Walks-new root r seen stack pushed k new e w =
      let (all, complete) = visit-pushes id s r pushed k e in
      record {
        twins = (new, w.twins);
        seen_below = (w.stack_below.0, w.seen_below);
        stack_below =
            All-append (Below root) pushed stack
              (All-map (λ c edge. below r c w.stack_below.0 edge) pushed all) w.stack_below.1;
        root_there = keep_new r root seen stack pushed w.root_there;
        closed = λ x c h edge. elim (either (same_node r x) (has_node x seen) h) [
          | inl same ↦
              let p : r ≡ x = same_node-eq r x same in
              or_right (has_node c (r ∷ seen)) (has_node c (pushed ++ stack)) (
                has_node-append c pushed stack
                ∙ or_left (has_node c pushed) (has_node c stack)
                    (complete c (subst (λ z. Points id s c z) (sym p) edge)))
          | inr old ↦ keep_new r c seen stack pushed (w.closed x c old edge)
        ];
      }

  walk-Walks :
      (root : NodeRef) (fuel : ℕ) (seen stack : List NodeRef) (count : ℕ) (found : List NodeRef)
      (total : ℕ)
      → walk id s fuel seen stack count ≡ some (ok (found, total))
      → Walks root seen stack
      → Walks root found []
  unfolding walk
  walk-Walks root fuel seen [] count found total e w =
      subst (λ l. Walks root l []) (ap (λ (q : List NodeRef × ℕ). q.0) (ok_inj (some_inj e))) w
  walk-Walks root zero seen (r ∷ stack) count found total e w = absurd (clash e)
    where
      clash : ◌≡◌ {A = Option Walked} none (some (ok (found, total))) → ⊥
      clash q = cc
  walk-Walks root (suc fuel) seen (r ∷ stack) count found total e w =
      elim (Bool-cases (has_node r seen)) [
        | inl old ↦
            walk-Walks root fuel seen stack count found total (rw (old, walk) at e)
              (Walks-old root r seen stack old w)
        | inr new ↦ by_visit (visit id s r) refl new (λ pushed k a b.
            walk-Walks root fuel (r ∷ seen) (pushed ++ stack) (count + k) found total a b)
      ]
    where
      by_visit :
          (v : Result ArenaError (List NodeRef × ℕ))
          → visit id s r ≡ v
          → has_node r seen ≡ false
          → ((pushed : List NodeRef) (k : ℕ)
              → walk id s fuel (r ∷ seen) (pushed ++ stack) (count + k) ≡ some (ok (found, total))
              → Walks root (r ∷ seen) (pushed ++ stack)
              → Walks root found [])
          → Walks root found []
      by_visit (err x) q new next = absurd (clash (rw (new, q, walk) at e))
        where
          clash : ◌≡◌ {A = Option Walked} (some (err x)) (some (ok (found, total))) → ⊥
          clash p = cc
      by_visit (ok (pushed, k)) q new next =
          next pushed k (rw (new, q, walk) at e) (Walks-new root r seen stack pushed k new q w)

  Below-has_node :
      (root : NodeRef) (found : List NodeRef)
      → Walks root found []
      → (c : NodeRef) → Below root c
      → has_node c found ≡ true
  Below-has_node root found w c at_root = left_of (has_node root found) w.root_there
  Below-has_node root found w c (below r _ b edge) =
      left_of (has_node c found) (w.closed r c (Below-has_node root found w r b) edge)

  -- The number of nodes that the statistics give is that of the nodes below the root, the root among
  -- them, over children and templates: there is a list of so many references, none twice, that holds
  -- a reference exactly where it is one of them, however often it is shared.
  pub reachable_stats_exact :
      (fuel : ℕ) (root : NodeRef) (nodes instances : ℕ)
      → reachable_stats id s fuel root ≡ some (ok (nodes, instances))
      → (found : List NodeRef) × (length found ≡ nodes)
        × NoTwins found
        × ((c : NodeRef) → (has_node c found ≡ true) ↔ Below root c)
  unfolding reachable_stats
  reachable_stats_exact fuel root nodes instances e = by_walk (walk id s fuel [] (root ∷ []) 0) refl
    where
      by_walk :
          (w : Option Walked)
          → walk id s fuel [] (root ∷ []) 0 ≡ w
          → (found : List NodeRef) × (length found ≡ nodes)
            × NoTwins found
            × ((c : NodeRef) → (has_node c found ≡ true) ↔ Below root c)
      by_walk none q = absurd (clash (rw (q, reachable_stats) at e))
        where
          clash :
              ◌≡◌ {A = Option (Result ArenaError (ℕ × ℕ))} none (some (ok (nodes, instances))) → ⊥
          clash p = cc
      by_walk (some (err x)) q = absurd (clash (rw (q, reachable_stats) at e))
        where
          clash :
              ◌≡◌ {A = Option (Result ArenaError (ℕ × ℕ))}
                (some (err x))
                (some (ok (nodes, instances)))
              → ⊥
          clash p = cc
      by_walk (some (ok (found, total))) q =
          let start : Walks root [] (root ∷ []) = record {
            twins = tt;
            seen_below = tt;
            stack_below = (at_root, tt);
            root_there = rw (same_node_refl root) refl;
            closed = λ r c h edge. cc;
          } in
          let w = walk-Walks root fuel [] (root ∷ []) 0 found total q start in
          let same = ok_inj (some_inj (rw (q, reachable_stats) at e)) in
          (
            found,
            ap (λ (p : ℕ × ℕ). p.0) same,
            w.twins,
            λ c. (
              λ h. has_node-All (Below root) c found w.seen_below h,
              Below-has_node root found w c,
            ),
          )

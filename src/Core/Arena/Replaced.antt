-- ===== src/Core/Arena/Replaced.antt =====
-- The nodes of a store that differs from another in one segment, and what a new node points to.
use catseq.Prelude.{
  ℕ, suc, zero, ◌==◌, ◌≡◌, ◌⊎◌, arith, true, Option, none, some, List, [], ◌∷◌, ◌++◌, ok,
  All-get_elem?, get_elem?, set, get_elem?-set_self, get_elem?-set_ne, get_elem?-some_lt, inl, inr,
  ok_inj, some_inj, sym, ap, ◌∙◌, Bool-cases, ==_iff,
}
use mathlib.Core.Path.{subst}
use catseq.Core.Arena.{
  StoreInner, Segment, Node, NodeRef, Template, segment_id, instantiate, node_from, with_node,
  valid_shape,
}
use catseq.Core.Arena.Extend.{
  segment_from-ok, ok-segment_from, node_from-ok, ok-node_from, template_from-ok,
}
use catseq.Core.Arena.Wellformed.{NodeIsValid, StoreIsValid, TemplateIsValid, ChildIsValid}
use catseq.Core.Arena.Acyclic.{Points, to_left, to_right, to_root, Exists, left_child, right_child}

pub appended_at {ℓ} :
    {A : Type ℓ} (xs : List A) (v : A) (i : ℕ) (x : A)
    → get_elem? (xs ++ v ∷ []) i ≡ some x
    → (get_elem? xs i ≡ some x) ⊎ (x ≡ v)
appended_at [] v zero x h = inr (sym (some_inj h))
appended_at [] v (suc i) x h = cc
appended_at (y ∷ xs) v zero x h = inl h
appended_at (y ∷ xs) v (suc i) x h = appended_at xs v i x h

module _ (id : ℕ) where
  -- A lookup in a store that differs in one segment.
  pub node_from-set :
      (s t : StoreInner) (i : ℕ) (x y : Segment) (r : NodeRef) (n : Node)
      → t.segments ≡ set s.segments i y
      → get_elem? s.segments i ≡ some x
      → node_from id t r ≡ ok n
      → (node_from id s r ≡ ok n)
        ⊎ ((r.store ≡ id) × (r.segment ≡ i) × (get_elem? y.nodes r.index ≡ some n))
  node_from-set s t i x y r n same at e =
      let (z, found, place) = node_from-ok id t r n e in
      let (own, there) = segment_from-ok id t (segment_id r) z found in
      let there' = ap (λ (l : List Segment). get_elem? l r.segment) (sym same) ∙ there in
      elim (Bool-cases (i == r.segment)) [
        | inl hit ↦
            let p : i ≡ r.segment = (==_iff i r.segment).0 hit in
            let q : y ≡ z = some_inj (
              sym (get_elem?-set_self s.segments i y (get_elem?-some_lt s.segments i x at))
              ∙ ap (get_elem? (set s.segments i y)) p
              ∙ there') in
            inr (own, sym p, ap (λ (w : Segment). get_elem? w.nodes r.index) q ∙ place)
        | inr other ↦
            let kept = sym (get_elem?-set_ne s.segments i r.segment y (ground arith)) ∙ there' in
            inl (ok-node_from id s r z n (ok-segment_from id s (segment_id r) z own kept) place)
      ]

  -- With one node put behind those of a segment, every node is old or that one.
  pub node_from-put :
      (s t : StoreInner) (i : ℕ) (x : Segment) (node : Node) (r : NodeRef) (n : Node)
      → t.segments ≡ set s.segments i (with_node id x node)
      → get_elem? s.segments i ≡ some x
      → node_from id t r ≡ ok n
      → (node_from id s r ≡ ok n) ⊎ (n ≡ node)
  node_from-put s t i x node r n same at e =
      elim (node_from-set s t i x (with_node id x node) r n same at e) [
        | inl old ↦ inl old
        | inr (own, p, place) ↦ elim (appended_at x.nodes node r.index n place) [
          | inl before ↦ inl (
              ok-node_from id s r x n
                (ok-segment_from id s (segment_id r) x own (ap (get_elem? s.segments) p ∙ at))
                before)
          | inr new ↦ inr new
        ]
      ]

  pub child-Exists :
      (s t : StoreInner) (kind : _) {c r : NodeRef} (n : Node)
      → NodeIsValid id s kind n
      → valid_shape n.kind n.left n.right ≡ true
      → node_from id t r ≡ ok n
      → Points id t c r
      → Exists id s c
  unfolding valid_shape
  child-Exists s t kind n v shape e (to_left c r m f l) =
      let p : m ≡ n = ok_inj (sym f ∙ e) in
      let (k, y, known, in_segment, level) =
        left_child (ChildIsValid id s kind) n.left n.right c (ap (λ (z : Node). z.left) (sym p) ∙ l)
          v.children in
      (k, known)
  child-Exists s t kind n v shape e (to_right c r m f l) =
      let p : m ≡ n = ok_inj (sym f ∙ e) in
      let (k, y, known, in_segment, level) =
        right_child (ChildIsValid id s kind) n.left n.right c
          (ap (λ (z : Node). z.right) (sym p) ∙ l) v.children in
      (k, known)
  child-Exists s t kind n v shape e (to_root r m i k f inst at found) =
      let p : m ≡ n = ok_inj (sym f ∙ e) in
      absurd (
        clash n.left n.right (
          subst (λ k. valid_shape k n.left n.right ≡ true)
            (ap (λ (z : Node). z.kind) (sym p) ∙ inst) shape))
    where
      clash : (l r : Option NodeRef) → valid_shape instantiate l r ≡ true → ⊥
      clash l r q = cc

  pub root_of_new :
      (s t : StoreInner) {c r : NodeRef} (node : Node)
      → StoreIsValid id s
      → t.templates ≡ s.templates
      → node.left ≡ none
      → node.right ≡ none
      → node_from id t r ≡ ok node
      → Points id t c r
      → Exists id s c
  root_of_new s t node v same no_left no_right e (to_left c r m f l) =
      absurd (clash (sym no_left ∙ ap (λ (z : Node). z.left) (ok_inj (sym e ∙ f)) ∙ l))
    where
      clash : none ≡ some c → ⊥
      clash q = cc
  root_of_new s t node v same no_left no_right e (to_right c r m f l) =
      absurd (clash (sym no_right ∙ ap (λ (z : Node). z.right) (ok_inj (sym e ∙ f)) ∙ l))
    where
      clash : none ≡ some c → ⊥
      clash q = cc
  root_of_new s t node v same no_left no_right e (to_root r m i k f inst at found) =
      let (own, place) = template_from-ok id t i.template k found in
      let place' = ap (λ (l : List Template). get_elem? l i.template.index) (sym same) ∙ place in
      let (n, seg, known, in_segment, level) =
        All-get_elem? (TemplateIsValid id s) s.templates i.template.index k v.templates place' in
      (n, known)

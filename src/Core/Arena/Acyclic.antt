-- ===== src/Core/Arena/Acyclic.antt =====
-- The nodes form a directed graph without infinite descents: a node refers only to nodes that were
-- there before it.
use catseq.Prelude.{
  ℕ, ◌≡◌, ◌⊎◌, true, Option, none, some, ok, All, All-get_elem?, get_elem?, inl, inr, ok_inj,
  some_inj, sym, ap, ◌∙◌,
}
use mathlib.Core.Path.{subst}
use mathlib.Core.WellFounded.{Acc}
use catseq.Core.Arena.{
  StoreInner, Segment, Node, NodeRef, TemplateInstance, Template, segment_id, instantiate,
  node_from, template_from, children_of, valid_shape,
}
use catseq.Core.Arena.Extend.{
  Extends, segment_from-ok, node_from-ok, node_from-Extends, template_from-ok,
  template_from-Extends,
}
use catseq.Core.Arena.Wellformed.{
  NodeIsValid, StoreIsValid, SegmentIsValid, TemplateIsValid, ChildIsValid, InstanceIsValid,
}

-- The edges that `reachable_stats` follows: to the children, and from an instantiation to the root of
-- its template.
pub data Points (id : ℕ) (s : StoreInner) : NodeRef → NodeRef → Type 0 where
  to_left :
      (child parent : NodeRef) (n : Node)
      → node_from id s parent ≡ ok n
      → n.left ≡ some child
      → Points id s child parent
  to_right :
      (child parent : NodeRef) (n : Node)
      → node_from id s parent ≡ ok n
      → n.right ≡ some child
      → Points id s child parent
  to_root :
      (parent : NodeRef) (n : Node) (x : TemplateInstance) (m : Template)
      → node_from id s parent ≡ ok n
      → n.kind ≡ instantiate
      → get_elem? s.instances n.payload_id ≡ some x
      → template_from id s x.template ≡ ok m
      → Points id s m.root parent

abbrev pub Exists : ℕ → StoreInner → NodeRef → Type 0
Exists id s r = (n : Node) × (node_from id s r ≡ ok n)

pub left_child :
    (P : NodeRef → Type 0) (l r : Option NodeRef) (c : NodeRef)
    → l ≡ some c
    → All P (children_of l r)
    → P c
left_child P none r c e h = cc
left_child P (some l) none c e h = subst P (some_inj e) h.0
left_child P (some l) (some r) c e h = subst P (some_inj e) h.0

pub right_child :
    (P : NodeRef → Type 0) (l r : Option NodeRef) (c : NodeRef)
    → r ≡ some c
    → All P (children_of l r)
    → P c
right_child P l none c e h = cc
right_child P none (some r) c e h = subst P (some_inj e) h.0
right_child P (some l) (some r) c e h = subst P (some_inj e) h.1.0

module _ (id : ℕ) where
  pub valid_at :
      (s : StoreInner) (r : NodeRef) (n : Node)
      → StoreIsValid id s
      → node_from id s r ≡ ok n
      → (x : Segment) × NodeIsValid id s x.kind n
  valid_at s r n v e =
      let (x, found, place) = node_from-ok id s r n e in
      let (own, at) = segment_from-ok id s (segment_id r) x found in
      (
        x,
        All-get_elem? (NodeIsValid id s x.kind) x.nodes r.index n
            (All-get_elem? (SegmentIsValid id s) s.segments r.segment x v.segments at) place,
      )

  -- An instantiation that is valid in a store leads to a root of that store, in each later one too.
  root-Exists :
      (s t : StoreInner) (n : Node) (x : TemplateInstance) (m : Template)
      → StoreIsValid id s
      → Extends s t
      → InstanceIsValid id s n.payload_id
      → get_elem? t.instances n.payload_id ≡ some x
      → template_from id t x.template ≡ ok m
      → (template_from id s x.template ≡ ok m)
        × (get_elem? s.instances n.payload_id ≡ some x)
        × Exists id s m.root
  root-Exists s t n x m v later (y, k, there, known) at found =
      let p : y ≡ x = some_inj (sym (later.instances n.payload_id y there) ∙ at) in
      let q : k ≡ m = ok_inj (
        sym (template_from-Extends id s t later y.template k known)
        ∙ ap (λ (z : TemplateInstance). template_from id t z.template) p
        ∙ found) in
      let (own, place) = template_from-ok id s y.template k known in
      let (node, seg, root, in_segment, level) =
        All-get_elem? (TemplateIsValid id s) s.templates y.template.index k v.templates place in
      (
        ap (λ (z : TemplateInstance). template_from id s z.template) (sym p) ∙ known ∙ ap ok q,
        there ∙ ap some p,
        subst (λ (z : Template). Exists id s z.root) q (node, root),
      )

  instance_of :
      (s : StoreInner) (kind : _) (n : Node)
      → NodeIsValid id s kind n
      → n.kind ≡ instantiate
      → InstanceIsValid id s n.payload_id
  unfolding valid_shape
  instance_of s kind n v e = elim v.shape [
    | inl fine ↦
        absurd (clash n.left n.right (subst (λ k. valid_shape k n.left n.right ≡ true) e fine))
    | inr (is_instance, i) ↦ i
  ]
    where
      clash : (l r : Option NodeRef) → valid_shape instantiate l r ≡ true → ⊥
      clash l r q = cc

  -- A later store has no new edges below an old node, and these lead to old nodes.
  old_edge :
      (s t : StoreInner) {r c : NodeRef} (n : Node)
      → StoreIsValid id s
      → Extends s t
      → node_from id s r ≡ ok n
      → Points id t c r
      → Points id s c r × Exists id s c
  old_edge s t n v later e (to_left c r m f l) =
      let p : m ≡ n = ok_inj (sym f ∙ node_from-Extends id s t later r n e) in
      let l' = ap (λ (z : Node). z.left) (sym p) ∙ l in
      let (x, fine) = valid_at s r n v e in
      let (k, y, known, in_segment, level) =
        left_child (ChildIsValid id s x.kind) n.left n.right c l' fine.children in
      (to_left c r n e l', (k, known))
  old_edge s t n v later e (to_right c r m f l) =
      let p : m ≡ n = ok_inj (sym f ∙ node_from-Extends id s t later r n e) in
      let l' = ap (λ (z : Node). z.right) (sym p) ∙ l in
      let (x, fine) = valid_at s r n v e in
      let (k, y, known, in_segment, level) =
        right_child (ChildIsValid id s x.kind) n.left n.right c l' fine.children in
      (to_right c r n e l', (k, known))
  old_edge s t n v later e (to_root r m i k f kind at found) =
      let p : m ≡ n = ok_inj (sym f ∙ node_from-Extends id s t later r n e) in
      let kind' = ap (λ (z : Node). z.kind) (sym p) ∙ kind in
      let (x, fine) = valid_at s r n v e in
      let at' = ap (λ (z : Node). get_elem? t.instances z.payload_id) (sym p) ∙ at in
      let (known, place, there) =
        root-Exists s t n i k v later (instance_of s x.kind n fine kind') at' found in
      (to_root r n i k e kind' place known, there)

  abbrev Descends : StoreInner → NodeRef → Type 0
  Descends s r = Acc (Points id s) r

  Acc-Extends :
      (s t : StoreInner)
      → StoreIsValid id s
      → Extends s t
      → (r : NodeRef) (n : Node) → node_from id s r ≡ ok n
      → Descends s r
      → Descends t r
  Acc-Extends s t v later _ n e (Acc.intro r below) = Acc.intro r λ c edge.
      let (old, (k, known)) = old_edge s t n v later e edge in
      Acc-Extends s t v later c k known (below c old)

  abbrev pub IsAcyclic : StoreInner → Type 0
  IsAcyclic s = (r : NodeRef) (n : Node) → node_from id s r ≡ ok n → Acc (Points id s) r

  -- A node of a later store that is old, or all of whose edges lead to old nodes.
  abbrev pub Rests : StoreInner → StoreInner → NodeRef → Type 0
  Rests s t r = Exists id s r ⊎ ((c : NodeRef) → Points id t c r → Exists id s c)

  pub step-IsAcyclic :
      (s t : StoreInner)
      → StoreIsValid id s
      → Extends s t
      → IsAcyclic s
      → ((r : NodeRef) (n : Node) → node_from id t r ≡ ok n → Rests s t r)
      → IsAcyclic t
  step-IsAcyclic s t v later acyclic rests r n e = elim (rests r n e) [
    | inl (m, known) ↦ Acc-Extends s t v later r m known (acyclic r m known)
    | inr leads ↦ Acc.intro r λ c edge.
        let (m, known) = leads c edge in Acc-Extends s t v later c m known (acyclic c m known)
  ]

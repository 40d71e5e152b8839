-- ===== src/Core/Arena/Wellformed.antt =====
-- The invariant of the store: the shape of each node, and that what it refers to is there.
use catseq.Prelude.{ℕ, ◌≡◌, ◌⊎◌, true, not, ◌||◌, some, ok, All, All-map, get_elem?, inl, inr}
use catseq.Core.Arena.{
  StoreInner, Segment, Node, NodeRef, SegmentKind, TemplateInstance, Template, segment_id,
  instantiate, segment_from, node_from, template_from, is_template, children_of, valid_shape,
}
use catseq.Core.Arena.Extend.{
  Extends, segment_from-Extends, node_from-Extends, template_from-Extends,
}

-- A child is a node of the store, of a template segment where its parent's segment is one.
abbrev pub ChildIsValid : ℕ → StoreInner → SegmentKind → NodeRef → Type 0
ChildIsValid id s kind child =
    (n : Node) × (x : Segment) × (node_from id s child ≡ ok n)
    × (segment_from id s (segment_id child) ≡ ok x)
    × ((not (is_template kind) || is_template x.kind) ≡ true)

-- The payload of an instantiation is an instance of a template.
abbrev pub InstanceIsValid : ℕ → StoreInner → ℕ → Type 0
InstanceIsValid id s payload =
    (x : TemplateInstance) × (t : Template) × (get_elem? s.instances payload ≡ some x)
    × (template_from id s x.template ≡ ok t)

abbrev pub ShapeIsValid : ℕ → StoreInner → Node → Type 0
ShapeIsValid id s n =
    (valid_shape n.kind n.left n.right ≡ true)
    ⊎ ((n.kind ≡ instantiate) × InstanceIsValid id s n.payload_id)

pub record NodeIsValid (id : ℕ) (s : StoreInner) (kind : SegmentKind) (n : Node) : Type 0 where
  pub shape : ShapeIsValid id s n
  pub children : All (ChildIsValid id s kind) (children_of n.left n.right)

-- The root of a template is a node of a template segment.
abbrev pub TemplateIsValid : ℕ → StoreInner → Template → Type 0
TemplateIsValid id s t =
    (n : Node) × (x : Segment) × (node_from id s t.root ≡ ok n)
    × (segment_from id s (segment_id t.root) ≡ ok x)
    × (is_template x.kind ≡ true)

abbrev pub SegmentIsValid : ℕ → StoreInner → Segment → Type 0
SegmentIsValid id s x = All (NodeIsValid id s x.kind) x.nodes

abbrev pub PointsToTemplate : ℕ → StoreInner → TemplateInstance → Type 0
PointsToTemplate id s x = (t : Template) × (template_from id s x.template ≡ ok t)

pub record StoreIsValid (id : ℕ) (s : StoreInner) : Type 0 where
  pub segments : All (SegmentIsValid id s) s.segments
  pub templates : All (TemplateIsValid id s) s.templates
  pub instances : All (PointsToTemplate id s) s.instances

module _ (id : ℕ) where
  -- What is valid stays so.
  module _ (s t : StoreInner) (later : Extends s t) where
    pub ChildIsValid-Extends :
        (kind : SegmentKind) (c : NodeRef) → ChildIsValid id s kind c → ChildIsValid id t kind c
    ChildIsValid-Extends kind c (n, x, known, found, level) =
        let (y, still, (same, nodes)) = segment_from-Extends id s t later (segment_id c) x found in
        (n, y, node_from-Extends id s t later c n known, still, rw same level)

    pub InstanceIsValid-Extends : (p : ℕ) → InstanceIsValid id s p → InstanceIsValid id t p
    InstanceIsValid-Extends p (x, m, there, known) =
        (x, m, later.instances p x there, template_from-Extends id s t later x.template m known)

    pub NodeIsValid-Extends :
        (kind : SegmentKind) (n : Node) → NodeIsValid id s kind n → NodeIsValid id t kind n
    NodeIsValid-Extends kind n v = record {
      shape = elim v.shape [
        | inl fine ↦ inl fine
        | inr (is_instance, i) ↦ inr (is_instance, InstanceIsValid-Extends n.payload_id i)
      ];
      children = All-map (ChildIsValid-Extends kind) (children_of n.left n.right) v.children;
    }

    pub TemplateIsValid-Extends : (m : Template) → TemplateIsValid id s m → TemplateIsValid id t m
    TemplateIsValid-Extends m (n, x, known, found, kind) =
        let (y, still, (same, nodes)) =
          segment_from-Extends id s t later (segment_id m.root) x found in
        (n, y, node_from-Extends id s t later m.root n known, still, rw same kind)

    pub PointsToTemplate-Extends :
        (x : TemplateInstance) → PointsToTemplate id s x → PointsToTemplate id t x
    PointsToTemplate-Extends x (m, known) =
        (m, template_from-Extends id s t later x.template m known)

    pub SegmentIsValid-Extends : (x : Segment) → SegmentIsValid id s x → SegmentIsValid id t x
    SegmentIsValid-Extends x v = All-map (NodeIsValid-Extends x.kind) x.nodes v

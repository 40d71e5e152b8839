-- ===== src/Core/Arena/Checked.antt =====
-- What the checks of an operation say of the node that it appends.
use catseq.Prelude.{
  ℕ, ◌≡◌, refl, arith, true, false, not, some, List, [], ◌∷◌, ok, fail_if, All, inl, inr, >>=-eq-ok,
  >>-ok, fail_if-ok, ok_inj, sym, ap, ◌∙◌, Bool-cases,
}
use mathlib.Core.Path.{subst}
use catseq.Core.Arena.{
  StoreInner, Segment, Node, NodeRef, NodeKind, SegmentId, SegmentKind, segment_id, segment_from,
  node_from, is_template, compose_mask, composed, check_raw, children_of, children_exist,
  valid_shape, validate_template_children, template_children, template_child, is_composition,
  not_composition, program_child, auto_serial, strict_serial, parallel, is_instantiate,
  bare_instantiate, invalid_children,
}
use catseq.Core.Arena.Extend.{Extends, node_from-ok, segment_from-Extends}
use catseq.Core.Arena.Steps.{not-false}
use catseq.Core.Arena.Wellformed.{ChildIsValid, NodeIsValid, NodeIsValid-Extends}

module _ (id : ℕ) where
  -- Leaves have no children to check.
  pub leaf_valid :
      (s : StoreInner) (kind : SegmentKind) (n : Node)
      → valid_shape n.kind n.left n.right ≡ true
      → children_of n.left n.right ≡ []
      → NodeIsValid id s kind n
  leaf_valid s kind n shape none_there = record { shape = inl shape; children = rw none_there tt }

  pub template_children-ok :
      (s : StoreInner) (cs : List NodeRef)
      → template_children id s cs ≡ ok tt
      → All
          (λ c.
            (x : Segment) × (segment_from id s (segment_id c) ≡ ok x) × (is_template x.kind ≡ true))
          cs
  template_children-ok s [] h = tt
  template_children-ok s (c ∷ cs) h =
      let (one, rest) = >>-ok (template_child id s c) (template_children id s cs) h in
      let (x, found, fine) = >>=-eq-ok (segment_from id s (segment_id c)) _ one in
      (
        (x, found, not-false _ (fail_if-ok (not (is_template x.kind)) program_child fine)),
        template_children-ok s cs rest,
      )

  pub children_exist-ok :
      (s : StoreInner) (cs : List NodeRef)
      → children_exist id s cs ≡ ok tt
      → All (λ c. (n : Node) × (node_from id s c ≡ ok n)) cs
  children_exist-ok s [] h = tt
  children_exist-ok s (c ∷ cs) h =
      let (n, known, rest) = >>=-eq-ok (node_from id s c) (λ n. children_exist id s cs) h in
      ((n, known), children_exist-ok s cs rest)

  pub both :
      (s : StoreInner) (cs : List NodeRef)
      → All (λ c. (n : Node) × (node_from id s c ≡ ok n)) cs
      → All
          (λ c.
            (x : Segment) × (segment_from id s (segment_id c) ≡ ok x) × (is_template x.kind ≡ true))
          cs
      → (kind : SegmentKind) → All (ChildIsValid id s kind) cs
  both s [] h k kind = tt
  both s (c ∷ cs) ((n, known), h) ((x, found, level), k) kind =
      ((n, x, known, found, ground (arith, level)), both s cs h k kind)

  pub loose :
      (s : StoreInner) (cs : List NodeRef) (kind : SegmentKind)
      → is_template kind ≡ false
      → All (λ c. (n : Node) × (node_from id s c ≡ ok n)) cs
      → All (ChildIsValid id s kind) cs
  loose s [] kind free h = tt
  loose s (c ∷ cs) kind free ((n, known), h) =
      let (x, found, at) = node_from-ok id s c n known in
      ((n, x, known, found, rw free refl), loose s cs kind free h)

  -- The checks on the children of a node for a segment.
  pub checked_children :
      (s : StoreInner) (segment : SegmentId) (cs : List NodeRef)
      → All (λ c. (n : Node) × (node_from id s c ≡ ok n)) cs
      → validate_template_children id s segment cs ≡ ok tt
      → (x : Segment) × (segment_from id s segment ≡ ok x) × All (ChildIsValid id s x.kind) cs
  unfolding validate_template_children
  checked_children s segment cs exist h =
      let (x, found, rest) = >>=-eq-ok (segment_from id s segment) _ h in
      (
        x,
        found,
        elim (Bool-cases (is_template x.kind)) [
          | inl strict ↦ both s cs exist (template_children-ok s cs (rw strict at rest)) x.kind
          | inr free ↦ loose s cs x.kind free exist
        ],
      )

  -- A node that was valid for the segment when it was checked is so in every later store.
  pub carried :
      (s t : StoreInner) (segment : SegmentId) (x : Segment) (n : Node)
      → Extends s t
      → segment_from id s segment ≡ ok x
      → NodeIsValid id s x.kind n
      → (y : Segment) → segment_from id t segment ≡ ok y
      → NodeIsValid id t y.kind n
  carried s t segment x n later found v y now =
      let (z, still, (same, nodes)) = segment_from-Extends id s t later segment x found in
      let p : z ≡ y = ok_inj (sym still ∙ now) in
      subst (λ k. NodeIsValid id t k n) (sym same ∙ ap (λ (w : Segment). w.kind) p)
        (NodeIsValid-Extends id s t later x.kind n v)

  pub composition_shape :
      (kind : NodeKind) (l r : NodeRef)
      → is_composition kind ≡ true
      → valid_shape kind (some l) (some r) ≡ true
  unfolding valid_shape
  composition_shape auto_serial l r h = refl
  composition_shape strict_serial l r h = refl
  composition_shape parallel l r h = refl
  composition_shape _ l r h = cc

  pub compose_valid :
      (s : StoreInner) (segment : SegmentId) (kind : NodeKind) (l r : NodeRef) (provenance mask : ℕ)
      → compose_mask id segment kind l r s ≡ ok mask
      → (x : Segment) × (segment_from id s segment ≡ ok x)
        × NodeIsValid id s x.kind (composed id kind l r provenance mask)
        × (valid_shape kind (some l) (some r) ≡ true)
  unfolding compose_mask
  compose_valid s segment kind l r provenance mask h =
      let (fits, h1) = >>-ok (fail_if (not (is_composition kind)) not_composition) _ h in
      let (left, known_left, h2) = >>=-eq-ok (node_from id s l) _ h1 in
      let (right, known_right, h3) = >>=-eq-ok (node_from id s r) _ h2 in
      let (fine, h4) = >>-ok (validate_template_children id s segment (l ∷ r ∷ [])) _ h3 in
      let (x, found, children) =
        checked_children s segment (l ∷ r ∷ []) ((left, known_left), ((right, known_right), tt))
          fine in
      let shape =
        composition_shape kind l r
          (not-false _ (fail_if-ok (not (is_composition kind)) not_composition fits)) in
      (x, found, record { shape = inl shape; children = children }, shape)

  pub raw_valid :
      (s : StoreInner) (segment : SegmentId) (n : Node)
      → check_raw id segment n.kind n.left n.right s ≡ ok tt
      → (x : Segment) × (segment_from id s segment ≡ ok x)
        × NodeIsValid id s x.kind n
        × (valid_shape n.kind n.left n.right ≡ true)
  unfolding check_raw
  raw_valid s segment n h =
      let (plain, h1) = >>-ok (fail_if (is_instantiate n.kind) bare_instantiate) _ h in
      let (shaped, h2) =
        >>-ok (fail_if (not (valid_shape n.kind n.left n.right)) invalid_children) _ h1 in
      let (exist, fine) = >>-ok (children_exist id s (children_of n.left n.right)) _ h2 in
      let (x, found, children) =
        checked_children s segment (children_of n.left n.right)
          (children_exist-ok s (children_of n.left n.right) exist) fine in
      let shape =
        not-false _
          (fail_if-ok (not (valid_shape n.kind n.left n.right)) invalid_children shaped) in
      (x, found, record { shape = inl shape; children = children }, shape)

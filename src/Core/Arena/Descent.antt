-- ===== src/Core/Arena/Descent.antt =====
-- Every step of the store keeps its graph free of infinite descents.
use catseq.Prelude.{
  ℕ, ◌≤◌, ◌^◌, length, ◌≡◌, refl, arith, true, false, none, some, [], ok, get_elem?, inl, inr, sym,
  ap, ◌∙◌,
}
use mathlib.Core.WellFounded.{Acc}
use catseq.Core.Arena.{
  StoreInner, Segment, Node, NodeRef, SegmentId, TemplateId, segment_id, segment_from, node_from,
  put_segment, with_node, empty_store, create_segment, append, add_atomic, add_wait,
  add_source_call, instance_node, index_u32, valid_shape,
}
use catseq.Core.Arena.Extend.{Extends, segment_from-ok, ok-segment_from, node_from-ok, ok-node_from}
use catseq.Core.Arena.Steps.{
  Step, Reaches, created, atomic_added, wait_added, source_call_added, composition_added, raw_added,
  published, instantiated, here, further, append-cases, publish_template-cases, add_instance-cases,
  with_template, with_instance, Step-Extends,
}
use catseq.Core.Arena.Wellformed.{NodeIsValid, StoreIsValid}
use catseq.Core.Arena.Preserve.{Reaches-StoreIsValid, FitsInstances, Step-FitsInstances}
use catseq.Core.Arena.{create_segment}
use catseq.Core.Arena.Checked.{leaf_valid, carried, compose_valid, raw_valid}
use catseq.Core.Arena.Steps.{Reaches-Extends}
use catseq.Core.Arena.Acyclic.{Points, IsAcyclic, step-IsAcyclic}
use catseq.Core.Arena.Replaced.{
  appended_at, node_from-set, node_from-put, child-Exists, root_of_new,
}

module _ (id : ℕ) where
  append-IsAcyclic :
      (segment : SegmentId) (node : Node) (s : StoreInner)
      → StoreIsValid id s
      → Extends s (append id segment node s).1
      → valid_shape node.kind node.left node.right ≡ true
      → ((x : Segment) → segment_from id s segment ≡ ok x → NodeIsValid id s x.kind node)
      → IsAcyclic id s
      → IsAcyclic id (append id segment node s).1
  append-IsAcyclic segment node s v later shape fine acyclic =
      elim (append-cases id segment node s) [
        | inl same ↦ rw same acyclic
        | inr (x, own, at, thawed, grown) ↦
            let t = put_segment id s segment.index (with_node id x node) in
            rw grown (
              step-IsAcyclic id s t v (rw grown at later) acyclic λ r n e.
                elim (node_from-put id s t segment.index x node r n refl at e) [
                  | inl old ↦ inl (n, old)
                  | inr new ↦ inr λ c edge.
                      child-Exists id s t x.kind node
                        (fine x (ok-segment_from id s segment x own at)) shape (e ∙ ap ok new) edge
                ])
      ]

  created-IsAcyclic :
      (s : StoreInner) (kind : _)
      → StoreIsValid id s
      → IsAcyclic id s
      → IsAcyclic id (create_segment id kind s).1
  unfolding create_segment
  created-IsAcyclic s kind v acyclic =
      let fresh : Segment = record { kind = kind; frozen = false; nodes = [] } in
      step-IsAcyclic id s _ v (Step-Extends id (created s kind)) acyclic λ r n e.
        let (x, found, place) = node_from-ok id _ r n e in
        let (own, at) = segment_from-ok id _ (segment_id r) x found in
        elim (appended_at s.segments fresh r.segment x at) [
          | inl old ↦
              inl (n, ok-node_from id s r x n (ok-segment_from id s (segment_id r) x own old) place)
          | inr new ↦
              absurd (clash (ap (λ (z : Segment). get_elem? z.nodes r.index) (sym new) ∙ place))
        ]
    where
      clash : {n : Node} → none ≡ some n → ⊥
      clash q = cc

  published-IsAcyclic :
      (s : StoreInner) (root : NodeRef) (schema : ℕ) (x : Segment)
      → StoreIsValid id s
      → Extends s (with_template id s root schema x)
      → segment_from id s (segment_id root) ≡ ok x
      → IsAcyclic id s
      → IsAcyclic id (with_template id s root schema x)
  published-IsAcyclic s root schema x v later found acyclic =
      let at = (segment_from-ok id s (segment_id root) x found).1 in
      let y : Segment = record x { frozen = true } in
      step-IsAcyclic id s (with_template id s root schema x) v later acyclic λ r n e.
        elim (node_from-set id s (with_template id s root schema x) root.segment x y r n refl at
          e) [
            | inl old ↦ inl (n, old)
            | inr (own, p, place) ↦ inl (
              n,
              ok-node_from id s r x n
                  (ok-segment_from id s (segment_id r) x own (ap (get_elem? s.segments) p ∙ at))
                  place,
            )
          ]

  instantiated-IsAcyclic :
      (s : StoreInner) (segment : SegmentId) (x : Segment) (i : TemplateId)
      (environment mask provenance : ℕ)
      → StoreIsValid id s
      → Extends s (with_instance id s segment.index x i environment mask provenance)
      → segment_from id s segment ≡ ok x
      → IsAcyclic id s
      → IsAcyclic id (with_instance id s segment.index x i environment mask provenance)
  instantiated-IsAcyclic s segment x i environment mask provenance v later found acyclic =
      let at = (segment_from-ok id s segment x found).1 in
      let t = with_instance id s segment.index x i environment mask provenance in
      let node = instance_node id (index_u32 s.instances) mask provenance in
      step-IsAcyclic id s t v later acyclic λ r n e.
        elim (node_from-put id s t segment.index x node r n refl at e) [
          | inl old ↦ inl (n, old)
          | inr new ↦ inr λ c edge. root_of_new id s t node v refl refl refl (e ∙ ap ok new) edge
        ]

  Step-IsAcyclic :
      {s t : StoreInner} → Step id s t → StoreIsValid id s → IsAcyclic id s → IsAcyclic id t
  unfolding add_atomic add_wait add_source_call valid_shape
  Step-IsAcyclic (created s kind) v a = created-IsAcyclic s kind v a
  Step-IsAcyclic (atomic_added s segment payload mask provenance) v a =
      append-IsAcyclic segment _ s v
        (Step-Extends id (atomic_added s segment payload mask provenance)) refl
        (λ x e. leaf_valid id s x.kind _ refl refl) a
  Step-IsAcyclic (wait_added s segment expression provenance) v a =
      append-IsAcyclic segment _ s v (Step-Extends id (wait_added s segment expression provenance))
        refl (λ x e. leaf_valid id s x.kind _ refl refl) a
  Step-IsAcyclic (source_call_added s segment expression) v a =
      append-IsAcyclic segment _ s v (Step-Extends id (source_call_added s segment expression)) refl
        (λ x e. leaf_valid id s x.kind _ refl refl) a
  Step-IsAcyclic (composition_added checked s segment kind left right provenance mask r e) v a =
      let (x, found, fine, shape) =
        compose_valid id checked segment kind left right provenance mask e in
      append-IsAcyclic segment _ s v
        (Step-Extends id (composition_added checked s segment kind left right provenance mask r e))
        shape (carried id checked s segment x _ (Reaches-Extends id r) found fine) a
  Step-IsAcyclic (raw_added checked s segment node r e) v a =
      let (x, found, fine, shape) = raw_valid id checked segment node e in
      append-IsAcyclic segment node s v (Step-Extends id (raw_added checked s segment node r e))
        shape (carried id checked s segment x node (Reaches-Extends id r) found fine) a
  Step-IsAcyclic (published s root schema) v a = elim (publish_template-cases id root schema s) [
    | inl same ↦ rw same a
    | inr (n, x, known, found, kind, new) ↦ rw new (
        published-IsAcyclic s root schema x v
          (rw new at (Step-Extends id (published s root schema))) found a)
  ]
  Step-IsAcyclic (instantiated s segment i environment mask provenance) v a =
      elim (add_instance-cases id segment i environment mask provenance s) [
        | inl same ↦ rw same a
        | inr (x, m, known, found, thawed, new) ↦ rw new (
            instantiated-IsAcyclic s segment x i environment mask provenance v
              (rw new at (Step-Extends id (instantiated s segment i environment mask provenance)))
              found a)
      ]

  Reaches-IsAcyclic :
      {s t : StoreInner}
      → Reaches id s t
      → FitsInstances id t
      → StoreIsValid id s
      → IsAcyclic id s
      → IsAcyclic id t
  Reaches-IsAcyclic (here s) fits v a = a
  Reaches-IsAcyclic (further s t u r step) fits v a =
      let before = Step-FitsInstances id step fits in
      Step-IsAcyclic step (Reaches-StoreIsValid id r before v) (Reaches-IsAcyclic r before v a)

  -- In every store that an empty one becomes and that holds at most 2 ^ 32 instances, whose index is
  -- cast to 32 bits, each descent from a node ends, however the sections of the threads interleave: to children, and from an instantiation to the root of its template.
  pub reached-Acc :
      (s : StoreInner) (r : NodeRef) (n : Node)
      → Reaches id empty_store s
      → length s.instances ≤ 2 ^ 32
      → node_from id s r ≡ ok n
      → Acc (Points id s) r
  unfolding node_from segment_from
  reached-Acc s r n reached fits e =
      Reaches-IsAcyclic reached fits (record { segments = tt; templates = tt; instances = tt })
        nothing r n e
    where
      nothing : IsAcyclic id empty_store
      nothing q m f = absurd (clash f)
        where
          clash : node_from id empty_store q ≡ ok m → ⊥
          clash f = ground arith

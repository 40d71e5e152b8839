-- ===== src/Core/Arena/Preserve.antt =====
-- Every step of the store keeps its invariant.
use catseq.Prelude.{
  ℕ, ◌<◌, ◌≤◌, ◌^◌, List, ◌++◌, length-append, ◌≡◌, refl, arith, true, some, [], ◌∷◌, ok,
  All-append, All-map, All-set, All-get_elem?, length, get_elem?, get_elem?-append_self, inl, inr,
  ◌%◌,
}
use catseq.Core.Arena.{
  StoreInner, Segment, Node, NodeRef, SegmentId, TemplateId, TemplateInstance, Template, segment_id,
  segment_from, node_from, template_from, put_segment, with_node, empty_store, is_template,
  create_segment, append, add_atomic, add_wait, add_source_call, instance_node, index_u32,
  valid_shape,
}
use catseq.Core.Arena.Extend.{
  Extends, Keeps-length, segment_from-ok, ok-segment_from, segment_from-Extends, node_from-Extends,
  template_from-Extends,
}
use catseq.Core.Arena.Steps.{
  Step, Reaches, created, atomic_added, wait_added, source_call_added, composition_added, raw_added,
  published, instantiated, here, further, append-cases, publish_template-cases, add_instance-cases,
  with_template, with_instance, Step-Extends, Reaches-Extends,
}
use catseq.Core.Arena.Wellformed.{
  NodeIsValid, TemplateIsValid, SegmentIsValid, PointsToTemplate, StoreIsValid, NodeIsValid-Extends,
  TemplateIsValid-Extends, PointsToTemplate-Extends, SegmentIsValid-Extends,
}
use catseq.Core.Arena.Checked.{leaf_valid, carried, compose_valid, raw_valid}

module _ (id : ℕ) where
  -- A node that is valid in the kind of its segment may be appended there.
  put_valid :
      (s : StoreInner) (i : ℕ) (x : Segment) (n : Node)
      → StoreIsValid id s
      → Extends s (put_segment id s i (with_node id x n))
      → get_elem? s.segments i ≡ some x
      → NodeIsValid id s x.kind n
      → StoreIsValid id (put_segment id s i (with_node id x n))
  put_valid s i x n v later at fine =
      let t = put_segment id s i (with_node id x n) in
      record {
        segments =
            All-set (SegmentIsValid id t) s.segments i (with_node id x n)
              (All-map (SegmentIsValid-Extends id s t later) s.segments v.segments)
              (All-append (NodeIsValid id t x.kind) x.nodes (n ∷ [])
                (SegmentIsValid-Extends id s t later x
                  (All-get_elem? (SegmentIsValid id s) s.segments i x v.segments at))
                (NodeIsValid-Extends id s t later x.kind n fine, tt));
        templates = All-map (TemplateIsValid-Extends id s t later) s.templates v.templates;
        instances = All-map (PointsToTemplate-Extends id s t later) s.instances v.instances;
      }

  append_valid :
      (segment : SegmentId) (n : Node) (s : StoreInner)
      → StoreIsValid id s
      → Extends s (append id segment n s).1
      → ((x : Segment) → segment_from id s segment ≡ ok x → NodeIsValid id s x.kind n)
      → StoreIsValid id (append id segment n s).1
  append_valid segment n s v later fine = elim (append-cases id segment n s) [
    | inl same ↦ rw same v
    | inr (x, own, at, thawed, grown) ↦ rw grown (
        put_valid s segment.index x n v (rw grown at later) at
          (fine x (ok-segment_from id s segment x own at)))
  ]

  published_valid :
      (s : StoreInner) (root : NodeRef) (schema : ℕ) (n : Node) (x : Segment)
      → StoreIsValid id s
      → Extends s (with_template id s root schema x)
      → node_from id s root ≡ ok n
      → segment_from id s (segment_id root) ≡ ok x
      → is_template x.kind ≡ true
      → StoreIsValid id (with_template id s root schema x)
  published_valid s root schema n x v later known found kind =
      let t = with_template id s root schema x in
      let at = (segment_from-ok id s (segment_id root) x found).1 in
      let (y, still, (same, nodes)) = segment_from-Extends id s t later (segment_id root) x found in
      record {
        segments =
            All-set (SegmentIsValid id t) s.segments root.segment (record x { frozen = true })
              (All-map (SegmentIsValid-Extends id s t later) s.segments v.segments)
              (SegmentIsValid-Extends id s t later x
                (All-get_elem? (SegmentIsValid id s) s.segments root.segment x v.segments at));
        templates =
            All-append (TemplateIsValid id t) s.templates _
              (All-map (TemplateIsValid-Extends id s t later) s.templates v.templates)
              ((n, y, node_from-Extends id s t later root n known, still, rw same kind), tt);
        instances = All-map (PointsToTemplate-Extends id s t later) s.instances v.instances;
      }

  instantiated_valid :
      (s : StoreInner) (segment : SegmentId) (x : Segment) (i : TemplateId) (m : Template)
      (environment mask provenance : ℕ)
      → StoreIsValid id s
      → length s.instances < 2 ^ 32
      → Extends s (with_instance id s segment.index x i environment mask provenance)
      → template_from id s i ≡ ok m
      → segment_from id s segment ≡ ok x
      → StoreIsValid id (with_instance id s segment.index x i environment mask provenance)
  instantiated_valid s segment x i m environment mask provenance v room later known found =
      let t = with_instance id s segment.index x i environment mask provenance in
      let at = (segment_from-ok id s segment x found).1 in
      let still = template_from-Extends id s t later i m known in
      let place : length s.instances % 2 ^ 32 ≡ length s.instances = omega arith in
      let entry : TemplateInstance = record {
        template = i;
        binding_environment_id = environment;
      } in
      let node = instance_node id (index_u32 s.instances) mask provenance in
      let new : NodeIsValid id t x.kind node = record {
        shape = inr (refl, (entry, m, rw place (get_elem?-append_self s.instances entry), still));
        children = tt;
      } in
      record {
        segments =
            All-set (SegmentIsValid id t) s.segments segment.index (with_node id x node)
              (All-map (SegmentIsValid-Extends id s t later) s.segments v.segments)
              (All-append (NodeIsValid id t x.kind) x.nodes (node ∷ [])
                (SegmentIsValid-Extends id s t later x
                  (All-get_elem? (SegmentIsValid id s) s.segments segment.index x v.segments at))
                (new, tt));
        templates = All-map (TemplateIsValid-Extends id s t later) s.templates v.templates;
        instances =
            All-append (PointsToTemplate id t) s.instances _
              (All-map (PointsToTemplate-Extends id s t later) s.instances v.instances)
              ((m, still), tt);
      }

  -- The payload of an instantiation is the length of the instances cast to 32 bits.
  abbrev pub FitsInstances : StoreInner → Type 0
  FitsInstances s = length s.instances ≤ 2 ^ 32

  pub Step-FitsInstances : {s t : StoreInner} → Step id s t → FitsInstances t → FitsInstances s
  Step-FitsInstances {s} {t} step fits =
      let grown = Keeps-length s.instances t.instances (Step-Extends id step).instances in
      omega arith

  pub Step-StoreIsValid :
      {s t : StoreInner} → Step id s t → FitsInstances t → StoreIsValid id s → StoreIsValid id t
  unfolding add_atomic add_wait add_source_call create_segment valid_shape
  Step-StoreIsValid (created s kind) fits v =
      let later = Step-Extends id (created s kind) in
      record {
        segments =
            All-append (SegmentIsValid id _) s.segments _
              (All-map (SegmentIsValid-Extends id s _ later) s.segments v.segments) (tt, tt);
        templates = All-map (TemplateIsValid-Extends id s _ later) s.templates v.templates;
        instances = All-map (PointsToTemplate-Extends id s _ later) s.instances v.instances;
      }
  Step-StoreIsValid (atomic_added s segment payload mask provenance) fits v =
      append_valid segment _ s v (Step-Extends id (atomic_added s segment payload mask provenance))
        (λ x e. leaf_valid id s x.kind _ refl refl)
  Step-StoreIsValid (wait_added s segment expression provenance) fits v =
      append_valid segment _ s v (Step-Extends id (wait_added s segment expression provenance))
        (λ x e. leaf_valid id s x.kind _ refl refl)
  Step-StoreIsValid (source_call_added s segment expression) fits v =
      append_valid segment _ s v (Step-Extends id (source_call_added s segment expression))
        (λ x e. leaf_valid id s x.kind _ refl refl)
  Step-StoreIsValid (composition_added checked s segment kind left right provenance mask r e) fits
        v =
      let (x, found, fine, shape) =
        compose_valid id checked segment kind left right provenance mask e in
      append_valid segment _ s v
        (Step-Extends id (composition_added checked s segment kind left right provenance mask r e))
        (carried id checked s segment x _ (Reaches-Extends id r) found fine)
  Step-StoreIsValid (raw_added checked s segment node r e) fits v =
      let (x, found, fine, shape) = raw_valid id checked segment node e in
      append_valid segment node s v (Step-Extends id (raw_added checked s segment node r e))
        (carried id checked s segment x node (Reaches-Extends id r) found fine)
  Step-StoreIsValid (published s root schema) fits v =
      elim (publish_template-cases id root schema s) [
        | inl same ↦ rw same v
        | inr (n, x, known, found, kind, new) ↦ rw new (
            published_valid s root schema n x v
              (rw new at (Step-Extends id (published s root schema))) known found kind)
      ]
  Step-StoreIsValid (instantiated s segment i environment mask provenance) fits v =
      elim (add_instance-cases id segment i environment mask provenance s) [
        | inl same ↦ rw same v
        | inr (x, m, known, found, thawed, new) ↦ rw new (
            instantiated_valid s segment x i m environment mask provenance v
              (room s.instances _ (rw new at fits))
              (rw new at (Step-Extends id (instantiated s segment i environment mask provenance)))
              known found)
      ]
    where
      room :
          (xs : List TemplateInstance) (x : TemplateInstance)
          → length (xs ++ x ∷ []) ≤ 2 ^ 32
          → length xs < 2 ^ 32
      room xs x h = omega (arith, length-append xs (x ∷ []))

  pub Reaches-StoreIsValid :
      {s t : StoreInner} → Reaches id s t → FitsInstances t → StoreIsValid id s → StoreIsValid id t
  Reaches-StoreIsValid (here s) fits v = v
  Reaches-StoreIsValid (further s t u r step) fits v =
      Step-StoreIsValid step fits (Reaches-StoreIsValid r (Step-FitsInstances step fits) v)

  -- However the sections of the threads interleave, every store that an empty one becomes and that
  -- holds at most 2 ^ 32 instances, whose index is cast to 32 bits, is valid: each node has the children that its kind asks for, they are nodes of the store, and of template
  -- segments below one; templates have their roots and instances their templates.
  pub reached-StoreIsValid :
      (s : StoreInner) → Reaches id empty_store s → length s.instances ≤ 2 ^ 32 → StoreIsValid id s
  reached-StoreIsValid s r fits =
      Reaches-StoreIsValid r fits (record { segments = tt; templates = tt; instances = tt })

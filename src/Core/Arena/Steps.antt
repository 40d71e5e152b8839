-- ===== src/Core/Arena/Steps.antt =====
-- The store under several threads: each section under the lock is one step, and what a thread has
-- checked in one section it uses in a later one, with steps of other threads in between.
use catseq.Prelude.{
  ℕ, ◌≡◌, refl, Bool, true, false, not, some, [], ◌∷◌, ◌++◌, Result, ok, err, ◌>>=◌, ◌>>◌, fail_if,
  get_elem?, set, inl, inr, ◌⊎◌, >>=-eq-ok, >>-ok, fail_if-ok, ok_inj, sym, ap, ◌∙◌,
}
use catseq.Core.Arena.{
  StoreInner, Segment, Node, NodeRef, NodeKind, SegmentId, SegmentKind, TemplateId, Template,
  ArenaError, segment_id, segment_from, mutable_segment_from, node_from, template_from, put_segment,
  with_node, is_template, create_segment, append, add_atomic, add_wait, add_source_call,
  compose_mask, composed, check_raw, publish_template, add_instance, instance_node, not_template,
  index_u32,
}
use catseq.Core.Arena.Extend
use catseq.Core.Arena.Extend.{
  Extends, Extends-refl, Extends-trans, Keeps-refl, Keeps-append, AllGrown-set, AllGrown-append,
  AllGrown-refl, segment_from-ok, mutable_segment_from-ok, template_from-ok,
}

mutual
  pub data Step (id : ℕ) : StoreInner → StoreInner → Type 0 where
    created : (s : StoreInner) (kind : SegmentKind) → Step id s (create_segment id kind s).1
    atomic_added :
        (s : StoreInner) (segment : SegmentId) (payload mask provenance : ℕ)
        → Step id s (add_atomic id segment payload mask provenance s).1
    wait_added :
        (s : StoreInner) (segment : SegmentId) (expression provenance : ℕ)
        → Step id s (add_wait id segment expression provenance s).1
    source_call_added :
        (s : StoreInner) (segment : SegmentId) (expression : ℕ)
        → Step id s (add_source_call id segment expression s).1
    composition_added :
        (checked s : StoreInner) (segment : SegmentId) (kind : NodeKind) (left right : NodeRef)
        (provenance mask : ℕ)
        → Reaches id checked s
        → compose_mask id segment kind left right checked ≡ ok mask
        → Step id s (append id segment (composed id kind left right provenance mask) s).1
    raw_added :
        (checked s : StoreInner) (segment : SegmentId) (node : Node)
        → Reaches id checked s
        → check_raw id segment node.kind node.left node.right checked ≡ ok tt
        → Step id s (append id segment node s).1
    published :
        (s : StoreInner) (root : NodeRef) (schema : ℕ)
        → Step id s (publish_template id root schema s).1
    instantiated :
        (s : StoreInner) (segment : SegmentId) (t : TemplateId) (environment mask provenance : ℕ)
        → Step id s (add_instance id segment t environment mask provenance s).1

  pub data Reaches (id : ℕ) : StoreInner → StoreInner → Type 0 where
    here : (s : StoreInner) → Reaches id s s
    further : (s t u : StoreInner) → Reaches id s t → Step id t u → Reaches id s u

pub not-false : (b : Bool) → not b ≡ false → b ≡ true
not-false true h = refl
not-false false h = cc

module _ (id : ℕ) where
  Grown-segment : (x : Segment) (n : Node) → Extend.Grown x (with_node id x n)
  Grown-segment x n = (refl, Keeps-append x.nodes (n ∷ []))

  -- An append puts the node behind those of its segment, which is open, or changes nothing.
  pub append-cases :
      (segment : SegmentId) (node : Node) (s : StoreInner)
      → ((append id segment node s).1 ≡ s)
        ⊎ ((x : Segment) × (segment.store ≡ id)
            × (get_elem? s.segments segment.index ≡ some x)
            × (x.frozen ≡ false)
            × ((append id segment node s).1 ≡ put_segment id s segment.index (with_node id x node)))
  unfolding append
  append-cases segment node s = by_lookup (mutable_segment_from id s segment) refl
    where
      by_lookup :
          (r : Result ArenaError Segment)
          → mutable_segment_from id s segment ≡ r
          → ((append id segment node s).1 ≡ s)
            ⊎ ((x : Segment) × (segment.store ≡ id)
                × (get_elem? s.segments segment.index ≡ some x)
                × (x.frozen ≡ false)
                × ((append id segment node s).1
                    ≡ put_segment id s segment.index (with_node id x node)))
      by_lookup (err e) h = inl (rw (h, append) refl)
      by_lookup (ok x) h =
          let (found, thawed) = mutable_segment_from-ok id s segment x h in
          let (own, at) = segment_from-ok id s segment x found in
          inr (x, own, at, thawed, rw (h, append) refl)

  pub append-Extends :
      (segment : SegmentId) (node : Node) (s : StoreInner) → Extends s (append id segment node s).1
  append-Extends segment node s = elim (append-cases segment node s) [
    | inl same ↦ rw same (Extends-refl s)
    | inr (x, own, at, thawed, grown) ↦ rw grown (record {
      segments =
          AllGrown-set s.segments segment.index x (with_node id x node) at (Grown-segment x node);
      templates = Keeps-refl s.templates;
      instances = Keeps-refl s.instances;
    })
  ]

  -- Publishing freezes the segment of the root, a template segment, and adds the template, or
  -- changes nothing.
  abbrev pub with_template : StoreInner → NodeRef → ℕ → Segment → StoreInner
  with_template s root schema x = record s {
    segments = set s.segments root.segment (record x { frozen = true });
    templates = s.templates ++ record { root = root; schema_id = schema } ∷ [];
  }

  abbrev Published : NodeRef → ℕ → StoreInner → Type 0
  Published root schema s =
      (n : Node) × (x : Segment) × (node_from id s root ≡ ok n)
      × (segment_from id s (segment_id root) ≡ ok x)
      × (is_template x.kind ≡ true)
      × ((publish_template id root schema s).1 ≡ with_template s root schema x)

  pub publish_template-cases :
      (root : NodeRef) (schema : ℕ) (s : StoreInner)
      → ((publish_template id root schema s).1 ≡ s) ⊎ Published root schema s
  unfolding publish_template
  publish_template-cases root schema s = by_check checked refl
    where
      checked : Result ArenaError Segment
      checked = node_from id s root >>= λ node. segment_from id s (segment_id root) >>= λ segment.
          fail_if (not (is_template segment.kind)) not_template >> ok segment

      by_check :
          (r : Result ArenaError Segment)
          → checked ≡ r
          → ((publish_template id root schema s).1 ≡ s) ⊎ Published root schema s
      by_check (err e) h = inl (rw (h, publish_template) refl)
      by_check (ok x) h =
          let (n, known, h2) = >>=-eq-ok (node_from id s root) _ h in
          let (y, found, h3) = >>=-eq-ok (segment_from id s (segment_id root)) _ h2 in
          let (fine, h4) = >>-ok (fail_if (not (is_template y.kind)) not_template) (ok y) h3 in
          let p = ok_inj h4 in
          let q = fail_if-ok (not (is_template y.kind)) not_template fine in
          inr (
            n,
            x,
            known,
            found ∙ ap ok p,
            ap (λ (z : Segment). is_template z.kind) (sym p) ∙ not-false _ q,
            rw (h, publish_template) refl,
          )

  abbrev pub with_instance : StoreInner → ℕ → Segment → TemplateId → ℕ → ℕ → ℕ → StoreInner
  with_instance s i x t environment mask provenance = record s {
    segments =
        set s.segments i
          (with_node id x (instance_node id (index_u32 s.instances) mask provenance));
    instances = s.instances ++ record { template = t; binding_environment_id = environment } ∷ [];
  }

  abbrev Instantiated : SegmentId → TemplateId → ℕ → ℕ → ℕ → StoreInner → Type 0
  Instantiated segment t environment mask provenance s =
      (x : Segment) × (found : Template) × (template_from id s t ≡ ok found)
      × (segment_from id s segment ≡ ok x)
      × (x.frozen ≡ false)
      × ((add_instance id segment t environment mask provenance s).1
          ≡ with_instance s segment.index x t environment mask provenance)

  pub add_instance-cases :
      (segment : SegmentId) (t : TemplateId) (environment mask provenance : ℕ) (s : StoreInner)
      → ((add_instance id segment t environment mask provenance s).1 ≡ s)
        ⊎ Instantiated segment t environment mask provenance s
  unfolding add_instance
  add_instance-cases segment t environment mask provenance s = by_check checked refl
    where
      checked : Result ArenaError Segment
      checked = template_from id s t >>= λ found. mutable_segment_from id s segment

      by_check :
          (r : Result ArenaError Segment)
          → checked ≡ r
          → ((add_instance id segment t environment mask provenance s).1 ≡ s)
            ⊎ Instantiated segment t environment mask provenance s
      by_check (err e) h = inl (rw (h, add_instance) refl)
      by_check (ok x) h =
          let (found, known, open_now) = >>=-eq-ok (template_from id s t) _ h in
          let (there, thawed) = mutable_segment_from-ok id s segment x open_now in
          inr (x, found, known, there, thawed, rw (h, add_instance) refl)

  pub Step-Extends : {s t : StoreInner} → Step id s t → Extends s t
  unfolding create_segment add_atomic add_wait add_source_call
  Step-Extends (created s kind) = record {
    segments = AllGrown-append s.segments _;
    templates = Keeps-refl s.templates;
    instances = Keeps-refl s.instances;
  }
  Step-Extends (atomic_added s segment payload mask provenance) = append-Extends segment _ s
  Step-Extends (wait_added s segment expression provenance) = append-Extends segment _ s
  Step-Extends (source_call_added s segment expression) = append-Extends segment _ s
  Step-Extends (composition_added checked s segment kind left right provenance mask r e) =
      append-Extends segment _ s
  Step-Extends (raw_added checked s segment node r e) = append-Extends segment node s
  Step-Extends (published s root schema) = elim (publish_template-cases root schema s) [
    | inl same ↦ rw same (Extends-refl s)
    | inr (n, x, known, found, kind, new) ↦ rw new (record {
      segments =
          AllGrown-set s.segments root.segment x _
            (segment_from-ok id s (segment_id root) x found).1 (refl, Keeps-refl x.nodes);
      templates = Keeps-append s.templates _;
      instances = Keeps-refl s.instances;
    })
  ]
  Step-Extends (instantiated s segment i environment mask provenance) =
      elim (add_instance-cases segment i environment mask provenance s) [
        | inl same ↦ rw same (Extends-refl s)
        | inr (x, f, known, found, thawed, new) ↦ rw new (record {
          segments =
              AllGrown-set s.segments segment.index x _ (segment_from-ok id s segment x found).1
                (Grown-segment x _);
          templates = Keeps-refl s.templates;
          instances = Keeps-append s.instances _;
        })
      ]

  pub Reaches-Extends : {s t : StoreInner} → Reaches id s t → Extends s t
  Reaches-Extends (here s) = Extends-refl s
  Reaches-Extends (further s u t r step) =
      Extends-trans s u t (Reaches-Extends r) (Step-Extends step)

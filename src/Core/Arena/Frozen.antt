-- ===== src/Core/Arena/Frozen.antt =====
-- What publishing promises: a frozen segment is the same in every later store.
use catseq.Prelude.{
  ℕ, ◌==◌, ◌≡◌, refl, arith, Bool, true, false, some, List, Result, ok, err, get_elem?, set,
  get_elem?-set_self, get_elem?-set_ne, get_elem?-some_lt, get_elem?-append_left, inl, inr,
  some_inj, sym, ap, ◌∙◌, Bool-cases, ==_iff, not, fail_if, ◌>>=◌, ◌>>◌, >>=-eq-ok, >>-ok,
}
use catseq.Core.Arena.{
  StoreInner, Segment, SegmentId, NodeRef, TemplateId, segment_id, with_node, append, add_atomic,
  add_wait, add_source_call, create_segment, publish_template, segment_from, node_from, is_template,
  not_template, ArenaError,
}
use catseq.Core.Arena.Extend.{segment_from-ok}
use catseq.Core.Arena.Steps.{
  Step, Reaches, created, atomic_added, wait_added, source_call_added, composition_added, raw_added,
  published, instantiated, here, further, append-cases, publish_template-cases, add_instance-cases,
  with_template,
}

-- A segment of the store, frozen.
pub record IsFrozen (s : StoreInner) (i : ℕ) (x : Segment) : Type 0 where
  pub there : get_elem? s.segments i ≡ some x
  pub frozen : x.frozen ≡ true

-- Where a segment is replaced that is open, or by itself, one that is frozen stays.
set-frozen :
    (xs : List Segment) (i j : ℕ) (x y z : Segment)
    → get_elem? xs i ≡ some x
    → x.frozen ≡ true
    → get_elem? xs j ≡ some y
    → ((y.frozen ≡ true) → z ≡ y)
    → get_elem? (set xs j z) i ≡ some x
set-frozen xs i j x y z at frozen there same = elim (Bool-cases (j == i)) [
  | inl hit ↦
      let p : j ≡ i = (==_iff j i).0 hit in
      let q : y ≡ x = some_inj (sym there ∙ ap (get_elem? xs) p ∙ at) in
      ap (get_elem? (set xs j z)) (sym p)
      ∙ get_elem?-set_self xs j z (get_elem?-some_lt xs j y there)
      ∙ ap some (same (ap (λ (w : Segment). w.frozen) q ∙ frozen) ∙ q)
  | inr other ↦ get_elem?-set_ne xs j i z (ground arith) ∙ at
]

thaw_clash {ℓ} : {A : Type ℓ} {b : Bool} → b ≡ false → b ≡ true → A
thaw_clash p q = absurd (clash (sym p ∙ q))
  where
    clash : false ≡ true → ⊥
    clash h = cc

module _ (id : ℕ) where
  append-IsFrozen :
      (segment : SegmentId) (node : _) (s : StoreInner) (i : ℕ) (x : Segment)
      → IsFrozen s i x
      → IsFrozen (append id segment node s).1 i x
  append-IsFrozen segment node s i x f = elim (append-cases id segment node s) [
    | inl same ↦ rw same f
    | inr (y, own, at, thawed, grown) ↦ rw grown (record {
      there =
          set-frozen s.segments i segment.index x y (with_node id y node) f.there f.frozen at
            (thaw_clash thawed);
      frozen = f.frozen;
    })
  ]

  Step-IsFrozen :
      {s t : StoreInner} → Step id s t → (i : ℕ) (x : Segment) → IsFrozen s i x → IsFrozen t i x
  unfolding create_segment add_atomic add_wait add_source_call
  Step-IsFrozen (created s kind) i x f = record {
    there = get_elem?-append_left s.segments _ i x f.there;
    frozen = f.frozen;
  }
  Step-IsFrozen (atomic_added s segment payload mask provenance) i x f =
      append-IsFrozen segment _ s i x f
  Step-IsFrozen (wait_added s segment expression provenance) i x f =
      append-IsFrozen segment _ s i x f
  Step-IsFrozen (source_call_added s segment expression) i x f = append-IsFrozen segment _ s i x f
  Step-IsFrozen (composition_added checked s segment kind left right provenance mask r e) i x f =
      append-IsFrozen segment _ s i x f
  Step-IsFrozen (raw_added checked s segment node r e) i x f = append-IsFrozen segment node s i x f
  Step-IsFrozen (published s root schema) i x f = elim (publish_template-cases id root schema s) [
    | inl same ↦ rw same f
    | inr (n, y, known, found, kind, new) ↦ rw new (record {
      there =
          set-frozen s.segments i root.segment x y (record y { frozen = true }) f.there f.frozen
            (segment_from-ok id s (segment_id root) y found).1
            (λ q. ap (λ b. record y { frozen = b }) (sym q));
      frozen = f.frozen;
    })
  ]
  Step-IsFrozen (instantiated s segment m environment mask provenance) i x f =
      elim (add_instance-cases id segment m environment mask provenance s) [
        | inl same ↦ rw same f
        | inr (y, t, known, found, thawed, new) ↦ rw new (record {
          there =
              set-frozen s.segments i segment.index x y (with_node id y _) f.there f.frozen
                (segment_from-ok id s segment y found).1 (thaw_clash thawed);
          frozen = f.frozen;
        })
      ]

  Reaches-IsFrozen :
      {s t : StoreInner} → Reaches id s t → (i : ℕ) (x : Segment) → IsFrozen s i x → IsFrozen t i x
  Reaches-IsFrozen (here s) i x f = f
  Reaches-IsFrozen (further s u t r step) i x f = Step-IsFrozen step i x (Reaches-IsFrozen r i x f)

  publish_template-ok :
      (root : NodeRef) (schema : ℕ) (s : StoreInner) (k : TemplateId)
      → (publish_template id root schema s).0 ≡ ok k
      → (x : Segment) × (segment_from id s (segment_id root) ≡ ok x)
        × ((publish_template id root schema s).1 ≡ with_template id s root schema x)
  unfolding publish_template
  publish_template-ok root schema s k = by_check checked refl
    where
      checked : Result ArenaError Segment
      checked = node_from id s root >>= λ node. segment_from id s (segment_id root) >>= λ segment.
          fail_if (not (is_template segment.kind)) not_template >> ok segment

      by_check :
          (r : Result ArenaError Segment)
          → checked ≡ r
          → (publish_template id root schema s).0 ≡ ok k
          → (x : Segment) × (segment_from id s (segment_id root) ≡ ok x)
            × ((publish_template id root schema s).1 ≡ with_template id s root schema x)
      by_check (err e) h q = absurd (clash (rw (h, publish_template) at q))
        where
          clash : err e ≡ ok k → ⊥
          clash p = cc
      by_check (ok x) h q =
          let (n, known, h2) = >>=-eq-ok (node_from id s root) _ h in
          let (y, found, h3) = >>=-eq-ok (segment_from id s (segment_id root)) _ h2 in
          let (fine, h4) = >>-ok (fail_if (not (is_template y.kind)) not_template) (ok y) h3 in
          (x, found ∙ h4, rw (h, publish_template) refl)

  -- Once a template is published, the segment of its root is the one it was then, with its nodes, and
  -- frozen, in every store that follows: no thread adds a node to it.
  pub publish_template_lasts :
      (s t : StoreInner) (root : NodeRef) (schema : ℕ) (k : TemplateId)
      → (publish_template id root schema s).0 ≡ ok k
      → Reaches id (publish_template id root schema s).1 t
      → (x : Segment) × (segment_from id s (segment_id root) ≡ ok x)
        × (get_elem? t.segments root.segment ≡ some (record x { frozen = true }))
  publish_template_lasts s t root schema k e r =
      let (x, found, new) = publish_template-ok root schema s k e in
      let at = (segment_from-ok id s (segment_id root) x found).1 in
      let y : Segment = record x { frozen = true } in
      let first : IsFrozen (with_template id s root schema x) root.segment y = record {
        there =
            get_elem?-set_self s.segments root.segment y
              (get_elem?-some_lt s.segments root.segment x at);
        frozen = refl;
      } in
      (x, found, (Reaches-IsFrozen r root.segment y (rw new first)).there)

-- ===== src/Core/Arena/Found.antt =====
-- What an operation has added, every later store holds under the reference the operation gave.
use catseq.Prelude.{
  ℕ, ◌<◌, ◌%◌, ◌^◌, ◌≡◌, refl, arith, not, Option, List, [], ◌∷◌, ◌++◌, Result, ok, err, fail_if,
  >>=-eq-ok, >>-ok, length, map, get_elem?, get_elem?-set_self, get_elem?-some_lt,
  get_elem?-append_self, ok_inj, sym, ap, ◌∙◌, bit_or,
}
use catseq.Core.Arena.{
  StoreInner, Segment, SegmentId, Node, NodeRef, NodeKind, NodeColumns, ArenaError, segment_id,
  with_node, put_segment, append, compose, compose_mask, composed, index_u32, segment_from,
  mutable_segment_from, node_from, export_segment, validate_template_children, is_composition,
  not_composition,
}
use catseq.Core.Arena.Extend.{
  Extends-trans, segment_from-ok, ok-segment_from, mutable_segment_from-ok, ok-node_from,
  node_from-Extends,
}
use catseq.Core.Arena.Steps.{Reaches, Reaches-Extends, append-Extends}

module _ (id : ℕ) where
  append-ok :
      (segment : SegmentId) (node : Node) (s : StoreInner) (r : NodeRef)
      → (append id segment node s).0 ≡ ok r
      → (x : Segment) × (segment_from id s segment ≡ ok x)
        × (r ≡ record { store = id; segment = segment.index; index = index_u32 x.nodes })
        × ((append id segment node s).1 ≡ put_segment id s segment.index (with_node id x node))
  unfolding append
  append-ok segment node s r = by_lookup (mutable_segment_from id s segment) refl
    where
      by_lookup :
          (m : Result ArenaError Segment)
          → mutable_segment_from id s segment ≡ m
          → (append id segment node s).0 ≡ ok r
          → (x : Segment) × (segment_from id s segment ≡ ok x)
            × (r ≡ record { store = id; segment = segment.index; index = index_u32 x.nodes })
            × ((append id segment node s).1 ≡ put_segment id s segment.index (with_node id x node))
      by_lookup (err e) h q = absurd (clash (rw (h, append) at q))
        where
          clash : err e ≡ ok r → ⊥
          clash p = cc
      by_lookup (ok x) h q =
          let (found, thawed) = mutable_segment_from-ok id s segment x h in
          (x, found, sym (ok_inj (rw (h, append) at q)), rw (h, append) refl)

  -- The segment has room for one more node whose index fits 32 bits.
  abbrev pub HasRoom : StoreInner → SegmentId → Type 0
  HasRoom s segment = (x : Segment) → segment_from id s segment ≡ ok x → length x.nodes < 2 ^ 32

  append_lasts :
      (s t : StoreInner) (segment : SegmentId) (node : Node) (r : NodeRef)
      → HasRoom s segment
      → (append id segment node s).0 ≡ ok r
      → Reaches id (append id segment node s).1 t
      → node_from id t r ≡ ok node
  append_lasts s t segment node r room e reached =
      let (x, found, place, grown) = append-ok segment node s r e in
      let (own, at) = segment_from-ok id s segment x found in
      let u = put_segment id s segment.index (with_node id x node) in
      let q : NodeRef = record { store = id; segment = segment.index; index = index_u32 x.nodes } in
      let bound = room x found in
      let small : length x.nodes % 2 ^ 32 ≡ length x.nodes = omega arith in
      let now : node_from id u q ≡ ok node =
        ok-node_from id u q (with_node id x node) node
          (ok-segment_from id u (segment_id q) (with_node id x node) refl (
            get_elem?-set_self s.segments segment.index (with_node id x node)
              (get_elem?-some_lt s.segments segment.index x at)))
          (ap (get_elem? (x.nodes ++ node ∷ [])) small ∙ get_elem?-append_self x.nodes node) in
      rw place (node_from-Extends id u t (Reaches-Extends id (rw grown at reached)) q node now)

  -- A composition is checked in one section under the lock and appended in a later one, with steps of
  -- other threads in between. It is found, in every store that follows, under the reference that was
  -- given for it: with its two children and the union of the channels of these, which are the same
  -- in the store it was checked in and in those that follow. The segment it is appended to is taken
  -- to hold less than 2 ^ 32 nodes then, since an index is a length cast to 32 bits.
  pub compose_lasts :
      (checked s t : StoreInner) (segment : SegmentId) (kind : NodeKind) (left right : NodeRef)
      (provenance_id : ℕ) (r : NodeRef)
      → Reaches id checked s
      → HasRoom s segment
      → (compose id segment kind left right provenance_id checked s).0 ≡ ok r
      → Reaches id (compose id segment kind left right provenance_id checked s).1 t
      → (m n : Node) × (node_from id checked left ≡ ok m)
        × (node_from id checked right ≡ ok n)
        × (node_from id t left ≡ ok m)
        × (node_from id t right ≡ ok n)
        × (node_from id t r
            ≡ ok (composed id kind left right provenance_id (bit_or m.channel_mask n.channel_mask)))
  unfolding compose compose_mask
  compose_lasts checked s t segment kind left right provenance_id r between room =
      by_mask (compose_mask id segment kind left right checked) refl
    where
      by_mask :
          (c : Result ArenaError ℕ)
          → compose_mask id segment kind left right checked ≡ c
          → (compose id segment kind left right provenance_id checked s).0 ≡ ok r
          → Reaches id (compose id segment kind left right provenance_id checked s).1 t
          → (m n : Node) × (node_from id checked left ≡ ok m)
            × (node_from id checked right ≡ ok n)
            × (node_from id t left ≡ ok m)
            × (node_from id t right ≡ ok n)
            × (node_from id t r
                ≡ ok (
                    composed id kind left right provenance_id
                      (bit_or m.channel_mask n.channel_mask)))
      by_mask (err x) h e reached = absurd (clash (rw (h, compose) at e))
        where
          clash : err x ≡ ok r → ⊥
          clash p = cc
      by_mask (ok mask) h e reached =
          let (fits, h1) = >>-ok (fail_if (not (is_composition kind)) not_composition) _ h in
          let (m, known_left, h2) = >>=-eq-ok (node_from id checked left) _ h1 in
          let (n, known_right, h3) = >>=-eq-ok (node_from id checked right) _ h2 in
          let (fine, h4) =
            >>-ok (validate_template_children id checked segment (left ∷ right ∷ [])) _ h3 in
          let node = composed id kind left right provenance_id mask in
          let added = rw (h, compose) at reached in
          let later = Extends-trans checked s t (Reaches-Extends id between) (
            Extends-trans s (append id segment node s).1 t (append-Extends id segment node s)
              (Reaches-Extends id added)) in
          (
            m,
            n,
            known_left,
            known_right,
            node_from-Extends id checked t later left m known_left,
            node_from-Extends id checked t later right n known_right,
            append_lasts s t segment node r room (rw (h, compose) at e) added
                ∙ ap (λ k. ok (composed id kind left right provenance_id k)) (sym (ok_inj h4)),
          )

abbrev zip_rows :
    List NodeKind
    → List (Option NodeRef)
    → List (Option NodeRef)
    → List ℕ
    → List ℕ
    → List ℕ
    → List Node
zip_rows (kind ∷ kinds) (l ∷ ls) (r ∷ rs) (payload ∷ payloads) (mask ∷ masks)
      (provenance ∷ provenances) =
    record {
      kind = kind;
      left = l;
      right = r;
      payload_id = payload;
      channel_mask = mask;
      provenance_id = provenance;
    }
    ∷ zip_rows kinds ls rs payloads masks provenances
zip_rows _ _ _ _ _ _ = []

-- `NodeColumns` read by rows.
abbrev pub rows : NodeColumns → List Node
rows c = zip_rows c.kinds c.left c.right c.payload_ids c.channel_masks c.provenance_ids

columns_of : List Node → NodeColumns
columns_of nodes = record {
  kinds = map (λ (n : Node). n.kind) nodes;
  left = map (λ (n : Node). n.left) nodes;
  right = map (λ (n : Node). n.right) nodes;
  payload_ids = map (λ (n : Node). n.payload_id) nodes;
  channel_masks = map (λ (n : Node). n.channel_mask) nodes;
  provenance_ids = map (λ (n : Node). n.provenance_id) nodes;
}

rows-columns_of : (nodes : List Node) → rows (columns_of nodes) ≡ nodes
unfolding columns_of
rows-columns_of [] = refl
rows-columns_of (n ∷ nodes) = ap (◌∷◌ n) (rows-columns_of nodes)

-- The columns of an export, read by rows, are the nodes of the segment, each with all its fields and
-- in their order.
pub export_segment-rows :
    (id : ℕ) (s : StoreInner) (segment : SegmentId) (columns : NodeColumns)
    → export_segment id s segment ≡ ok columns
    → (x : Segment) × (segment_from id s segment ≡ ok x) × (rows columns ≡ x.nodes)
unfolding export_segment columns_of
export_segment-rows id s segment columns e =
    let (x, found, same) = >>=-eq-ok (segment_from id s segment) _ e in
    (x, found, ap rows (sym (ok_inj same)) ∙ rows-columns_of x.nodes)

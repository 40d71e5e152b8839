-- ===== src/Core/Arena.antt =====
-- rust/catseq-core/src/arena.rs: the segmented store of nodes, templates and template instances. The
-- text of errors and the pinned owners, which the store only keeps alive, are left out. A lock that
-- is held stands for one step on the state; an operation gives its result and the state after it.
pub mod Extend
pub mod Steps
pub mod Wellformed
pub mod Preserve
pub mod Acyclic
pub mod Descent
pub mod Frozen
pub mod Found
pub mod Walk
pub mod Checked
pub mod Replaced
use catseq.Prelude.{
  ℕ, suc, ◌+◌, ◌%◌, ◌^◌, ◌==◌, bit_or, Bool, true, false, not, ◌&&◌, if◌then◌else◌, Option, none,
  some, List, [], ◌∷◌, ◌++◌, length, map, get_elem?, set, Result, ok, err, ◌>>=◌, ◌>>◌, fail_if,
  ok_or,
}

pub record SegmentId : Type 0 where
  pub store : ℕ
  pub index : ℕ

pub record NodeRef : Type 0 where
  pub store : ℕ
  pub segment : ℕ
  pub index : ℕ

-- `NodeRef::segment`.
abbrev pub segment_id : NodeRef → SegmentId
segment_id r = record { store = r.store; index = r.segment }

pub record TemplateId : Type 0 where
  pub store : ℕ
  pub index : ℕ

pub data SegmentKind : Type 0 where
  template program : SegmentKind

pub data NodeKind : Type 0 where
  atomic wait auto_serial strict_serial parallel annotate reference deferred_apply : NodeKind
  deferred_channel deferred_batch repeat instantiate source_call : NodeKind

pub record Node : Type 0 where
  pub kind : NodeKind
  pub left : Option NodeRef
  pub right : Option NodeRef
  pub payload_id : ℕ
  pub channel_mask : ℕ
  pub provenance_id : ℕ

pub data ArenaError : Type 0 where
  unknown_node_kind foreign_segment unknown_segment frozen_segment unknown_node : ArenaError
  foreign_template unknown_template not_composition program_child bare_instantiate : ArenaError
  invalid_children not_template missing_instance : ArenaError

unfoldable pub kind_of_byte : ℕ → Result ArenaError NodeKind
kind_of_byte value = ok_or (get_elem? kinds value) unknown_node_kind
  where
    kinds : List NodeKind
    kinds =
        atomic ∷ wait ∷ auto_serial ∷ strict_serial ∷ parallel ∷ annotate ∷ reference
        ∷ deferred_apply ∷ deferred_channel ∷ deferred_batch ∷ repeat ∷ instantiate ∷ source_call
        ∷ []

pub record Template : Type 0 where
  pub root : NodeRef
  pub schema_id : ℕ

pub record TemplateInstance : Type 0 where
  pub template : TemplateId
  pub binding_environment_id : ℕ

pub record Segment : Type 0 where
  pub kind : SegmentKind
  pub frozen : Bool
  pub nodes : List Node

pub record StoreInner : Type 0 where
  pub segments : List Segment
  pub templates : List Template
  pub instances : List TemplateInstance

-- `StoreInner::default()`.
abbrev pub empty_store : StoreInner
empty_store = record { segments = []; templates = []; instances = [] }

abbrev pub is_template : SegmentKind → Bool
is_template template = true
is_template program = false

-- An index is the length cast to u32.
abbrev pub index_u32 {ℓ} : {A : Type ℓ} → List A → ℕ
index_u32 xs = length xs % 2 ^ 32

-- An operation, on the state behind the lock.
abbrev pub Op : Type 0 → Type 0
Op A = StoreInner → Result ArenaError A × StoreInner

module _ (id : ℕ) where
  unfoldable pub segment_from : StoreInner → SegmentId → Result ArenaError Segment
  segment_from inner segment =
      fail_if (not (segment.store == id)) foreign_segment
      >> ok_or (get_elem? inner.segments segment.index) unknown_segment

  unfoldable pub mutable_segment_from : StoreInner → SegmentId → Result ArenaError Segment
  mutable_segment_from inner segment =
      segment_from inner segment >>= λ target. fail_if target.frozen frozen_segment >> ok target

  unfoldable pub node_from : StoreInner → NodeRef → Result ArenaError Node
  node_from inner node_ref = segment_from inner (segment_id node_ref) >>= λ segment.
      ok_or (get_elem? segment.nodes node_ref.index) unknown_node

  unfoldable pub template_from : StoreInner → TemplateId → Result ArenaError Template
  template_from inner t =
      fail_if (not (t.store == id)) foreign_template
      >> ok_or (get_elem? inner.templates t.index) unknown_template

  -- A child of a template node lies in a template segment.
  abbrev pub template_child : StoreInner → NodeRef → Result ArenaError (Unit {0})
  template_child inner child = segment_from inner (segment_id child) >>= λ segment.
      fail_if (not (is_template segment.kind)) program_child

  -- The loops over the children in `validate_template_children` and `append_raw`.
  abbrev pub template_children : StoreInner → List NodeRef → Result ArenaError (Unit {0})
  template_children inner [] = ok tt
  template_children inner (child ∷ rest) =
      template_child inner child >> template_children inner rest

  -- `validate_template_children`, and the same test of `append_raw` on fewer than two children.
  unfoldable pub validate_template_children :
      StoreInner → SegmentId → List NodeRef → Result ArenaError (Unit {0})
  validate_template_children inner target children = segment_from inner target >>= λ segment.
      if is_template segment.kind then template_children inner children else ok tt

  unfoldable pub create_segment : SegmentKind → StoreInner → SegmentId × StoreInner
  create_segment kind inner = (
    record { store = id; index = index_u32 inner.segments },
    record inner {
      segments = inner.segments ++ record { kind = kind; frozen = false; nodes = [] } ∷ [];
    },
  )

  -- The segment of an index, replaced.
  abbrev pub put_segment : StoreInner → ℕ → Segment → StoreInner
  put_segment inner i segment = record inner { segments = set inner.segments i segment }

  abbrev pub with_node : Segment → Node → Segment
  with_node segment node = record segment { nodes = segment.nodes ++ node ∷ [] }

  unfoldable pub append : SegmentId → Node → Op NodeRef
  append segment node inner = elim (mutable_segment_from inner segment) [
    | err e ↦ (err e, inner)
    | ok target ↦ (
      ok (record { store = id; segment = segment.index; index = index_u32 target.nodes }),
      put_segment inner segment.index (with_node target node),
    )
  ]

  abbrev leaf : NodeKind → ℕ → ℕ → ℕ → Node
  leaf kind payload_id channel_mask provenance_id = record {
    kind = kind;
    left = none;
    right = none;
    payload_id = payload_id;
    channel_mask = channel_mask;
    provenance_id = provenance_id;
  }

  -- `atomic`, `wait` and `source_call` of the store.
  unfoldable pub add_atomic : SegmentId → ℕ → ℕ → ℕ → Op NodeRef
  add_atomic segment payload_id channel_mask provenance_id =
      append segment (leaf atomic payload_id channel_mask provenance_id)

  unfoldable pub add_wait : SegmentId → ℕ → ℕ → Op NodeRef
  add_wait segment expression_id provenance_id =
      append segment (leaf wait expression_id 0 provenance_id)

  unfoldable pub add_source_call : SegmentId → ℕ → Op NodeRef
  add_source_call segment expression_id =
      append segment (leaf source_call expression_id 0 expression_id)

abbrev pub is_composition : NodeKind → Bool
is_composition auto_serial = true
is_composition strict_serial = true
is_composition parallel = true
is_composition _ = false

abbrev is_instantiate : NodeKind → Bool
is_instantiate instantiate = true
is_instantiate _ = false

abbrev pub is_none {ℓ} : {A : Type ℓ} → Option A → Bool
is_none none = true
is_none (some a) = false

unfoldable pub valid_shape : NodeKind → Option NodeRef → Option NodeRef → Bool
valid_shape atomic left right = is_none left && is_none right
valid_shape wait left right = is_none left && is_none right
valid_shape reference left right = is_none left && is_none right
valid_shape deferred_channel left right = is_none left && is_none right
valid_shape source_call left right = is_none left && is_none right
valid_shape auto_serial left right = not (is_none left) && not (is_none right)
valid_shape strict_serial left right = not (is_none left) && not (is_none right)
valid_shape parallel left right = not (is_none left) && not (is_none right)
valid_shape annotate left right = not (is_none left) && is_none right
valid_shape deferred_apply left right = not (is_none left) && is_none right
valid_shape deferred_batch left right = not (is_none left) && is_none right
valid_shape repeat left right = not (is_none left) && is_none right
valid_shape instantiate left right = false

-- `[left, right].into_iter().flatten()`.
abbrev pub children_of : Option NodeRef → Option NodeRef → List NodeRef
children_of none none = []
children_of none (some r) = r ∷ []
children_of (some l) none = l ∷ []
children_of (some l) (some r) = l ∷ r ∷ []

-- After a check of one lock section, an operation of a later one.
abbrev pub after {ℓ} : {A : Type ℓ} {B : Type 0} → Result ArenaError A → (A → Op B) → Op B
after (ok a) next inner = next a inner
after (err e) next inner = (err e, inner)

module _ (id : ℕ) where
  -- What `compose` finds under the read lock: the union of the channels.
  unfoldable pub compose_mask :
      SegmentId → NodeKind → NodeRef → NodeRef → StoreInner → Result ArenaError ℕ
  compose_mask segment kind left right inner = do
    fail_if (not (is_composition kind)) not_composition
    left_node ← node_from id inner left
    right_node ← node_from id inner right
    validate_template_children id inner segment (left ∷ right ∷ [])
    ok (bit_or left_node.channel_mask right_node.channel_mask)

  abbrev pub composed : NodeKind → NodeRef → NodeRef → ℕ → ℕ → Node
  composed kind left right provenance_id channel_mask = record {
    kind = kind;
    left = some left;
    right = some right;
    payload_id = 0;
    channel_mask = channel_mask;
    provenance_id = provenance_id;
  }

  -- The check in one section, on the store `checked`; the append in a later one.
  unfoldable pub compose : SegmentId → NodeKind → NodeRef → NodeRef → ℕ → StoreInner → Op NodeRef
  compose segment kind left right provenance_id checked inner =
      after (compose_mask segment kind left right checked)
        (λ mask. append id segment (composed kind left right provenance_id mask)) inner

  -- The `node_from` on every child.
  abbrev pub children_exist : StoreInner → List NodeRef → Result ArenaError (Unit {0})
  children_exist inner [] = ok tt
  children_exist inner (child ∷ rest) =
      node_from id inner child >>= λ node. children_exist inner rest

  -- What `append_raw` checks before it appends.
  unfoldable pub check_raw :
      SegmentId
      → NodeKind
      → Option NodeRef
      → Option NodeRef
      → StoreInner
      → Result ArenaError (Unit {0})
  check_raw segment kind left right inner =
      fail_if (is_instantiate kind) bare_instantiate
      >> (fail_if (not (valid_shape kind left right)) invalid_children
          >> (children_exist inner (children_of left right)
              >> validate_template_children id inner segment (children_of left right)))

  -- The check in one section, on the store `checked`; the append in a later one.
  unfoldable pub append_raw : SegmentId → Node → StoreInner → Op NodeRef
  append_raw segment node checked inner =
      after (check_raw segment node.kind node.left node.right checked) (λ u. append id segment node)
        inner

  -- The `if` of `publish_template` and what follows it.
  unfoldable pub publish_template : NodeRef → ℕ → Op TemplateId
  publish_template root schema_id inner =
      elim (node_from id inner root >>= λ node.
      segment_from id inner (segment_id root) >>= λ segment.
      fail_if (not (is_template segment.kind)) not_template >> ok segment) [
        | err e ↦ (err e, inner)
        | ok segment ↦ (
          ok (record { store = id; index = index_u32 inner.templates }),
          record inner {
            segments = set inner.segments root.segment (record segment { frozen = true });
            templates = inner.templates ++ record { root = root; schema_id = schema_id } ∷ [];
          },
        )
      ]

  abbrev pub instance_node : ℕ → ℕ → ℕ → Node
  instance_node payload_id channel_mask provenance_id =
      leaf id instantiate payload_id channel_mask provenance_id

  unfoldable pub add_instance : SegmentId → TemplateId → ℕ → ℕ → ℕ → Op NodeRef
  add_instance segment t binding_environment_id channel_mask provenance_id inner =
      elim (template_from id inner t >>= λ found. mutable_segment_from id inner segment) [
        | err e ↦ (err e, inner)
        | ok target ↦ (
          ok (record { store = id; segment = segment.index; index = index_u32 target.nodes }),
          record inner {
            segments = set inner.segments segment.index (
                with_node id target
                  (instance_node (index_u32 inner.instances) channel_mask provenance_id));
            instances =
                inner.instances
                ++ record { template = t; binding_environment_id = binding_environment_id } ∷ [];
          },
        )
      ]

  -- `freeze`: the root of the frozen program.
  unfoldable pub freeze : StoreInner → NodeRef → Result ArenaError NodeRef
  freeze inner root = node_from id inner root >>= λ node. ok root

  unfoldable pub segment_node_count : StoreInner → SegmentId → Result ArenaError ℕ
  segment_node_count inner segment = segment_from id inner segment >>= λ s. ok (length s.nodes)

  unfoldable pub local_node_ref : StoreInner → SegmentId → ℕ → Result ArenaError NodeRef
  local_node_ref inner segment local_index =
      let r : NodeRef = record { store = id; segment = segment.index; index = local_index } in
      node_from id inner r >>= λ node. ok r

abbrev pub total_node_count : StoreInner → ℕ
total_node_count inner = count inner.segments
  where
    count : List Segment → ℕ
    count [] = 0
    count (segment ∷ rest) = length segment.nodes + count rest

-- The columns of `NodeColumns`.
pub record NodeColumns : Type 0 where
  pub kinds : List NodeKind
  pub left : List (Option NodeRef)
  pub right : List (Option NodeRef)
  pub payload_ids : List ℕ
  pub channel_masks : List ℕ
  pub provenance_ids : List ℕ

module _ (id : ℕ) where
  unfoldable pub export_segment : StoreInner → SegmentId → Result ArenaError NodeColumns
  export_segment inner segment = segment_from id inner segment >>= λ s. ok (record {
    kinds = map (λ (n : Node). n.kind) s.nodes;
    left = map (λ (n : Node). n.left) s.nodes;
    right = map (λ (n : Node). n.right) s.nodes;
    payload_ids = map (λ (n : Node). n.payload_id) s.nodes;
    channel_masks = map (λ (n : Node). n.channel_mask) s.nodes;
    provenance_ids = map (λ (n : Node). n.provenance_id) s.nodes;
  })

  unfoldable pub node_channel_mask : StoreInner → NodeRef → Result ArenaError ℕ
  node_channel_mask inner node_ref = node_from id inner node_ref >>= λ node. ok node.channel_mask

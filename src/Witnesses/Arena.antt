-- ===== src/Witnesses/Arena.antt =====
-- Concrete inputs for the arena store: a template of two atomic nodes in parallel, published, and an
-- instance of it in a program segment.
use catseq.Prelude.{
  ℕ, ◌<◌, ◌≡◌, refl, arith, true, none, some, [], ◌∷◌, get_elem?, length, bit_or, ok, err, ok_inj,
  ◌^◌,
}
use mathlib.Core.WellFounded.{Acc}
use catseq.Core.Arena.{
  StoreInner, Segment, SegmentId, NodeRef, Node, NodeColumns, TemplateId, template, program,
  parallel, empty_store, create_segment, add_atomic, append, compose, composed, compose_mask,
  publish_template, add_instance, segment_from, mutable_segment_from, node_from, template_from,
  validate_template_children, export_segment, kind_of_byte, valid_shape, atomic, instantiate,
  freeze, segment_node_count, local_node_ref, node_channel_mask, total_node_count, append_raw,
  check_raw, add_wait, add_source_call, repeat, source_call, program_child, frozen_segment,
  unknown_node_kind,
}
use catseq.Core.Arena.Steps.{
  Reaches, here, further, created, atomic_added, composition_added, published, instantiated,
  wait_added,
}
use catseq.Core.Arena.Wellformed.{StoreIsValid}
use catseq.Core.Arena.Preserve.{reached-StoreIsValid}
use catseq.Core.Arena.Acyclic.{Points}
use catseq.Core.Arena.Descent.{reached-Acc}
use catseq.Core.Arena.Frozen.{publish_template_lasts}
use catseq.Core.Arena.Walk.{visit, walk, reachable_stats, reachable_stats-returns, has_node}
use catseq.Core.Arena.Walk.Pushes.{NoTwins}
use catseq.Core.Arena.Walk.Exact.{Below, reachable_stats_exact}
use catseq.Prelude.{◌≤◌, ◌↔◌, List}
use catseq.Core.Arena.Found.{compose_lasts, export_segment-rows, rows}

abbrev templates_at : SegmentId
templates_at = record { store = 7; index = 0 }

abbrev program_at : SegmentId
program_at = record { store = 7; index = 1 }

abbrev node_at : ℕ → ℕ → NodeRef
node_at segment index = record { store = 7; segment = segment; index = index }

abbrev first_template : TemplateId
first_template = record { store = 7; index = 0 }

abbrev with_segment : StoreInner
with_segment = (create_segment 7 template empty_store).1

abbrev with_one : StoreInner
with_one = (add_atomic 7 templates_at 10 1 0 with_segment).1

abbrev with_two : StoreInner
with_two = (add_atomic 7 templates_at 11 2 0 with_one).1

abbrev with_pair : StoreInner
with_pair = (append 7 templates_at (composed 7 parallel (node_at 0 0) (node_at 0 1) 5 3) with_two).1

abbrev with_published : StoreInner
with_published = (publish_template 7 (node_at 0 2) 9 with_pair).1

abbrev with_program : StoreInner
with_program = (create_segment 7 program with_published).1

abbrev with_call : StoreInner
with_call = (add_instance 7 program_at first_template 4 3 0 with_program).1

two_reached : Reaches 7 empty_store with_two
two_reached =
    further empty_store with_one with_two
      (further empty_store with_segment with_one
        (further empty_store empty_store with_segment (here empty_store)
          (created empty_store template))
        (atomic_added with_segment templates_at 10 1 0))
      (atomic_added with_one templates_at 11 2 0)

pair_mask : compose_mask 7 templates_at parallel (node_at 0 0) (node_at 0 1) with_two ≡ ok 3
unfolding compose_mask create_segment append add_atomic segment_from mutable_segment_from node_from
    validate_template_children
pair_mask = refl

pair_reached : Reaches 7 empty_store with_pair
pair_reached = further empty_store with_two with_pair two_reached (
    composition_added with_two with_two templates_at parallel (node_at 0 0) (node_at 0 1) 5 3
      (here with_two) pair_mask)

one_instance : length with_call.instances ≤ 2 ^ 32
unfolding create_segment append add_atomic publish_template add_instance segment_from
    mutable_segment_from node_from template_from
one_instance = omega arith

call_after_published : Reaches 7 with_published with_call
call_after_published =
    further with_published with_program with_call
      (further with_published with_published with_program (here with_published)
        (created with_published program))
      (instantiated with_program program_at first_template 4 3 0)

call_reached : Reaches 7 empty_store with_call
call_reached =
    further empty_store with_program with_call
      (further empty_store with_published with_program
        (further empty_store with_pair with_published pair_reached
          (published with_pair (node_at 0 2) 9))
        (created with_published program))
      (instantiated with_program program_at first_template 4 3 0)

reached-StoreIsValid_example : StoreIsValid 7 with_call
reached-StoreIsValid_example = reached-StoreIsValid 7 with_call call_reached one_instance

abbrev call_node : Node
call_node = record {
  kind = instantiate;
  left = none;
  right = none;
  payload_id = 0;
  channel_mask = 3;
  provenance_id = 0;
}

call_found : node_from 7 with_call (node_at 1 0) ≡ ok call_node
unfolding create_segment append add_atomic publish_template add_instance segment_from
    mutable_segment_from node_from template_from
call_found = refl

reached-Acc_example : Acc (Points 7 with_call) (node_at 1 0)
reached-Acc_example =
    reached-Acc 7 with_call (node_at 1 0) call_node call_reached one_instance call_found

is_published : (publish_template 7 (node_at 0 2) 9 with_pair).0 ≡ ok first_template
unfolding create_segment append add_atomic publish_template segment_from mutable_segment_from
    node_from
is_published = refl

publish_template_lasts_example :
    (x : Segment) × (segment_from 7 with_pair templates_at ≡ ok x)
    × (get_elem? with_call.segments 0 ≡ some (record x { frozen = true }))
publish_template_lasts_example =
    publish_template_lasts 7 with_pair with_call (node_at 0 2) 9 first_template is_published
      call_after_published

-- Another thread opens a segment between the check and the append.
abbrev with_other : StoreInner
with_other = (create_segment 7 program with_two).1

other_after_two : Reaches 7 with_two with_other
other_after_two = further with_two with_two with_other (here with_two) (created with_two program)

abbrev with_late : StoreInner
with_late = (compose 7 templates_at parallel (node_at 0 0) (node_at 0 1) 5 with_two with_other).1

is_composed :
    (compose 7 templates_at parallel (node_at 0 0) (node_at 0 1) 5 with_two with_other).0
    ≡ ok (node_at 0 2)
unfolding compose compose_mask create_segment append add_atomic segment_from mutable_segment_from
    node_from validate_template_children
is_composed = refl

wait_after_composed : Reaches 7 with_late (add_wait 7 program_at 4 0 with_late).1
wait_after_composed =
    further with_late with_late _ (here with_late) (wait_added with_late program_at 4 0)

two_nodes : (x : Segment) → segment_from 7 with_other templates_at ≡ ok x → length x.nodes < 2 ^ 32
unfolding create_segment append add_atomic segment_from mutable_segment_from
two_nodes x e = rw (← ok_inj e) (omega arith)

compose_lasts_example :
    (m n : Node) × (node_from 7 with_two (node_at 0 0) ≡ ok m)
    × (node_from 7 with_two (node_at 0 1) ≡ ok n)
    × (node_from 7 (add_wait 7 program_at 4 0 with_late).1 (node_at 0 0) ≡ ok m)
    × (node_from 7 (add_wait 7 program_at 4 0 with_late).1 (node_at 0 1) ≡ ok n)
    × (node_from 7 (add_wait 7 program_at 4 0 with_late).1 (node_at 0 2)
        ≡ ok (
            composed 7 parallel
              (node_at 0 0)
              (node_at 0 1)
              5
              (bit_or m.channel_mask n.channel_mask)))
compose_lasts_example =
    compose_lasts 7 with_two with_other (add_wait 7 program_at 4 0 with_late).1 templates_at
      parallel (node_at 0 0) (node_at 0 1) 5 (node_at 0 2) other_after_two two_nodes is_composed
      wait_after_composed

abbrev exported : NodeColumns
exported = record {
  kinds = atomic ∷ atomic ∷ parallel ∷ [];
  left = none ∷ none ∷ some (node_at 0 0) ∷ [];
  right = none ∷ none ∷ some (node_at 0 1) ∷ [];
  payload_ids = 10 ∷ 11 ∷ 0 ∷ [];
  channel_masks = 1 ∷ 2 ∷ 3 ∷ [];
  provenance_ids = 0 ∷ 0 ∷ 5 ∷ [];
}

is_exported : export_segment 7 with_call templates_at ≡ ok exported
unfolding export_segment create_segment append add_atomic publish_template add_instance segment_from
    mutable_segment_from node_from template_from
is_exported = refl

export_segment-rows_example :
    (x : Segment) × (segment_from 7 with_call templates_at ≡ ok x) × (rows exported ≡ x.nodes)
export_segment-rows_example = export_segment-rows 7 with_call templates_at exported is_exported

-- Runs of the operations: a program node under a template node, and an append to what is published.
abbrev raw_node : Node
raw_node = record {
  kind = repeat;
  left = some (node_at 1 0);
  right = none;
  payload_id = 3;
  channel_mask = 3;
  provenance_id = 0;
}

program_child_rejected :
    (append_raw 7 templates_at raw_node with_call with_call).0 ≡ err program_child
unfolding append_raw check_raw valid_shape validate_template_children append create_segment
    add_atomic publish_template add_instance segment_from mutable_segment_from node_from
    template_from
program_child_rejected = refl

frozen_rejected : (add_wait 7 templates_at 1 0 with_call).0 ≡ err frozen_segment
unfolding add_wait append create_segment add_atomic publish_template add_instance segment_from
    mutable_segment_from node_from template_from
frozen_rejected = refl

source_called : (add_source_call 7 program_at 6 with_call).0 ≡ ok (node_at 1 1)
unfolding add_source_call append create_segment add_atomic publish_template add_instance
    segment_from mutable_segment_from node_from template_from
source_called = refl

bytes_read : kind_of_byte 12 ≡ ok source_call
unfolding kind_of_byte
bytes_read = refl

byte_rejected : kind_of_byte 13 ≡ err unknown_node_kind
unfolding kind_of_byte
byte_rejected = refl

program_frozen : freeze 7 with_call (node_at 1 0) ≡ ok (node_at 1 0)
unfolding freeze append create_segment add_atomic publish_template add_instance segment_from
    mutable_segment_from node_from template_from
program_frozen = refl

nodes_counted : segment_node_count 7 with_call templates_at ≡ ok 3
unfolding segment_node_count append create_segment add_atomic publish_template add_instance
    segment_from mutable_segment_from node_from template_from
nodes_counted = refl

all_counted : total_node_count with_call ≡ 4
unfolding append create_segment add_atomic publish_template add_instance segment_from
    mutable_segment_from node_from template_from
all_counted = refl

local_found : local_node_ref 7 with_call templates_at 1 ≡ ok (node_at 0 1)
unfolding local_node_ref append create_segment add_atomic publish_template add_instance segment_from
    mutable_segment_from node_from template_from
local_found = refl

mask_found : node_channel_mask 7 with_call (node_at 0 2) ≡ ok 3
unfolding node_channel_mask append create_segment add_atomic publish_template add_instance
    segment_from mutable_segment_from node_from template_from
mask_found = refl

-- The program's root is the instance, which leads to the pair of the template and its two nodes.
program_counted : reachable_stats 7 with_call 9 (node_at 1 0) ≡ some (ok (4, 1))
unfolding reachable_stats walk visit append create_segment add_atomic publish_template add_instance
    segment_from mutable_segment_from node_from template_from
program_counted = refl

reachable_stats-returns_example :
    (fuel : ℕ) × (nodes : ℕ) × (instances : ℕ) × ((m : ℕ)
      → fuel ≤ m
      → reachable_stats 7 with_call m (node_at 1 0) ≡ some (ok (nodes, instances)))
reachable_stats-returns_example =
    reachable_stats-returns 7 with_call (node_at 1 0) call_node call_reached one_instance call_found

reachable_stats_exact_example :
    (found : List NodeRef) × (length found ≡ 4)
    × NoTwins found
    × ((c : NodeRef) → (has_node c found ≡ true) ↔ Below 7 with_call (node_at 1 0) c)
reachable_stats_exact_example =
    reachable_stats_exact 7 with_call 9 (node_at 1 0) 4 1 program_counted

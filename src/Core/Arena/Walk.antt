-- ===== src/Core/Arena/Walk.antt =====
-- rust/catseq-core/src/arena.rs, `FrozenProgram::reachable_stats`: the walk over the nodes below a
-- root. The loop runs on fuel, one unit for each reference it pops.
pub mod Exact
pub mod Pushes
use catseq.Prelude.{
  ℕ, suc, zero, ◌^◌, ◌+◌, ◌<◌, ◌≤◌, ◌==◌, ◌≡◌, ◌⊎◌, refl, arith, Bool, true, false, ◌&&◌, ◌||◌,
  if◌then◌else◌, Option, none, some, List, [], ◌∷◌, ◌++◌, length, get_elem?, Result, ok, err, ◌>>=◌,
  ok_or, All, All-get_elem?, ok_inj, sym, ap, ◌∙◌, inl, inr, Bool-cases, ==_iff,
}
use mathlib.Core.WellFounded.{Acc}
use mathlib.Core.Path.{subst}
use catseq.Core.Arena.{
  StoreInner, Node, NodeRef, NodeKind, Template, ArenaError, instantiate, is_instantiate,
  missing_instance, node_from, template_from, empty_store, valid_shape, children_of,
}
use catseq.Core.Arena.Extend.{template_from-ok}
use catseq.Core.Arena.Steps.{Reaches}
use catseq.Core.Arena.Wellformed.{StoreIsValid, NodeIsValid, TemplateIsValid, ChildIsValid}
use catseq.Core.Arena.Preserve.{reached-StoreIsValid}
use catseq.Core.Arena.Acyclic.{
  Points, to_left, to_right, to_root, Exists, left_child, right_child, valid_at,
}
use catseq.Core.Arena.Descent.{reached-Acc}

abbrev pub same_node : NodeRef → NodeRef → Bool
same_node a b = (a.store == b.store) && ((a.segment == b.segment) && (a.index == b.index))

-- `HashSet::insert` gives whether the reference was not there.
abbrev pub has_node : NodeRef → List NodeRef → Bool
has_node r [] = false
has_node r (x ∷ xs) = same_node x r || has_node r xs

-- A push on the stack, whose top is the head of the list.
abbrev pub push_node : Option NodeRef → List NodeRef → List NodeRef
push_node none stack = stack
push_node (some r) stack = r ∷ stack

-- How the loop ends: with the set of what it has seen and the count of instances, or an error.
abbrev pub Walked : Type 0
Walked = Result ArenaError (List NodeRef × ℕ)

is_instantiate-eq : (k : NodeKind) → is_instantiate k ≡ true → k ≡ instantiate
is_instantiate-eq k h = ground arith

All-pushed :
    (P : NodeRef → Type 0) (l r : Option NodeRef)
    → ((c : NodeRef) → l ≡ some c → P c)
    → ((c : NodeRef) → r ≡ some c → P c)
    → All P (push_node r (push_node l []))
All-pushed P none none f g = tt
All-pushed P (some l) none f g = (f l refl, tt)
All-pushed P none (some r) f g = (g r refl, tt)
All-pushed P (some l) (some r) f g = (g r refl, (f l refl, tt))

module _ (id : ℕ) (s : StoreInner) where
  -- What the visit of a node pushes, and what it adds to the count.
  unfoldable pub visit : NodeRef → Result ArenaError (List NodeRef × ℕ)
  visit r = node_from id s r >>= λ node.
      let children = push_node node.right (push_node node.left []) in
      if is_instantiate node.kind
      then (ok_or (get_elem? s.instances node.payload_id) missing_instance >>= λ instance.
          template_from id s instance.template >>= λ t. ok (t.root ∷ children, 1))
      else ok (children, 0)

  unfoldable pub walk : ℕ → List NodeRef → List NodeRef → ℕ → Option Walked
  walk fuel seen [] count = some (ok (seen, count))
  walk zero seen (r ∷ stack) count = none
  walk (suc fuel) seen (r ∷ stack) count = elim (has_node r seen) [
    | true ↦ walk fuel seen stack count
    | false ↦ elim (visit r) [
      | err e ↦ some (err e)
      | ok (pushed, instances) ↦ walk fuel (r ∷ seen) (pushed ++ stack) (count + instances)
    ]
  ]

  -- `reachable_stats`: the number of nodes seen and of template instances.
  unfoldable pub reachable_stats : ℕ → NodeRef → Option (Result ArenaError (ℕ × ℕ))
  reachable_stats fuel root = elim (walk fuel [] (root ∷ []) 0) [
    | none ↦ none
    | some (err e) ↦ some (err e)
    | some (ok (seen, count)) ↦ some (ok (length seen, count))
  ]

  -- With some fuel, and with all that is more, the walk ends without an error.
  abbrev Ends : List NodeRef → List NodeRef → ℕ → Type 0
  Ends seen stack count =
      (fuel : ℕ) × (found : List NodeRef) × (total : ℕ) × ((m : ℕ)
        → fuel ≤ m
        → walk m seen stack count ≡ some (ok (found, total)))

  abbrev EndsOn : List NodeRef → Type 0
  EndsOn stack = (seen : List NodeRef) (count : ℕ) → Ends seen stack count

  Ends-All :
      (Q : NodeRef → Type 0)
      → ((c : NodeRef) → Q c → (stack : List NodeRef) → EndsOn stack → EndsOn (c ∷ stack))
      → (pushed stack : List NodeRef) → All Q pushed
      → EndsOn stack
      → EndsOn (pushed ++ stack)
  Ends-All Q step [] stack h rest = rest
  Ends-All Q step (c ∷ pushed) stack (q, h) rest =
      step c q (pushed ++ stack) (Ends-All Q step pushed stack h rest)

  abbrev IsBelow : NodeRef → NodeRef → Type 0
  IsBelow r c = Points id s c r × Exists id s c

  -- In a valid store the visit of a node that exists pushes nodes below it that exist.
  visit-IsBelow :
      (r : NodeRef)
      → StoreIsValid id s
      → Exists id s r
      → (pushed : List NodeRef) × (k : ℕ) × (visit r ≡ ok (pushed, k)) × All (IsBelow r) pushed
  unfolding visit valid_shape
  visit-IsBelow r v (n, e) =
      let (x, fine) = valid_at id s r n v e in
      let children : All (IsBelow r) (push_node n.right (push_node n.left [])) =
        All-pushed (IsBelow r) n.left n.right
          (λ c l.
            let (k, y, known, in_segment, level) =
              left_child (ChildIsValid id s x.kind) n.left n.right c l fine.children in
            (to_left c r n e l, (k, known)))
          (λ c l.
            let (k, y, known, in_segment, level) =
              right_child (ChildIsValid id s x.kind) n.left n.right c l fine.children in
            (to_right c r n e l, (k, known))) in
      elim (Bool-cases (is_instantiate n.kind)) [
        | inl hit ↦
            let kind = is_instantiate-eq n.kind hit in
            elim fine.shape [
              | inl shape ↦ absurd (clash n.left n.right (rw kind at shape))
              | inr (same, (instance, t, at, known)) ↦
                  let (own, place) = template_from-ok id s instance.template t known in
                  let (m, seg, root, in_segment, level) =
                    All-get_elem? (TemplateIsValid id s) s.templates instance.template.index t
                      v.templates place in
                  (
                    t.root ∷ push_node n.right (push_node n.left []),
                    1,
                    rw (e, hit, at, known) refl,
                    ((to_root r n instance t e kind at known, (m, root)), children),
                  )
            ]
        | inr miss ↦ (push_node n.right (push_node n.left []), 0, rw (e, miss) refl, children)
      ]
    where
      clash : (l r : Option NodeRef) → valid_shape instantiate l r ≡ true → ⊥
      clash l r q = cc

  walk-old :
      (r : NodeRef) (seen stack : List NodeRef) (count fuel : ℕ) (w : Option Walked)
      → has_node r seen ≡ true
      → ((m : ℕ) → fuel ≤ m → walk m seen stack count ≡ w)
      → (m : ℕ) → suc fuel ≤ m
      → walk m seen (r ∷ stack) count ≡ w
  unfolding walk
  walk-old r seen stack count fuel w old run zero h = absurd (omega arith)
  walk-old r seen stack count fuel w old run (suc m) h = rw (old, walk) (run m (omega arith))

  walk-new :
      (r : NodeRef) (seen stack pushed : List NodeRef) (count k fuel : ℕ) (w : Option Walked)
      → has_node r seen ≡ false
      → visit r ≡ ok (pushed, k)
      → ((m : ℕ) → fuel ≤ m → walk m (r ∷ seen) (pushed ++ stack) (count + k) ≡ w)
      → (m : ℕ) → suc fuel ≤ m
      → walk m seen (r ∷ stack) count ≡ w
  unfolding walk
  walk-new r seen stack pushed count k fuel w new e run zero h = absurd (omega arith)
  walk-new r seen stack pushed count k fuel w new e run (suc m) h =
      rw (new, e, walk) (run m (omega arith))

  Ends-cons :
      (r : NodeRef)
      → Acc (Points id s) r
      → StoreIsValid id s
      → Exists id s r
      → (stack : List NodeRef) → EndsOn stack
      → EndsOn (r ∷ stack)
  Ends-cons r (Acc.intro _ below) v there stack rest seen count =
      elim (Bool-cases (has_node r seen)) [
        | inl old ↦
            let (fuel, found, total, run) = rest seen count in
            (
              suc fuel,
              found,
              total,
              walk-old r seen stack count fuel (some (ok (found, total))) old run,
            )
        | inr new ↦
            let (pushed, k, e, all) = visit-IsBelow r v there in
            let (fuel, found, total, run) =
              Ends-All (IsBelow r) (λ c q. Ends-cons c (below c q.0) v q.1) pushed stack all rest
                (r ∷ seen) (count + k) in
            (
              suc fuel,
              found,
              total,
              walk-new r seen stack pushed count k fuel (some (ok (found, total))) new e run,
            )
      ]

-- The statistics of a frozen program are there: in every store that an empty one becomes and that
-- holds at most 2 ^ 32 instances, whose index is cast to 32 bits, from a root that is a node of it, the walk over shared children and templates ends without an error, with some
-- fuel and with all that is more, always with the same two numbers.
pub reachable_stats-returns :
    (id : ℕ) (s : StoreInner) (root : NodeRef) (n : Node)
    → Reaches id empty_store s
    → length s.instances ≤ 2 ^ 32
    → node_from id s root ≡ ok n
    → (fuel : ℕ) × (nodes : ℕ) × (instances : ℕ) × ((m : ℕ)
        → fuel ≤ m
        → reachable_stats id s m root ≡ some (ok (nodes, instances)))
unfolding reachable_stats walk
reachable_stats-returns id s root n r fits e =
    let (fuel, found, total, run) =
      Ends-cons id s root (reached-Acc id s root n r fits e) (reached-StoreIsValid id s r fits)
        (n, e) [] (λ seen count. (0, seen, count, λ m h. refl)) [] 0 in
    (fuel, length found, total, λ m h. rw (run m h, reachable_stats) refl)

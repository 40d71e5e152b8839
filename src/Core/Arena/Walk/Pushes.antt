-- ===== src/Core/Arena/Walk/Pushes.antt =====
-- References in a list, and what the visit of a node pushes.
use catseq.Prelude.{
  ℕ, ◌==◌, ◌≡◌, ◌⊎◌, refl, Bool, true, false, ◌&&◌, ◌||◌, Option, none, some, List, [], ◌∷◌, ◌++◌,
  get_elem?, ok, ok_or, >>=-eq-ok, ok_or-ok, All, ok_inj, some_inj, sym, ap, ◌∙◌, inl, inr,
  Bool-cases, ==_iff, ==_refl,
}
use mathlib.Core.Path.{subst}
use catseq.Core.Arena.{
  StoreInner, Node, Template, TemplateInstance, NodeRef, is_instantiate, missing_instance,
  node_from, template_from,
}
use catseq.Core.Arena.Acyclic.{Points, to_left, to_right, to_root}
use catseq.Core.Arena.Walk.{same_node, has_node, push_node, visit, All-pushed, is_instantiate-eq}

pub same_node-eq : (a b : NodeRef) → same_node a b ≡ true → a ≡ b
same_node-eq a b h =
    fields (a.store == b.store) refl (a.segment == b.segment) refl (a.index == b.index) refl h
  where
    fields :
        (x : Bool)
        → (a.store == b.store) ≡ x
        → (y : Bool) → (a.segment == b.segment) ≡ y
        → (z : Bool) → (a.index == b.index) ≡ z
        → (x && (y && z)) ≡ true
        → a ≡ b
    fields true p true q true r e =
        let i = (==_iff a.store b.store).0 p in
        let j = (==_iff a.segment b.segment).0 q in
        let k = (==_iff a.index b.index).0 r in
        ap (λ n. record a { store = n }) i
        ∙ ap (λ n. record a { store = b.store; segment = n }) j
        ∙ ap (λ n. record a { store = b.store; segment = b.segment; index = n }) k
    fields true p true q false r e = cc
    fields true p false q z r e = cc
    fields false p y q z r e = cc

pub same_node_refl : (a : NodeRef) → same_node a a ≡ true
same_node_refl a = rw (==_refl a.store, ==_refl a.segment, ==_refl a.index) refl

pub has_node-append :
    (r : NodeRef) (xs ys : List NodeRef) → has_node r (xs ++ ys) ≡ (has_node r xs || has_node r ys)
has_node-append r [] ys = refl
has_node-append r (x ∷ xs) ys = elim (Bool-cases (same_node x r)) [
  | inl e ↦ rw e refl
  | inr e ↦ rw e (has_node-append r xs ys)
]

pub has_node-All :
    (P : NodeRef → Type 0) (r : NodeRef) (xs : List NodeRef) → All P xs → has_node r xs ≡ true → P r
has_node-All P r [] h e = cc
has_node-All P r (x ∷ xs) (p, h) e = elim (Bool-cases (same_node x r)) [
  | inl same ↦ subst P (same_node-eq x r same) p
  | inr other ↦ has_node-All P r xs h (rw other at e)
]

pub either : (a b : Bool) → (a || b) ≡ true → (a ≡ true) ⊎ (b ≡ true)
either true b h = inl refl
either false b h = inr h

pub has_left :
    (l r : Option NodeRef) (c : NodeRef)
    → l ≡ some c
    → has_node c (push_node r (push_node l [])) ≡ true
has_left none r c e = cc
has_left (some l) none c e = rw (some_inj e, same_node_refl c) refl
has_left (some l) (some r) c e = elim (Bool-cases (same_node r c)) [
  | inl h ↦ rw h refl
  | inr h ↦ rw (h, some_inj e, same_node_refl c) refl
]

pub has_right :
    (l r : Option NodeRef) (c : NodeRef)
    → r ≡ some c
    → has_node c (push_node r (push_node l [])) ≡ true
has_right l none c e = cc
has_right l (some r) c e = rw (some_inj e, same_node_refl c) refl

pub has_behind :
    (x c : NodeRef) (xs : List NodeRef) → has_node c xs ≡ true → has_node c (x ∷ xs) ≡ true
has_behind x c xs h = elim (Bool-cases (same_node x c)) [ inl e ↦ rw e refl | inr e ↦ rw e h ]

-- No reference twice.
abbrev pub NoTwins : List NodeRef → Type 0
NoTwins [] = Unit
NoTwins (r ∷ rs) = (has_node r rs ≡ false) × NoTwins rs

pub or_left : (a b : Bool) → a ≡ true → (a || b) ≡ true
or_left a b h = rw h refl

pub or_right : (a b : Bool) → b ≡ true → (a || b) ≡ true
or_right true b h = refl
or_right false b h = h

pub left_of : (b : Bool) → (b || false) ≡ true → b ≡ true
left_of true h = refl
left_of false h = h

module _ (id : ℕ) (s : StoreInner) where
  -- What a visit pushes is what the node points to, and all of it.
  pub visit-pushes :
      (r : NodeRef) (pushed : List NodeRef) (k : ℕ)
      → visit id s r ≡ ok (pushed, k)
      → All (λ c. Points id s c r) pushed
        × ((c : NodeRef) → Points id s c r → has_node c pushed ≡ true)
  unfolding visit
  visit-pushes r pushed k e =
      let (n, f, e1) = >>=-eq-ok (node_from id s r) _ e in
      let children = push_node n.right (push_node n.left []) in
      let below_children : All (λ c. Points id s c r) children =
        All-pushed (λ c. Points id s c r) n.left n.right (λ c l. to_left c r n f l)
          (λ c l. to_right c r n f l) in
      elim (Bool-cases (is_instantiate n.kind)) [
        | inl hit ↦
            let (x, at, e2) =
              >>=-eq-ok (ok_or (get_elem? s.instances n.payload_id) missing_instance) _
                (rw hit at e1) in
            let (t, known, e3) = >>=-eq-ok (template_from id s x.template) _ e2 in
            let place = ok_or-ok (get_elem? s.instances n.payload_id) missing_instance at in
            subst
              (λ (l : List NodeRef).
                All (λ c. Points id s c r) l
                × ((c : NodeRef) → Points id s c r → has_node c l ≡ true))
              (ap (λ (q : List NodeRef × ℕ). q.0) (ok_inj e3))
              (
                (to_root r n x t f (is_instantiate-eq n.kind hit) place known, below_children),
                λ c edge. all_of_instance n x t f place known edge,
              )
        | inr miss ↦
            subst
              (λ (l : List NodeRef).
                All (λ c. Points id s c r) l
                × ((c : NodeRef) → Points id s c r → has_node c l ≡ true))
              (ap (λ (q : List NodeRef × ℕ). q.0) (ok_inj (rw miss at e1)))
              (below_children, λ c edge. all_of_children n f miss edge)
      ]
    where
      all_of_instance :
          (n : Node) (x : TemplateInstance) (t : Template)
          → node_from id s r ≡ ok n
          → get_elem? s.instances n.payload_id ≡ some x
          → template_from id s x.template ≡ ok t
          → {c : NodeRef} → Points id s c r
          → has_node c (t.root ∷ push_node n.right (push_node n.left [])) ≡ true
      all_of_instance n x t f place known (to_left c r m g l) =
          has_behind t.root c _
            (has_left n.left n.right c (ap (λ (z : Node). z.left) (ok_inj (sym f ∙ g)) ∙ l))
      all_of_instance n x t f place known (to_right c r m g l) =
          has_behind t.root c _
            (has_right n.left n.right c (ap (λ (z : Node). z.right) (ok_inj (sym f ∙ g)) ∙ l))
      all_of_instance n x t f place known (to_root r m y u g kind at found) =
          let p : n ≡ m = ok_inj (sym f ∙ g) in
          let q : x ≡ y =
            some_inj (sym place ∙ ap (λ (z : Node). get_elem? s.instances z.payload_id) p ∙ at) in
          let w : t ≡ u =
            ok_inj (
              sym known ∙ ap (λ (z : TemplateInstance). template_from id s z.template) q ∙ found) in
          rw (ap (λ (z : Template). z.root) w, same_node_refl u.root) refl

      all_of_children :
          (n : Node)
          → node_from id s r ≡ ok n
          → is_instantiate n.kind ≡ false
          → {c : NodeRef} → Points id s c r
          → has_node c (push_node n.right (push_node n.left [])) ≡ true
      all_of_children n f miss (to_left c r m g l) =
          has_left n.left n.right c (ap (λ (z : Node). z.left) (ok_inj (sym f ∙ g)) ∙ l)
      all_of_children n f miss (to_right c r m g l) =
          has_right n.left n.right c (ap (λ (z : Node). z.right) (ok_inj (sym f ∙ g)) ∙ l)
      all_of_children n f miss (to_root r m y u g kind at found) = absurd (
          clash (
            sym miss
            ∙ ap (λ (z : Node). is_instantiate z.kind) (ok_inj (sym f ∙ g))
            ∙ ap is_instantiate kind))
        where
          clash : false ≡ true → ⊥
          clash h = cc

-- ===== src/Core/Arena/Extend.antt =====
-- What no operation of the store takes back: nodes, kinds of segments, templates and instances.
use catseq.Prelude.{
  ℕ, ◌==◌, ◌≡◌, refl, arith, true, false, not, some, List, ◌++◌, ok, fail_if, >>=-eq-ok, >>-ok,
  ok_or-ok, ok_inj, fail_if-ok, some_inj, get_elem?, set, get_elem?-append_left, get_elem?-set_self,
  get_elem?-set_ne, get_elem?-some_lt, get_elem?-lt_some, length, ◌≤◌, ◌∷◌, arith, [], List, ap,
  sym, ◌∙◌, Bool-cases, inl, inr, ==_iff,
}
use mathlib.Core.Path.{subst}
use catseq.Core.Arena.{
  StoreInner, Segment, Node, NodeRef, SegmentId, TemplateId, Template, segment_id, segment_from,
  mutable_segment_from, node_from, template_from, foreign_segment, unknown_segment, unknown_node,
  frozen_segment, foreign_template, unknown_template,
}

-- Every entry of the one list stands in the other at the same place.
abbrev pub Keeps {ℓ} : {A : Type ℓ} → List A → List A → Type ℓ
Keeps {A} xs ys = (i : ℕ) (x : A) → get_elem? xs i ≡ some x → get_elem? ys i ≡ some x

abbrev pub Grown : Segment → Segment → Type 0
Grown s t = (t.kind ≡ s.kind) × Keeps s.nodes t.nodes

abbrev pub AllGrown : List Segment → List Segment → Type 0
AllGrown xs ys =
    (i : ℕ) (s : Segment)
    → get_elem? xs i ≡ some s
    → (t : Segment) × (get_elem? ys i ≡ some t) × Grown s t

pub record Extends (s t : StoreInner) : Type 0 where
  pub segments : AllGrown s.segments t.segments
  pub templates : Keeps s.templates t.templates
  pub instances : Keeps s.instances t.instances

pub Keeps-refl {ℓ} : {A : Type ℓ} (xs : List A) → Keeps xs xs
Keeps-refl xs i x e = e

pub Keeps-append {ℓ} : {A : Type ℓ} (xs ys : List A) → Keeps xs (xs ++ ys)
Keeps-append xs ys i x e = get_elem?-append_left xs ys i x e

-- A list that keeps another is at least as long.
pub Keeps-length {ℓ} : {A : Type ℓ} (xs ys : List A) → Keeps xs ys → length xs ≤ length ys
Keeps-length [] ys h = omega arith
Keeps-length (x ∷ xs) ys h =
    let (v, last) = get_elem?-lt_some (x ∷ xs) (length xs) (omega arith) in
    let bound = get_elem?-some_lt ys (length xs) v (h (length xs) v last) in omega arith

pub AllGrown-refl : (xs : List Segment) → AllGrown xs xs
AllGrown-refl xs i s e = (s, e, (refl, Keeps-refl s.nodes))

pub Extends-refl : (s : StoreInner) → Extends s s
Extends-refl s = record {
  segments = AllGrown-refl s.segments;
  templates = Keeps-refl s.templates;
  instances = Keeps-refl s.instances;
}

pub Extends-trans : (s t u : StoreInner) → Extends s t → Extends t u → Extends s u
Extends-trans s t u a b = record {
  segments = λ i x e.
      let (y, f, (k, m)) = a.segments i x e in
      let (z, g, (l, n)) = b.segments i y f in (z, g, (l ∙ k, λ j v p. n j v (m j v p)));
  templates = λ i x e. b.templates i x (a.templates i x e);
  instances = λ i x e. b.instances i x (a.instances i x e);
}

-- One segment replaced by a grown one.
pub AllGrown-set :
    (xs : List Segment) (i : ℕ) (s t : Segment)
    → get_elem? xs i ≡ some s
    → Grown s t
    → AllGrown xs (set xs i t)
AllGrown-set xs i s t here grown j u e = elim (Bool-cases (i == j)) [
  | inl same ↦
      let p : i ≡ j = (==_iff i j).0 same in
      let q : s ≡ u = some_inj (sym here ∙ ap (get_elem? xs) p ∙ e) in
      (
        t,
        ap (get_elem? (set xs i t)) (sym p)
            ∙ get_elem?-set_self xs i t (get_elem?-some_lt xs i s here),
        subst (λ v. Grown v t) q grown,
      )
  | inr other ↦ (u, get_elem?-set_ne xs i j t (ground arith) ∙ e, (refl, Keeps-refl u.nodes))
]

pub AllGrown-append : (xs ys : List Segment) → AllGrown xs (xs ++ ys)
AllGrown-append xs ys i s e = (s, get_elem?-append_left xs ys i s e, (refl, Keeps-refl s.nodes))

module _ (id : ℕ) where
  pub segment_from-ok :
      (s : StoreInner) (r : SegmentId) (x : Segment)
      → segment_from id s r ≡ ok x
      → (r.store ≡ id) × (get_elem? s.segments r.index ≡ some x)
  unfolding segment_from
  segment_from-ok s r x e =
      let (own, found) = >>-ok (fail_if (not (r.store == id)) foreign_segment) _ e in
      let mine = fail_if-ok (not (r.store == id)) foreign_segment own in
      (ground arith, ok_or-ok (get_elem? s.segments r.index) unknown_segment found)

  pub ok-segment_from :
      (s : StoreInner) (r : SegmentId) (x : Segment)
      → r.store ≡ id
      → get_elem? s.segments r.index ≡ some x
      → segment_from id s r ≡ ok x
  unfolding segment_from
  ok-segment_from s r x p e = let own : (r.store == id) ≡ true = ground arith in rw (own, e) refl

  pub node_from-ok :
      (s : StoreInner) (r : NodeRef) (n : Node)
      → node_from id s r ≡ ok n
      → (x : Segment) × (segment_from id s (segment_id r) ≡ ok x)
        × (get_elem? x.nodes r.index ≡ some n)
  unfolding node_from
  node_from-ok s r n e =
      let (x, found, rest) = >>=-eq-ok (segment_from id s (segment_id r)) _ e in
      (x, found, ok_or-ok (get_elem? x.nodes r.index) unknown_node rest)

  pub ok-node_from :
      (s : StoreInner) (r : NodeRef) (x : Segment) (n : Node)
      → segment_from id s (segment_id r) ≡ ok x
      → get_elem? x.nodes r.index ≡ some n
      → node_from id s r ≡ ok n
  unfolding node_from
  ok-node_from s r x n e f = rw (e, f) refl

  pub mutable_segment_from-ok :
      (s : StoreInner) (r : SegmentId) (x : Segment)
      → mutable_segment_from id s r ≡ ok x
      → (segment_from id s r ≡ ok x) × (x.frozen ≡ false)
  unfolding mutable_segment_from
  mutable_segment_from-ok s r x e =
      let (y, found, rest) = >>=-eq-ok (segment_from id s r) _ e in
      let (thawed, same) = >>-ok (fail_if y.frozen frozen_segment) (ok y) rest in
      let p = ok_inj same in
      (
        found ∙ ap ok p,
        ap (λ (z : Segment). z.frozen) (sym p) ∙ fail_if-ok y.frozen frozen_segment thawed,
      )

  pub template_from-ok :
      (s : StoreInner) (t : TemplateId) (x : Template)
      → template_from id s t ≡ ok x
      → (t.store ≡ id) × (get_elem? s.templates t.index ≡ some x)
  unfolding template_from
  template_from-ok s t x e =
      let (own, found) = >>-ok (fail_if (not (t.store == id)) foreign_template) _ e in
      let mine = fail_if-ok (not (t.store == id)) foreign_template own in
      (ground arith, ok_or-ok (get_elem? s.templates t.index) unknown_template found)

  pub ok-template_from :
      (s : StoreInner) (t : TemplateId) (x : Template)
      → t.store ≡ id
      → get_elem? s.templates t.index ≡ some x
      → template_from id s t ≡ ok x
  unfolding template_from
  ok-template_from s t x p e = let own : (t.store == id) ≡ true = ground arith in rw (own, e) refl

  -- What a lookup has found, it finds in every later state.
  module _ (s t : StoreInner) (later : Extends s t) where
    pub segment_from-Extends :
        (r : SegmentId) (x : Segment)
        → segment_from id s r ≡ ok x
        → (y : Segment) × (segment_from id t r ≡ ok y) × Grown x y
    segment_from-Extends r x e =
        let (own, here) = segment_from-ok s r x e in
        let (y, there, grown) = later.segments r.index x here in
        (y, ok-segment_from t r y own there, grown)

    pub node_from-Extends :
        (r : NodeRef) (n : Node) → node_from id s r ≡ ok n → node_from id t r ≡ ok n
    node_from-Extends r n e =
        let (x, found, here) = node_from-ok s r n e in
        let (y, still, (kind, nodes)) = segment_from-Extends (segment_id r) x found in
        ok-node_from t r y n still (nodes r.index n here)

    pub template_from-Extends :
        (i : TemplateId) (x : Template) → template_from id s i ≡ ok x → template_from id t i ≡ ok x
    template_from-Extends i x e =
        let (own, here) = template_from-ok s i x e in
        ok-template_from t i x own (later.templates i.index x here)

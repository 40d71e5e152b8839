-- ===== src/Prelude/Sort.antt =====
-- Vectors sorted by a key, as the library's stable `sort_by_key` does; a key of several parts is the
-- list of its parts, compared from the left.
use Prim.Native.Nat.{ℕ}
use mathlib.Core.Path.{◌≡◌, refl, sym, ap, ◌∙◌}
use mathlib.Core.Logic.{inl, inr}
use mathlib.Core.Bool.{Bool, true, false, ◌&&◌}
use mathlib.Core.List.{List, [], ◌∷◌, Perm}
use mathlib.Core.List.Perm
use native.Mathlib.Omega.{arith}
use catseq.Prelude.Tests.{ltb, ◌==◌, if◌then◌else◌, Bool-cases, ==_iff}
use catseq.Prelude.Lists.{All, All-map}

abbrev pub key_leb : List ℕ → List ℕ → Bool
key_leb [] k = true
key_leb (a ∷ j) [] = false
key_leb (a ∷ j) (b ∷ k) = if a == b then key_leb j k else ltb a b

abbrev pub key_eqb : List ℕ → List ℕ → Bool
key_eqb [] [] = true
key_eqb (a ∷ j) (b ∷ k) = (a == b) && key_eqb j k
key_eqb _ _ = false

pub key_leb_total : (j k : List ℕ) → key_leb j k ≡ false → key_leb k j ≡ true
key_leb_total [] k h = cc
key_leb_total (a ∷ j) [] h = refl
key_leb_total (a ∷ j) (b ∷ k) h = ground (arith, key_leb_total j k)

pub key_leb_trans : (i j k : List ℕ) → key_leb i j ≡ true → key_leb j k ≡ true → key_leb i k ≡ true
key_leb_trans [] j k h g = refl
key_leb_trans (a ∷ i) [] k h g = cc
key_leb_trans (a ∷ i) (b ∷ j) [] h g = cc
key_leb_trans (a ∷ i) (b ∷ j) (c ∷ k) h g = ground (arith, key_leb_trans i j k)

pub key_leb_refl : (k : List ℕ) → key_leb k k ≡ true
key_leb_refl [] = refl
key_leb_refl (a ∷ k) = ground (arith, key_leb_refl k)

pub key_eqb-eq : (j k : List ℕ) → key_eqb j k ≡ true → j ≡ k
key_eqb-eq [] [] h = refl
key_eqb-eq [] (b ∷ k) h = cc
key_eqb-eq (a ∷ j) [] h = cc
key_eqb-eq (a ∷ j) (b ∷ k) h = elim (Bool-cases (a == b)) [
  | inl e ↦ ap (◌∷◌ a) (key_eqb-eq j k (rw e at h)) ∙ ap (λ c. c ∷ k) ((==_iff a b).0 e)
  | inr e ↦ absurd (clash (rw e at h))
]
  where
    clash : false ≡ true → ⊥
    clash q = cc

pub key_eqb_refl : (k : List ℕ) → key_eqb k k ≡ true
key_eqb_refl [] = refl
key_eqb_refl (a ∷ k) = ground (arith, key_eqb_refl k)

module _ {ℓ} {A : Type ℓ} where
  abbrev pub keep : (A → Bool) → List A → List A
  keep p [] = []
  keep p (x ∷ xs) = let rest = keep p xs in if p x then x ∷ rest else rest

-- A predicate on every element holds on those that are kept.
pub All-keep {ℓ κ} :
    {A : Type ℓ} (P : A → Type κ) (p : A → Bool) (xs : List A) → All P xs → All P (keep p xs)
All-keep P p [] h = tt
All-keep P p (x ∷ xs) (q, h) = elim (Bool-cases (p x)) [
  | inl e ↦ rw e (q, All-keep P p xs h)
  | inr e ↦ rw e (All-keep P p xs h)
]

module _ {ℓ} {A : Type ℓ} (key : A → List ℕ) where
  abbrev pub IsAscending : List A → Type 0
  IsAscending [] = Unit
  IsAscending (x ∷ xs) = All (λ y. key_leb (key x) (key y) ≡ true) xs × IsAscending xs

  abbrev pub insert_by_key : A → List A → List A
  insert_by_key x [] = x ∷ []
  insert_by_key x (y ∷ ys) =
      let rest = insert_by_key x ys in if key_leb (key x) (key y) then x ∷ y ∷ ys else y ∷ rest

  abbrev pub sort_by_key : List A → List A
  sort_by_key [] = []
  sort_by_key (x ∷ xs) = insert_by_key x (sort_by_key xs)

  All-insert_by_key {κ} :
      (P : A → Type κ) (x : A) (ys : List A) → P x → All P ys → All P (insert_by_key x ys)
  All-insert_by_key P x [] p h = (p, tt)
  All-insert_by_key P x (y ∷ ys) p (q, h) = elim (Bool-cases (key_leb (key x) (key y))) [
    | inl e ↦ rw e (p, (q, h))
    | inr e ↦ rw e (q, All-insert_by_key P x ys p h)
  ]

  -- A predicate on every element survives the sort.
  pub All-sort_by_key {κ} : (P : A → Type κ) (xs : List A) → All P xs → All P (sort_by_key xs)
  All-sort_by_key P [] h = tt
  All-sort_by_key P (x ∷ xs) (p, h) =
      All-insert_by_key P x (sort_by_key xs) p (All-sort_by_key P xs h)

  insert_by_key-IsAscending :
      (x : A) (ys : List A) → IsAscending ys → IsAscending (insert_by_key x ys)
  insert_by_key-IsAscending x [] h = (tt, tt)
  insert_by_key-IsAscending x (y ∷ ys) (below, h) = elim (Bool-cases (key_leb (key x) (key y))) [
    | inl e ↦
        rw e ((e, All-map (λ z q. key_leb_trans (key x) (key y) (key z) e q) ys below), (below, h))
    | inr e ↦ rw e (
      All-insert_by_key _ x ys (key_leb_total (key x) (key y) e) below,
      insert_by_key-IsAscending x ys h,
    )
  ]

  pub sort_by_key-IsAscending : (xs : List A) → IsAscending (sort_by_key xs)
  sort_by_key-IsAscending [] = tt
  sort_by_key-IsAscending (x ∷ xs) =
      insert_by_key-IsAscending x (sort_by_key xs) (sort_by_key-IsAscending xs)

  insert_by_key-perm : (x : A) (ys : List A) → Perm (insert_by_key x ys) (x ∷ ys)
  insert_by_key-perm x [] = Perm.rfl
  insert_by_key-perm x (y ∷ ys) = elim (Bool-cases (key_leb (key x) (key y))) [
    | inl e ↦ rw e Perm.rfl
    | inr e ↦ rw e (Perm.trans (Perm.cons y (insert_by_key-perm x ys)) (Perm.swap x y ys))
  ]

  pub sort_by_key-perm : (xs : List A) → Perm (sort_by_key xs) xs
  sort_by_key-perm [] = Perm.rfl
  sort_by_key-perm (x ∷ xs) =
      Perm.trans (insert_by_key-perm x (sort_by_key xs)) (Perm.cons x (sort_by_key-perm xs))

  -- The elements of one key, in the order they stand in.
  abbrev pub of_key : List ℕ → List A → List A
  of_key k = keep (λ x. key_eqb (key x) k)

  equal_keys :
      (k : List ℕ) (x y : A)
      → key_leb (key x) (key y) ≡ false
      → key_eqb (key x) k ≡ true
      → key_eqb (key y) k ≡ true
      → ⊥
  equal_keys k x y e same own = impossible (
      sym e
      ∙ ap (λ j. key_leb j (key y)) (key_eqb-eq (key x) k same)
      ∙ ap (key_leb k) (key_eqb-eq (key y) k own)
      ∙ key_leb_refl k)
    where
      impossible : false ≡ true → ⊥
      impossible q = cc

  of_key-insert_by_key :
      (k : List ℕ) (x : A) (ys : List A) → of_key k (insert_by_key x ys) ≡ of_key k (x ∷ ys)
  of_key-insert_by_key k x [] = refl
  of_key-insert_by_key k x (y ∷ ys) = elim (Bool-cases (key_leb (key x) (key y))) [
    | inl e ↦ rw e refl
    | inr e ↦ elim (Bool-cases (key_eqb (key y) k)) [
      | inl own ↦ elim (Bool-cases (key_eqb (key x) k)) [
        | inl same ↦ absurd (equal_keys k x y e same own)
        | inr other ↦ rw (e, own, of_key-insert_by_key k x ys, other) refl
      ]
      | inr own ↦ rw (e, own, of_key-insert_by_key k x ys) refl
    ]
  ]

  pub of_key-sort_by_key : (k : List ℕ) (xs : List A) → of_key k (sort_by_key xs) ≡ of_key k xs
  of_key-sort_by_key k [] = refl
  of_key-sort_by_key k (x ∷ xs) =
      of_key-insert_by_key k x (sort_by_key xs)
      ∙ ap (λ rest. if key_eqb (key x) k then x ∷ rest else rest) (of_key-sort_by_key k xs)

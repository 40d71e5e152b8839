-- ===== src/Prelude/Map.antt =====
-- `BTreeMap` and `BTreeSet` as association lists and lists. Keys are compared by the number that
-- stands for them.
use Prim.Native.Nat.{ℕ}
use mathlib.Core.Path.{◌≡◌, refl, subst}
use mathlib.Core.Logic.{◌≢◌, ◌↔◌, inl, inr}
use mathlib.Core.Bool.{Bool, true, false, ◌||◌, ◌&&◌}
use mathlib.Core.Option.{Option, none, some}
use mathlib.Core.List.{List, [], ◌∷◌}
use native.Mathlib.Omega.{arith}
use catseq.Prelude.Tests.{◌==◌, if◌then◌else◌, Bool-cases}
use catseq.Prelude.Lists.{All}

pub record Key (A : Type 0) : Type 0 where
  pub key : A → ℕ
  pub key_inj : (a b : A) → key a ≡ key b → a ≡ b

module _ {A V : Type 0} ⦃k : Key A⦄ where
  unfoldable pub lookup : A → List (A × V) → Option V
  lookup a [] = none
  lookup a ((b, v) ∷ m) = if k.key b == k.key a then some v else lookup a m

  unfoldable pub insert : A → V → List (A × V) → List (A × V)
  insert a v [] = (a, v) ∷ []
  insert a v ((b, w) ∷ m) = if k.key b == k.key a then (b, v) ∷ m else (b, w) ∷ insert a v m

  unfoldable pub remove : A → List (A × V) → List (A × V)
  remove a [] = []
  remove a ((b, w) ∷ m) = if k.key b == k.key a then remove a m else (b, w) ∷ remove a m

  -- `values().all(p)`.
  unfoldable pub all_values : (V → Bool) → List (A × V) → Bool
  all_values p [] = true
  all_values p ((b, w) ∷ m) = p w && all_values p m

  unfoldable pub any_value : (V → Bool) → List (A × V) → Bool
  any_value p [] = false
  any_value p ((b, w) ∷ m) = p w || any_value p m

  pub lookup-insert :
      (a b : A) (v : V) (m : List (A × V))
      → lookup b (insert a v m) ≡ (if k.key a == k.key b then some v else lookup b m)
  unfolding lookup insert
  lookup-insert a b v [] = refl
  lookup-insert a b v ((c, w) ∷ m) = ground (arith, lookup-insert a b v m)

  pub lookup-remove :
      (a b : A) (m : List (A × V))
      → lookup b (remove a m) ≡ (if k.key a == k.key b then none else lookup b m)
  unfolding lookup remove
  lookup-remove a b [] = ground arith
  lookup-remove a b ((c, w) ∷ m) = ground (arith, lookup-remove a b m)

-- A list without repetition.
abbrev pub Distinct : List ℕ → Type 0
Distinct [] = Unit
Distinct (x ∷ xs) = All (λ y. x ≢ y) xs × Distinct xs

unfoldable pub contains : ℕ → List ℕ → Bool
contains a [] = false
contains a (x ∷ xs) = x == a || contains a xs

-- Whether a loop that inserts each element into a set finds it new.
unfoldable pub all_new : List ℕ → List ℕ → Bool
unfolding contains
all_new seen [] = true
all_new seen (x ∷ xs) = if contains x seen then false else all_new (x ∷ seen) xs

abbrev NotIn : List ℕ → ℕ → Type 0
NotIn seen x = contains x seen ≡ false

apart :
    (x : ℕ) (seen xs : List ℕ)
    → All (NotIn (x ∷ seen)) xs ↔ (All (λ y. x ≢ y) xs × All (NotIn seen) xs)
unfolding contains
apart x seen [] = (λ h. (tt, tt), λ h. tt)
apart x seen (y ∷ xs) = (
  λ h. let r = (apart x seen xs).0 h.1 in ((ground arith, r.0), (ground arith, r.1)),
  λ h. (ground arith, (apart x seen xs).1 (h.0.1, h.1.1)),
)

all_new-Distinct :
    (seen xs : List ℕ) → (all_new seen xs ≡ true) ↔ (Distinct xs × All (NotIn seen) xs)
unfolding all_new
all_new-Distinct seen [] = (λ h. (tt, tt), λ h. refl)
all_new-Distinct seen (x ∷ xs) =
    let ih = all_new-Distinct (x ∷ seen) xs in
    let sides = apart x seen xs in
    (
      λ h.
          let new : contains x seen ≡ false = ground arith in
          let rest : all_new (x ∷ seen) xs ≡ true = ground arith in
          let (d, n) = ih.0 rest in let (a, s) = sides.0 n in ((a, d), (new, s)),
      λ h. rw (h.1.0) (ih.1 (h.0.1, sides.1 (h.0.0, h.1.1))),
    )

All-NotIn_nil : (xs : List ℕ) → All (NotIn []) xs
unfolding contains
All-NotIn_nil [] = tt
All-NotIn_nil (x ∷ xs) = (refl, All-NotIn_nil xs)

-- The loop finds every element new exactly when the list has no repetition.
pub all_new_iff : (xs : List ℕ) → (all_new [] xs ≡ true) ↔ Distinct xs
all_new_iff xs =
    (λ h. ((all_new-Distinct [] xs).0 h).0, λ d. (all_new-Distinct [] xs).1 (d, All-NotIn_nil xs))

-- The numbers of the keys, in their order.
module _ {A V : Type 0} ⦃k : Key A⦄ where
  abbrev pub keys_of : List (A × V) → List ℕ
  keys_of [] = []
  keys_of ((b, v) ∷ m) = k.key b ∷ keys_of m

  -- A write to a key that is there keeps the keys.
  pub keys_of-insert :
      (a : A) (v w : V) (m : List (A × V))
      → lookup a m ≡ some w
      → keys_of (insert a v m) ≡ keys_of m
  unfolding lookup insert
  keys_of-insert a v w [] h = cc
  keys_of-insert a v w ((b, x) ∷ m) h = ground (arith, keys_of-insert a v w m)

  pub lookup-contains :
      (a : A) (m : List (A × V))
      → contains (k.key a) (keys_of m) ≡ true
      → (v : V) × (lookup a m ≡ some v)
  unfolding lookup contains
  lookup-contains a [] h = cc
  lookup-contains a ((b, x) ∷ m) h = elim (Bool-cases (k.key b == k.key a)) [
    | inl same ↦ (x, rw same)
    | inr other ↦ let (v, e) = lookup-contains a m (rw other at h) in (v, rw other e)
  ]

  absent : (a : A) (m : List (A × V)) → All (λ y. k.key a ≢ y) (keys_of m) → lookup a m ≡ none
  unfolding lookup
  absent a [] h = refl
  absent a ((b, x) ∷ m) h = ground (arith, absent a m)

  deeper :
      (a b : A) (x v : V) (m : List (A × V))
      → All (λ y. k.key b ≢ y) (keys_of m)
      → lookup a m ≡ some v
      → lookup a ((b, x) ∷ m) ≡ some v
  unfolding lookup
  deeper a b x v m d e = elim (Bool-cases (k.key b == k.key a)) [
    | inl same ↦
        let z : b ≡ a = k.key_inj b a (ground arith) in
        let d' : All (λ y. k.key a ≢ y) (keys_of m) =
          subst (λ c. All (λ y. k.key c ≢ y) (keys_of m)) z d in
        absurd (clash (absent a m d'))
    | inr other ↦ rw other e
  ]
    where
      clash : lookup a m ≡ none → ⊥
      clash q = cc

  first : (b : A) (x : V) (m : List (A × V)) → lookup b ((b, x) ∷ m) ≡ some x
  unfolding lookup
  first b x m = ground arith

  -- With distinct keys, what holds of every value that is looked up holds of every entry.
  pub All-entries :
      (P : V → Type 0) (m : List (A × V))
      → Distinct (keys_of m)
      → ((a : A) (v : V) → lookup a m ≡ some v → P v)
      → All (λ e. P e.1) m
  All-entries P [] d h = tt
  All-entries P ((b, x) ∷ m) (d, ds) h =
      (h b x (first b x m), All-entries P m ds (λ a v e. h a v (deeper a b x v m d e)))

  -- And the other way round.
  pub lookup-all_values :
      (p : V → Bool) (m : List (A × V)) (a : A) (v : V)
      → all_values p m ≡ true
      → lookup a m ≡ some v
      → p v ≡ true
  unfolding lookup all_values
  lookup-all_values p [] a v h e = cc
  lookup-all_values p ((b, x) ∷ m) a v h e = ground (arith, lookup-all_values p m a v)

-- ===== src/Runtime/Execution/Laws/Entries.antt =====
-- The evidence that a run begins with: one entry for each board of the program, in the order of the
-- addresses, and none of them a failure.
use catseq.Prelude.{
  Bool, false, ℕ, ◌≡◌, ◌≢◌, refl, false, List, [], ◌∷◌, ◌==◌, Bool-cases, inl, inr, ap, sym,
}
use catseq.Prelude.Map.{lookup, keys_of, Distinct, contains}
use catseq.Runtime.Contract.{board_keys}
use catseq.Prelude.{All, All-map, ◌<◌, ltb, true, ◌||◌, ◌∙◌, arith}
use catseq.Runtime.Address.{OasmAddress, address_key, address_keys}
use catseq.Runtime.Contract.{AssembledOasmBoard, AssembledOasmProgram}
use catseq.Runtime.Execution.Outcome.{Evidence}
use catseq.Runtime.Execution.Run.{initial_evidence, enter_board, evidence_of}
use catseq.Runtime.Execution.Laws.Consistent.{is_failure}
use catseq.Runtime.Execution.Laws.Sending.{IsFresh}

-- A list of keys in ascending order, without repetition.
abbrev pub IsStrict : List ℕ → Type 0
IsStrict [] = Unit
IsStrict (k ∷ ks) = All (λ l. k < l) ks × IsStrict ks

pub IsStrict-Distinct : (ks : List ℕ) → IsStrict ks → Distinct ks
IsStrict-Distinct [] h = tt
IsStrict-Distinct (k ∷ ks) (below, h) =
    (All-map (λ l p. ground arith) ks below, IsStrict-Distinct ks h)

below-All : (j k : ℕ) (ks : List ℕ) → j < k → All (λ l. k < l) ks → All (λ l. j < l) ks
below-All j k ks h below = All-map (λ l p. omega arith) ks below

keys-enter_board-All :
    (P : ℕ → Type 0) (a : OasmAddress) (m : Evidence)
    → P (address_key a)
    → All P (keys_of m)
    → All P (keys_of (enter_board a m))
keys-enter_board-All P a [] p h = (p, tt)
keys-enter_board-All P a ((b, x) ∷ m) p (q, h) =
    elim (Bool-cases (address_key a == address_key b)) [
      | inl same ↦ rw same (q, h)
      | inr other ↦ elim (Bool-cases (ltb (address_key a) (address_key b))) [
        | inl before ↦ rw (other, before) (p, (q, h))
        | inr behind ↦ rw (other, behind) (q, keys-enter_board-All P a m p h)
      ]
    ]

enter_board-IsStrict :
    (a : OasmAddress) (m : Evidence) → IsStrict (keys_of m) → IsStrict (keys_of (enter_board a m))
enter_board-IsStrict a [] h = (tt, tt)
enter_board-IsStrict a ((b, x) ∷ m) (below, h) =
    elim (Bool-cases (address_key a == address_key b)) [
      | inl same ↦ rw same (below, h)
      | inr other ↦ elim (Bool-cases (ltb (address_key a) (address_key b))) [
        | inl before ↦
            let less : address_key a < address_key b = ground arith in
            rw (other, before)
              ((less, below-All (address_key a) (address_key b) (keys_of m) less below), (below, h))
        | inr behind ↦
            let more : address_key b < address_key a = ground arith in
            rw (other, behind)
              (
                keys-enter_board-All (λ l. address_key b < l) a m more below,
                enter_board-IsStrict a m h,
              )
      ]
    ]

enter_board-contains :
    (a : OasmAddress) (m : Evidence) (k : ℕ)
    → contains k (keys_of (enter_board a m)) ≡ ((address_key a == k) || contains k (keys_of m))
unfolding contains
enter_board-contains a [] k = refl
enter_board-contains a ((b, x) ∷ m) k = elim (Bool-cases (address_key a == address_key b)) [
  | inl same ↦ rw same (absorbed (address_key a) (address_key b) same)
  | inr other ↦ elim (Bool-cases (ltb (address_key a) (address_key b))) [
    | inl before ↦ rw (other, before) refl
    | inr behind ↦
        rw (other, behind)
          (ap (λ c. (address_key b == k) || c) (enter_board-contains a m k)
            ∙ swapped (address_key b == k) (address_key a == k) (contains k (keys_of m)))
  ]
]
  where
    swapped : (p q r : Bool) → (p || (q || r)) ≡ (q || (p || r))
    swapped p q r = ground arith

    absorbed :
        (i j : ℕ)
        → (i == j) ≡ true
        → ((j == k) || contains k (keys_of m)) ≡ ((i == k) || ((j == k) || contains k (keys_of m)))
    absorbed i j h = ground arith

pub evidence_of-IsStrict :
    (boards : List AssembledOasmBoard) → IsStrict (keys_of (evidence_of boards))
evidence_of-IsStrict [] = tt
evidence_of-IsStrict (board ∷ boards) =
    enter_board-IsStrict board.address (evidence_of boards) (evidence_of-IsStrict boards)

pub evidence_of-contains :
    (boards : List AssembledOasmBoard) (k : ℕ)
    → contains k (keys_of (evidence_of boards)) ≡ contains k (board_keys boards)
unfolding contains
evidence_of-contains [] k = refl
evidence_of-contains (board ∷ boards) k =
    enter_board-contains board.address (evidence_of boards) k
    ∙ ap (λ c. (address_key board.address == k) || c) (evidence_of-contains boards k)

none_entered :
    (a b : OasmAddress) (m : Evidence)
    → is_failure (lookup b m) ≡ false
    → is_failure (lookup b (enter_board a m)) ≡ false
unfolding lookup
none_entered a b [] h = elim (Bool-cases (address_key a == address_key b)) [
  | inl own ↦ rw own refl
  | inr other ↦ rw other refl
]
none_entered a b ((c, x) ∷ m) h = elim (Bool-cases (address_key a == address_key c)) [
  | inl same ↦ rw same (elim (Bool-cases (address_key c == address_key b)) [
    | inl asked ↦ rw asked refl
    | inr other ↦ rw other (rw other at h)
  ])
  | inr apart ↦ elim (Bool-cases (ltb (address_key a) (address_key c))) [
    | inl before ↦
        rw (apart, before)
          (elim (Bool-cases (address_key a == address_key b)) [
            | inl asked ↦ rw asked refl
            | inr other ↦ rw other h
          ])
    | inr behind ↦
        rw (apart, behind)
          (elim (Bool-cases (address_key c == address_key b)) [
            | inl asked ↦ rw asked (rw asked at h)
            | inr other ↦ rw other (none_entered a b m (rw other at h))
          ])
  ]
]

none_failed :
    (boards : List AssembledOasmBoard) (b : OasmAddress)
    → is_failure (lookup b (evidence_of boards)) ≡ false
unfolding lookup
none_failed [] b = refl
none_failed (board ∷ rest) b = none_entered board.address b (evidence_of rest) (none_failed rest b)

pub initial-IsFresh :
    (program : AssembledOasmProgram)
    → IsFresh (keys_of (initial_evidence program)) (initial_evidence program)
unfolding lookup
initial-IsFresh program = record {
  same_keys = refl;
  reported = λ b. sym (none_failed program.boards b);
}

pub own_keys :
    (boards : List AssembledOasmBoard)
    → All (λ board. contains (address_key board.address) (board_keys boards) ≡ true) boards
unfolding contains
own_keys [] = tt
own_keys (board ∷ rest) = (
  own (address_key board.address) (board_keys rest),
  All-map (λ b h. weaker (address_key board.address) (address_key b.address) (board_keys rest) h)
      rest (own_keys rest),
)
  where
    own : (k : ℕ) (ks : List ℕ) → ((k == k) || contains k ks) ≡ true
    own k ks = ground arith

    weaker : (j k : ℕ) (ks : List ℕ) → contains k ks ≡ true → ((j == k) || contains k ks) ≡ true
    weaker j k ks h = ground arith

pub not_empty : (boards : List AssembledOasmBoard) → boards ≢ [] → keys_of (evidence_of boards) ≢ []
not_empty [] h e = h refl
not_empty (board ∷ boards) h e = nonempty board.address (evidence_of boards) e
  where
    nonempty : (a : OasmAddress) (m : Evidence) → keys_of (enter_board a m) ≢ []
    nonempty a [] q = cc
    nonempty a ((b, x) ∷ m) q = ground arith

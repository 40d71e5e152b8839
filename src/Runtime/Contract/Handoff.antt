-- ===== src/Runtime/Contract/Handoff.antt =====
-- The check of an assembled program against the physical configuration, and the derived MAC.
use catseq.Prelude.{
  ℕ, ◌+◌, ◌^◌, ◌≤◌, ◌<◌, ◌≡◌, ◌⊎◌, inl, inr, refl, arith, true, false, ◌==◌, Option, none, some,
  List, [], ◌∷◌, All, ok, err, length, Bool-cases, sym, ◌∙◌, ltb, some_inj, drop,
}
use catseq.Prelude.Map.{contains}
use catseq.Runtime.Bytes.{of_be_bytes, be_bytes, IsByte}
use catseq.Runtime.Address.{
  OasmAddress, address_key, RuntimeContractErrorCode, topology_mismatch, capacity_overflow,
  mac_overflow,
}
use catseq.Runtime.Contract.{
  AssembledOasmBoard, AssembledOasmProgram, BoardEndpoint, LinuxRawEthernetRuntimeConfig,
  find_endpoint, all_contained, check_capacities, validate_runtime_handoff, board_keys,
  endpoint_keys, derive_destination_mac,
}

-- The first endpoint of the board's address has room for the board's program.
abbrev pub Served : List BoardEndpoint → AssembledOasmBoard → Type 0
Served endpoints board =
    (e : BoardEndpoint) × (find_endpoint board.address endpoints ≡ some e)
    × (length board.ich_words ≤ e.instruction_capacity_words)

abbrev Used : List ℕ → ℕ → Type 0
Used keys k = contains k keys ≡ true

-- Every board is served, and every endpoint belongs to a board.
pub record HandoffIsValid (p : AssembledOasmProgram) (c : LinuxRawEthernetRuntimeConfig)
    : Type 0 where
  pub served : All (Served c.boards) p.boards
  pub used : All (λ k. contains k (board_keys p.boards) ≡ true) (endpoint_keys c.boards)

find-contains :
    (a : OasmAddress) (endpoints : List BoardEndpoint)
    → (contains (address_key a) (endpoint_keys endpoints) ≡ true
        × (e : BoardEndpoint) × (find_endpoint a endpoints ≡ some e))
      ⊎ ((contains (address_key a) (endpoint_keys endpoints) ≡ false)
          × (find_endpoint a endpoints ≡ none))
unfolding contains find_endpoint
find-contains a [] = inr (refl, refl)
find-contains a (e ∷ rest) = elim (Bool-cases (address_key e.address == address_key a)) [
  | inl same ↦ inl (rw same, e, rw same)
  | inr other ↦ elim (find-contains a rest) [
    | inl (c, f, found) ↦ inl (rw (other, c), f, rw (other, found))
    | inr (c, missing) ↦ inr (rw (other, c), rw (other, missing))
  ]
]

contained-All :
    (xs ys : List ℕ)
    → ((all_contained xs ys ≡ true) × All (Used ys) xs)
      ⊎ ((all_contained xs ys ≡ false) × ¬ All (Used ys) xs)
unfolding all_contained
contained-All [] ys = inl (refl, tt)
contained-All (x ∷ xs) ys = elim (Bool-cases (contains x ys)) [
  | inl c ↦ elim (contained-All xs ys) [
    | inl (e, a) ↦ inl (rw (c, e), (c, a))
    | inr (e, n) ↦ inr (rw (c, e), λ h. n h.1)
  ]
  | inr c ↦ inr (rw c, λ h. cc (h.0))
]

Served-Used :
    (boards : List AssembledOasmBoard) (endpoints : List BoardEndpoint)
    → All (Served endpoints) boards
    → All (Used (endpoint_keys endpoints)) (board_keys boards)
Served-Used [] endpoints s = tt
Served-Used (b ∷ bs) endpoints ((e, found, fits), s) = elim (find-contains b.address endpoints) [
  | inl (c, f, g) ↦ (c, Served-Used bs endpoints s)
  | inr (c, missing) ↦ absurd (none_some (sym missing ∙ found))
]
  where
    none_some : ◌≡◌ {A = Option BoardEndpoint} none (some e) → ⊥
    none_some q = cc

capacities_cases :
    (boards : List AssembledOasmBoard) (endpoints : List BoardEndpoint)
    → All (Used (endpoint_keys endpoints)) (board_keys boards)
    → ((check_capacities boards endpoints ≡ some (ok tt)) × All (Served endpoints) boards)
      ⊎ ((check_capacities boards endpoints ≡ some (err capacity_overflow))
          × ¬ All (Served endpoints) boards)
unfolding check_capacities
capacities_cases [] endpoints u = inl (refl, tt)
capacities_cases (b ∷ bs) endpoints (u, us) = elim (find-contains b.address endpoints) [
  | inr (c, _) ↦ absurd (clash c)
  | inl (_, e, found) ↦ elim (Bool-cases (ltb e.instruction_capacity_words (length b.ich_words))) [
    | inl big ↦ inr (ground arith, λ h. absurd (too_big e found big h.0))
    | inr fits ↦ elim (capacities_cases bs endpoints us) [
      | inl (r, a) ↦ inl (ground arith, ((e, found, ground arith), a))
      | inr (r, n) ↦ inr (ground arith, λ h. n h.1)
    ]
  ]
]
  where
    clash : contains (address_key b.address) (endpoint_keys endpoints) ≡ false → ⊥
    clash c = cc

    too_big :
        (e : BoardEndpoint)
        → find_endpoint b.address endpoints ≡ some e
        → ltb e.instruction_capacity_words (length b.ich_words) ≡ true
        → Served endpoints b
        → ⊥
    too_big e found big (f, found', fits) =
        let same : e ≡ f = some_inj (sym found ∙ found') in ground arith

-- The check never reaches the `expect` on a missing endpoint. It passes exactly when each board's
-- endpoint exists and has room for the board's program and each endpoint belongs to a board, and
-- else it is refused.
pub handoff_cases :
    (p : AssembledOasmProgram) (c : LinuxRawEthernetRuntimeConfig)
    → ((validate_runtime_handoff p c ≡ some (ok tt)) × HandoffIsValid p c)
      ⊎ ((code : RuntimeContractErrorCode) × (validate_runtime_handoff p c ≡ some (err code))
          × ¬ HandoffIsValid p c)
unfolding validate_runtime_handoff
handoff_cases p c = elim (contained-All (board_keys p.boards) (endpoint_keys c.boards)) [
  | inr (e, n) ↦ inr (topology_mismatch, rw e, λ v. n (Served-Used p.boards c.boards v.served))
  | inl (e, a) ↦ elim (contained-All (endpoint_keys c.boards) (board_keys p.boards)) [
    | inr (f, m) ↦ inr (topology_mismatch, rw (e, f), λ v. m v.used)
    | inl (f, b) ↦ elim (capacities_cases p.boards c.boards a) [
      | inl (r, s) ↦ inl (rw (e, f, r), record { served = s; used = b })
      | inr (r, s) ↦ inr (capacity_overflow, rw (e, f, r), λ v. s v.served)
    ]
  ]
]

-- For a source address of six bytes: the destination is six bytes, the source plus two as a 48-bit
-- number, or it is refused because that number does not fit.
pub derive_destination_mac_cases :
    (source : List ℕ)
    → length source ≡ 6
    → All IsByte source
    → ((destination : List ℕ) × (derive_destination_mac source ≡ ok destination)
        × (length destination ≡ 6)
        × All IsByte destination
        × (of_be_bytes destination ≡ of_be_bytes source + 2))
      ⊎ ((derive_destination_mac source ≡ err mac_overflow) × (2 ^ 48 ≤ of_be_bytes source + 2))
unfolding derive_destination_mac
derive_destination_mac_cases (a ∷ (b ∷ (c ∷ (d ∷ (e ∷ (f ∷ [])))))) n h =
    let source = a ∷ b ∷ c ∷ d ∷ e ∷ f ∷ [] in
    let x = of_be_bytes (0 ∷ 0 ∷ source) + 2 in
    elim (Bool-cases (ltb 0xffff_ffff_ffff x)) [
      | inl big ↦ inr (rw big, ground arith)
      | inr fits ↦
          let bound : x < 2 ^ 48 = ground arith in
          inl (drop 2 (be_bytes 8 x), rw fits, refl, omega arith, omega arith)
    ]
derive_destination_mac_cases _ n h = absurd (omega arith)

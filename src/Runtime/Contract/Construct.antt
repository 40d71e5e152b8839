-- ===== src/Runtime/Contract/Construct.antt =====
-- What the constructors accept.
use Prim.Native.String.{String}
use text.Mathlib.Text.{◌==◌ as str_eq}
use catseq.Prelude.{
  ℕ, ◌≤◌, ◌≡◌, ◌≢◌, ◌↔◌, refl, arith, true, false, Option, List, [], ◌∷◌, map, ok, ok_inj, >>-ok,
  sym, ◌∙◌,
}
use catseq.Prelude.Map.{Distinct, all_new, all_new_iff}
use catseq.Runtime.Address.{address_key}
use catseq.Runtime.Contract.{
  AssembledOasmBoard, AssembledOasmProgram, BoardEndpoint, LinuxRawEthernetRuntimeConfig,
  new_program, new_config, check_endpoints, board_keys, endpoint_keys, validate_schema_version,
}

-- What `AssembledOasmProgram::new` asks of its arguments.
pub record ProgramIsValid (schema channel : ℕ) (boards : List AssembledOasmBoard) : Type 0 where
  pub schema_known : schema ≡ 1
  pub reply_fits : channel ≤ 31
  pub inhabited : boards ≢ []
  pub distinct : Distinct (board_keys boards)

-- What `LinuxRawEthernetRuntimeConfig::new` asks of its arguments.
pub record ConfigIsValid (schema : ℕ) (interface : String) (timeout : ℕ)
    (boards : List BoardEndpoint) : Type 0 where
  pub schema_known : schema ≡ 1
  pub named : str_eq interface "" ≡ false
  pub waits : timeout ≢ 0
  pub distinct_addresses : Distinct (endpoint_keys boards)
  pub distinct_nodes : Distinct (map (λ b. b.node) boards)

module _ (schema node channel : ℕ) where
  abbrev pub program_of : List AssembledOasmBoard → AssembledOasmProgram
  program_of boards = record {
    schema_version = schema;
    reply_node = node;
    reply_channel = channel;
    boards = boards;
  }

  program_ok :
      (boards : List AssembledOasmBoard)
      → ProgramIsValid schema channel boards
      → new_program schema node channel boards ≡ ok (program_of boards)
  unfolding new_program
  program_ok [] v = absurd (v.inhabited refl)
  program_ok (b ∷ bs) v = ground (arith, (all_new_iff (board_keys (b ∷ bs))).1 v.distinct)

  program_valid :
      (boards : List AssembledOasmBoard) (p : AssembledOasmProgram)
      → new_program schema node channel boards ≡ ok p
      → ProgramIsValid schema channel boards
  unfolding new_program
  program_valid [] p h = absurd (ground arith)
  program_valid (b ∷ bs) p h =
      let new : all_new [] (board_keys (b ∷ bs)) ≡ true = ground arith in
      record {
        schema_known = ground arith;
        reply_fits = ground arith;
        inhabited = λ e. cc;
        distinct = (all_new_iff (board_keys (b ∷ bs))).0 new;
      }

  -- The program constructor succeeds exactly when the schema version is 1, the reply channel fits
  -- five bits, there is a board, and no two boards have one address; it then returns the record of
  -- its arguments.
  pub new_program_iff :
      (boards : List AssembledOasmBoard) (p : AssembledOasmProgram)
      → (new_program schema node channel boards ≡ ok p)
        ↔ (ProgramIsValid schema channel boards × (p ≡ program_of boards))
  new_program_iff boards p = (
    λ h. let v = program_valid boards p h in (v, ok_inj (sym h ∙ program_ok boards v)),
    λ h. rw h.1 (program_ok boards h.0),
  )

check_endpoints-all_new :
    (addresses nodes : List ℕ) (boards : List BoardEndpoint)
    → (check_endpoints addresses nodes boards ≡ ok tt) ↔ (
        (all_new addresses (endpoint_keys boards) ≡ true)
        × (all_new nodes (map (λ b. b.node) boards) ≡ true))
unfolding check_endpoints all_new
check_endpoints-all_new addresses nodes [] = (λ h. (refl, refl), λ h. refl)
check_endpoints-all_new addresses nodes (b ∷ bs) =
    let ih = check_endpoints-all_new (address_key b.address ∷ addresses) (b.node ∷ nodes) bs in
    (λ h. ground (arith, ih.0), λ h. ground (arith, ih.1))

module _ (schema : ℕ) (interface : String) (mac : Option (List ℕ)) (timeout : ℕ)
    (boards : List BoardEndpoint) where
  abbrev pub config_of : LinuxRawEthernetRuntimeConfig
  config_of = record {
    schema_version = schema;
    interface = interface;
    destination_mac = mac;
    timeout_ms = timeout;
    boards = boards;
  }

  config_ok :
      ConfigIsValid schema interface timeout boards
      → new_config schema interface mac timeout boards ≡ ok config_of
  unfolding new_config
  config_ok v = ground (
    arith,
    (check_endpoints-all_new [] [] boards).1
        ((all_new_iff _).1 v.distinct_addresses, (all_new_iff _).1 v.distinct_nodes),
  )

  checked :
      (check_endpoints [] [] boards ≡ ok tt)
      → Distinct (endpoint_keys boards) × Distinct (map (λ b. b.node) boards)
  checked h =
      let (a, n) = (check_endpoints-all_new [] [] boards).0 h in
      ((all_new_iff _).0 a, (all_new_iff _).0 n)

  endpoints_checked :
      (c : LinuxRawEthernetRuntimeConfig)
      → new_config schema interface mac timeout boards ≡ ok c
      → check_endpoints [] [] boards ≡ ok tt
  unfolding new_config
  endpoints_checked c h =
      (>>-ok _ _ (>>-ok _ _ (>>-ok _ _ (>>-ok (validate_schema_version schema) _ h).1).1).1).0

  config_valid :
      (c : LinuxRawEthernetRuntimeConfig)
      → new_config schema interface mac timeout boards ≡ ok c
      → ConfigIsValid schema interface timeout boards
  unfolding new_config
  config_valid c h =
      let fine = checked (endpoints_checked c h) in
      record {
        schema_known = ground arith;
        named = ground arith;
        waits = ground arith;
        distinct_addresses = fine.0;
        distinct_nodes = fine.1;
      }

  -- The configuration constructor succeeds exactly when the schema version is 1, the interface is
  -- not empty, the timeout is not zero, and no two endpoints share an address or a node; it then
  -- returns the record of its arguments.
  pub new_config_iff :
      (c : LinuxRawEthernetRuntimeConfig)
      → (new_config schema interface mac timeout boards ≡ ok c)
        ↔ (ConfigIsValid schema interface timeout boards × (c ≡ config_of))
  new_config_iff c = (
    λ h. let v = config_valid c h in (v, ok_inj (sym h ∙ config_ok v)),
    λ h. rw h.1 (config_ok h.0),
  )

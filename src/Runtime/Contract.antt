-- ===== src/Runtime/Contract.antt =====
-- rust/catseq-runtime/src/model.rs: the assembled program, the physical configuration and the
-- checks between them. Text of messages is left out; a MAC address is its list of six bytes.
pub mod Construct
pub mod Handoff
use Prim.Native.String.{String}
use text.Mathlib.Text.{◌==◌ as str_eq}
use package.catseq.Prelude.{
  ℕ, ◌+◌, ltb, leb, ◌==◌, if◌then◌else◌, not, Bool, true, false, ◌&&◌, length, Option, none, some,
  List, [], ◌∷◌, ◌++◌, map, Result, ok, err, ◌>>=◌, ◌>>◌, fail_if, drop,
}
use package.catseq.Prelude.Map.{all_new, contains}
use package.catseq.Runtime.Bytes.{be_bytes, of_be_bytes}
use package.catseq.Runtime.Address.{
  OasmAddress, address_key, RuntimeContractErrorCode, unsupported_schema_version, empty_program,
  duplicate_board_address, duplicate_physical_node, invalid_channel, exception_handler_out_of_range,
  empty_interface, zero_timeout, topology_mismatch, capacity_overflow, mac_overflow,
}

abbrev pub runtime_schema_version : ℕ
runtime_schema_version = 1

abbrev pub rtlink_channel_max : ℕ
rtlink_channel_max = 31

abbrev pub mac_address_max : ℕ
mac_address_max = 0xffff_ffff_ffff

abbrev pub Checked : Type 0 → Type 0
Checked A = Result RuntimeContractErrorCode A

pub record AssembledOasmBoard : Type 0 where
  pub address : OasmAddress
  pub ich_words : List ℕ
  pub exception_handler_word : ℕ

unfoldable pub new_board : OasmAddress → List ℕ → ℕ → Checked AssembledOasmBoard
new_board address ich_words exception_handler_word = do
  fail_if (leb (length ich_words) exception_handler_word) exception_handler_out_of_range
  ok (record {
    address = address;
    ich_words = ich_words;
    exception_handler_word = exception_handler_word;
  })

pub record AssembledOasmProgram : Type 0 where
  pub schema_version : ℕ
  pub reply_node : ℕ
  pub reply_channel : ℕ
  pub boards : List AssembledOasmBoard

unfoldable pub validate_schema_version : ℕ → Checked (Unit {0})
validate_schema_version schema_version =
    fail_if (not (schema_version == runtime_schema_version)) unsupported_schema_version

unfoldable pub validate_channel : ℕ → Checked (Unit {0})
validate_channel channel = fail_if (ltb rtlink_channel_max channel) invalid_channel

abbrev pub board_keys : List AssembledOasmBoard → List ℕ
board_keys boards = map (λ b. address_key b.address) boards

abbrev is_empty {ℓ} : {A : Type ℓ} → List A → Bool
is_empty [] = true
is_empty (x ∷ xs) = false

unfoldable pub new_program : ℕ → ℕ → ℕ → List AssembledOasmBoard → Checked AssembledOasmProgram
unfolding validate_schema_version validate_channel
new_program schema_version reply_node reply_channel boards = do
  validate_schema_version schema_version
  validate_channel reply_channel
  fail_if (is_empty boards) empty_program
  fail_if (not (all_new [] (board_keys boards))) duplicate_board_address
  ok (record {
    schema_version = schema_version;
    reply_node = reply_node;
    reply_channel = reply_channel;
    boards = boards;
  })

pub record BoardEndpoint : Type 0 where
  pub address : OasmAddress
  pub node : ℕ
  pub channel : ℕ
  pub instruction_capacity_words : ℕ

unfoldable pub new_endpoint : OasmAddress → ℕ → ℕ → ℕ → Checked BoardEndpoint
unfolding validate_channel
new_endpoint address node channel instruction_capacity_words = do
  validate_channel channel
  ok (record {
    address = address;
    node = node;
    channel = channel;
    instruction_capacity_words = instruction_capacity_words;
  })

pub record LinuxRawEthernetRuntimeConfig : Type 0 where
  pub schema_version : ℕ
  pub interface : String
  pub destination_mac : Option (List ℕ)
  pub timeout_ms : ℕ
  pub boards : List BoardEndpoint

-- The loop over the endpoints, with the addresses and the nodes seen so far.
unfoldable pub check_endpoints : List ℕ → List ℕ → List BoardEndpoint → Checked (Unit {0})
unfolding contains
check_endpoints addresses nodes [] = ok tt
check_endpoints addresses nodes (endpoint ∷ rest) =
    fail_if (contains (address_key endpoint.address) addresses) duplicate_board_address
    >> (fail_if (contains endpoint.node nodes) duplicate_physical_node
        >> check_endpoints (address_key endpoint.address ∷ addresses) (endpoint.node ∷ nodes) rest)

unfoldable pub new_config :
    ℕ → String → Option (List ℕ) → ℕ → List BoardEndpoint → Checked LinuxRawEthernetRuntimeConfig
unfolding validate_schema_version check_endpoints
new_config schema_version interface destination_mac timeout_ms boards = do
  validate_schema_version schema_version
  fail_if (str_eq interface "") empty_interface
  fail_if (timeout_ms == 0) zero_timeout
  check_endpoints [] [] boards
  ok (record {
    schema_version = schema_version;
    interface = interface;
    destination_mac = destination_mac;
    timeout_ms = timeout_ms;
    boards = boards;
  })

unfoldable pub find_endpoint : OasmAddress → List BoardEndpoint → Option BoardEndpoint
find_endpoint address [] = none
find_endpoint address (endpoint ∷ rest) =
    if address_key endpoint.address == address_key address
    then some endpoint
    else find_endpoint address rest

-- Equality of the two address sets: each lies in the other.
unfoldable pub all_contained : List ℕ → List ℕ → Bool
unfolding contains
all_contained [] ys = true
all_contained (x ∷ xs) ys = contains x ys && all_contained xs ys

abbrev pub endpoint_keys : List BoardEndpoint → List ℕ
endpoint_keys boards = map (λ b. address_key b.address) boards

-- `panic` in the source's `expect` on a missing endpoint is `none` here.
unfoldable pub check_capacities :
    List AssembledOasmBoard → List BoardEndpoint → Option (Checked (Unit {0}))
unfolding find_endpoint
check_capacities [] endpoints = some (ok tt)
check_capacities (board ∷ rest) endpoints =
    let later = check_capacities rest endpoints in
    elim (find_endpoint board.address endpoints) [
      | none ↦ none
      | some endpoint ↦
          if ltb endpoint.instruction_capacity_words (length board.ich_words)
          then some (err capacity_overflow)
          else later
    ]

unfoldable pub validate_runtime_handoff :
    AssembledOasmProgram → LinuxRawEthernetRuntimeConfig → Option (Checked (Unit {0}))
validate_runtime_handoff program config =
    let program_addresses = board_keys program.boards in
    let configured_addresses = endpoint_keys config.boards in
    if all_contained program_addresses configured_addresses
      && all_contained configured_addresses program_addresses
    then check_capacities program.boards config.boards
    else some (err topology_mismatch)

unfoldable pub derive_destination_mac : List ℕ → Checked (List ℕ)
derive_destination_mac source_mac =
    let destination = of_be_bytes (0 ∷ 0 ∷ source_mac) + 2 in
    if ltb mac_address_max destination
    then err mac_overflow
    else ok (drop 2 (be_bytes 8 destination))

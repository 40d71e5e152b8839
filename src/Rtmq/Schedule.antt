-- ===== src/Rtmq/Schedule.antt =====
-- rust/catseq-rtmq/src/oasm_call_plan/model.rs and abi_cost.rs: the events of a board, the calls they
-- become and what a call costs. A JSON value is of a type of its own, a parameter; a float is the 64
-- bits that stand for it. The text of errors is left out.
pub mod Coalesce
pub mod Preload
pub mod Board
pub mod Loops
use catseq.Prelude.{
  ℕ, suc, zero, ◌+◌, ◌-◌, ◌/◌, ◌%◌, ◌^◌, min, max, ◌==◌, ltb, Bool, true, false, ◌&&◌, ◌||◌,
  if◌then◌else◌, Option, none, some, List, [], ◌∷◌, Result, ok, err, ◌>>=◌, fail_if,
}
use catseq.Prelude.Int.{ℤ, pos, negsuc}
use catseq.Prelude.Sort.{key_leb}
use Prim.Native.String.{String}

pub data OasmFunction : Type 0 where
  loop_begin loop_end ttl_config ttl_set wait rwg_init rwg_set_carrier rwg_rf_switch : OasmFunction
  rwg_load_waveform rwg_play wait_master trig_slave rsp_init rsp_set_carrier : OasmFunction
  rsp_pid_config rsp_pid_start rsp_pid_hold rsp_pid_release rsp_pid_relink : OasmFunction
  rsp_rf_config user_defined_func : OasmFunction

pub data OasmArgument (Json : Type 0) : Type 0 where
  unsigned : ℕ → OasmArgument Json
  signed : ℤ → OasmArgument Json
  float : ℕ → OasmArgument Json
  bool : Bool → OasmArgument Json
  text : String → OasmArgument Json
  json : Json → OasmArgument Json

pub data TargetBoardKind : Type 0 where
  main rwg rsp : TargetBoardKind

abbrev pub oasm_argument : TargetBoardKind → String
oasm_argument main = "main"
oasm_argument rwg = "rwg"
oasm_argument rsp = "rsp"

pub record EventOrder : Type 0 where
  pub channel_kind : ℕ
  pub local_id : ℕ
  pub sequence : ℕ

-- `EventOrder::BOARD`.
abbrev pub board_order : EventOrder
board_order = record { channel_kind = 0; local_id = 0; sequence = 0 }

-- The derived order is that of the fields.
abbrev pub order_key : EventOrder → List ℕ
order_key o = o.channel_kind ∷ o.local_id ∷ o.sequence ∷ []

abbrev pub max_order : EventOrder → EventOrder → EventOrder
max_order a b = if key_leb (order_key a) (order_key b) then b else a

abbrev pub min_order : EventOrder → EventOrder → EventOrder
min_order a b = if key_leb (order_key a) (order_key b) then a else b

pub record TtlEvent : Type 0 where
  pub epoch : ℕ
  pub offset_cycles : ℕ
  pub board : String
  pub local_id : ℕ
  pub high : Bool
  pub instruction_cost_cycles : ℕ
  pub order : EventOrder
  pub loop_scope : Option ℕ

pub record DirectEvent (Json : Type 0) : Type 0 where
  pub epoch : ℕ
  pub offset_cycles : ℕ
  pub board : String
  pub function : OasmFunction
  pub args : List (OasmArgument Json)
  pub instruction_cost_cycles : ℕ
  pub order : EventOrder
  pub group_id : ℕ
  pub preload : Bool
  pub loop_scope : Option ℕ

pub record LoopRegion : Type 0 where
  pub epoch : ℕ
  pub start : ℕ
  pub body_duration : ℕ
  pub count : ℕ
  pub marker_group_id : ℕ

pub record BoardEpochInput (Json : Type 0) : Type 0 where
  pub epoch : ℕ
  pub origin_cycles : ℕ
  pub address : String
  pub board_kind : TargetBoardKind
  pub duration_cycles : ℕ
  pub initial_cursor : ℕ
  pub ttl_events : List TtlEvent
  pub direct_events : List (DirectEvent Json)

pub record OasmCall (Json : Type 0) : Type 0 where
  pub offset_cycles : ℕ
  pub function : OasmFunction
  pub args : List (OasmArgument Json)

pub record OasmBoardPlan (Json : Type 0) : Type 0 where
  pub address : String
  pub calls : List (OasmCall Json)

-- `index_panic` stands for the panic of an index into the events.
pub data OasmCompileError : Type 0 where
  wrong_ttl_epoch early_ttl_event wrong_direct_epoch early_direct_event : OasmCompileError
  cursor_overflow preload_cost_overflow carrier_frequency rejected_waveform : OasmCompileError
  coalesced_arity coalesced_argument index_panic : OasmCompileError
  loop_end_overflow loop_boundary_overflow loop_cursor_overflow loop_delta_overflow :
      OasmCompileError
  loop_marker_overflow post_loop_overflow post_loop_ttl_overflow origin_overflow : OasmCompileError
  program_delta_overflow : OasmCompileError

-- The place of a function among the variants, for the derived equality.
abbrev pub function_index : OasmFunction → ℕ
function_index loop_begin = 0
function_index loop_end = 1
function_index ttl_config = 2
function_index ttl_set = 3
function_index wait = 4
function_index rwg_init = 5
function_index rwg_set_carrier = 6
function_index rwg_rf_switch = 7
function_index rwg_load_waveform = 8
function_index rwg_play = 9
function_index wait_master = 10
function_index trig_slave = 11
function_index rsp_init = 12
function_index rsp_set_carrier = 13
function_index rsp_pid_config = 14
function_index rsp_pid_start = 15
function_index rsp_pid_hold = 16
function_index rsp_pid_release = 17
function_index rsp_pid_relink = 18
function_index rsp_rf_config = 19
function_index user_defined_func = 20

abbrev pub is_rwg_play : OasmFunction → Bool
is_rwg_play rwg_play = true
is_rwg_play _ = false

-- `checked_add` and `saturating_add` on `u64`.
abbrev pub checked_add : ℕ → ℕ → OasmCompileError → Result OasmCompileError ℕ
checked_add a b e = if ltb (a + b) (2 ^ 64) then ok (a + b) else err e

abbrev pub saturating_add : ℕ → ℕ → ℕ
saturating_add a b = min (a + b) (2 ^ 64 - 1)

unfoldable pub fixed_oasm_call_cost : OasmFunction → Option ℕ
fixed_oasm_call_cost loop_begin = some 0
fixed_oasm_call_cost loop_end = some 0
fixed_oasm_call_cost user_defined_func = some 0
fixed_oasm_call_cost ttl_config = some 2
fixed_oasm_call_cost ttl_set = some 1
fixed_oasm_call_cost rwg_init = some 53
fixed_oasm_call_cost rwg_set_carrier = none
fixed_oasm_call_cost rwg_rf_switch = none
fixed_oasm_call_cost rwg_load_waveform = none
fixed_oasm_call_cost rwg_play = some 15
fixed_oasm_call_cost wait_master = some 8
fixed_oasm_call_cost trig_slave = some 17
fixed_oasm_call_cost rsp_init = some 11
fixed_oasm_call_cost rsp_set_carrier = some 37
fixed_oasm_call_cost rsp_pid_config = some 39
fixed_oasm_call_cost rsp_pid_start = some 3
fixed_oasm_call_cost rsp_pid_hold = some 2
fixed_oasm_call_cost rsp_pid_release = some 15
fixed_oasm_call_cost rsp_pid_relink = some 15
fixed_oasm_call_cost rsp_rf_config = some 13
fixed_oasm_call_cost wait = some 0

-- `count_ones` of the low bits of a number.
unfoldable pub count_ones : ℕ → ℕ → ℕ
count_ones zero n = 0
count_ones (suc bits) n = n % 2 + count_ones bits (n / 2)

-- 250.0 as its bits; 0.0 is 0 and -0.0 is 2 ^ 63.
abbrev pub carrier_cost_of_bits : ℕ → ℕ
carrier_cost_of_bits bits =
    if (bits == 0) || (bits == 2 ^ 63) then 16 else if bits == 4643000109586448384 then 17 else 18

-- A cast to a float is 0.0 or 250.0 exactly for these two numbers.
abbrev pub carrier_cost_of_number : ℕ → ℕ
carrier_cost_of_number n = if n == 0 then 16 else if n == 250 then 17 else 18

-- The cost of a waveform is a parameter: it is read from JSON and computed with floats.
module _ {Json : Type 0}
    (rwg_load_waveform_cost : DirectEvent Json → Result OasmCompileError ℕ) where
  abbrev pub second_argument_cost : List (OasmArgument Json) → Result OasmCompileError ℕ
  second_argument_cost (a ∷ float bits ∷ rest) = ok (carrier_cost_of_bits bits)
  second_argument_cost (a ∷ unsigned n ∷ rest) = ok (carrier_cost_of_number n)
  second_argument_cost (a ∷ signed (pos n) ∷ rest) = ok (carrier_cost_of_number n)
  second_argument_cost (a ∷ signed (negsuc n) ∷ rest) = ok 18
  second_argument_cost _ = err carrier_frequency

  unfoldable pub rwg_set_carrier_cost : DirectEvent Json → Result OasmCompileError ℕ
  rwg_set_carrier_cost event = second_argument_cost event.args

  abbrev pub rf_switch_cost : List (OasmArgument Json) → ℕ
  rf_switch_cost (unsigned mask ∷ rest) = count_ones 64 mask
  rf_switch_cost _ = 1

  abbrev pub variable_cost : OasmFunction → DirectEvent Json → Result OasmCompileError ℕ
  variable_cost rwg_set_carrier event = rwg_set_carrier_cost event
  variable_cost rwg_rf_switch event = ok (rf_switch_cost event.args)
  variable_cost _ event = rwg_load_waveform_cost event

  unfoldable pub oasm_call_cost : DirectEvent Json → Result OasmCompileError ℕ
  oasm_call_cost event = elim (fixed_oasm_call_cost event.function) [
    | some cost ↦ ok cost
    | none ↦ variable_cost event.function event
  ]

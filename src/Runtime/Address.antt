-- ===== src/Runtime/Address.antt =====
-- rust/catseq-runtime/src/model.rs: the logical board addresses, their spelling, and the codes of
-- the contract errors.
use Prim.Native.String.{String}
use text.Mathlib.Text.{◌==◌ as str_eq}
use text.Mathlib.TextEquality.{eq_iff}
use catseq.Prelude.{
  ℕ, ◌≡◌, ◌↔◌, refl, if◌then◌else◌, List, [], ◌∷◌, Option, none, some, Result, ok, ok_or, sym, ◌∙◌,
  ap, some_inj, Bool-cases, inl, inr, get_elem?, ok_or-ok,
}
use catseq.Prelude.Map.{Key}

pub data RuntimeContractErrorCode : Type 0 where
  unsupported_schema_version unknown_board_address empty_program : RuntimeContractErrorCode
  duplicate_board_address duplicate_physical_node invalid_channel : RuntimeContractErrorCode
  exception_handler_out_of_range empty_interface zero_timeout : RuntimeContractErrorCode
  topology_mismatch capacity_overflow mac_overflow : RuntimeContractErrorCode

pub data OasmAddress : Type 0 where
  main rwg0 rwg1 rwg2 rwg3 rwg4 rwg5 rsp6 rsp7 rwg8 rwg9 rsp10 rsp11 : OasmAddress

abbrev pub all_addresses : List OasmAddress
all_addresses =
    main ∷ rwg0 ∷ rwg1 ∷ rwg2 ∷ rwg3 ∷ rwg4 ∷ rwg5 ∷ rsp6 ∷ rsp7 ∷ rwg8 ∷ rwg9 ∷ rsp10 ∷ rsp11 ∷ []

unfoldable pub as_str : OasmAddress → String
as_str main = "main"
as_str rwg0 = "rwg0"
as_str rwg1 = "rwg1"
as_str rwg2 = "rwg2"
as_str rwg3 = "rwg3"
as_str rwg4 = "rwg4"
as_str rwg5 = "rwg5"
as_str rsp6 = "rsp6"
as_str rsp7 = "rsp7"
as_str rwg8 = "rwg8"
as_str rwg9 = "rwg9"
as_str rsp10 = "rsp10"
as_str rsp11 = "rsp11"

-- `Iterator::find` by spelling.
unfoldable pub find_spelling : List OasmAddress → String → Option OasmAddress
unfolding as_str
find_spelling [] value = none
find_spelling (address ∷ rest) value =
    if str_eq (as_str address) value then some address else find_spelling rest value

unfoldable pub from_str : String → Result RuntimeContractErrorCode OasmAddress
unfolding find_spelling
from_str value = ok_or (find_spelling all_addresses value) unknown_board_address

-- The discriminants, by which the derived order and equality compare.
abbrev pub address_key : OasmAddress → ℕ
address_key main = 0
address_key rwg0 = 1
address_key rwg1 = 2
address_key rwg2 = 3
address_key rwg3 = 4
address_key rwg4 = 5
address_key rwg5 = 6
address_key rsp6 = 7
address_key rsp7 = 8
address_key rwg8 = 9
address_key rwg9 = 10
address_key rsp10 = 11
address_key rsp11 = 12

keyed : (a : OasmAddress) → get_elem? all_addresses (address_key a) ≡ some a
keyed main = refl
keyed _ = refl

pub address_key_inj : (a b : OasmAddress) → address_key a ≡ address_key b → a ≡ b
address_key_inj a b h = some_inj (sym (keyed a) ∙ ap (get_elem? all_addresses) h ∙ keyed b)

instance abbrev pub address_keys : Key OasmAddress
address_keys = record { key = address_key; key_inj = address_key_inj }

find_spelling-as_str :
    (addresses : List OasmAddress) (value : String) (a : OasmAddress)
    → find_spelling addresses value ≡ some a
    → as_str a ≡ value
unfolding find_spelling
find_spelling-as_str [] value a h = cc
find_spelling-as_str (b ∷ rest) value a h = elim (Bool-cases (str_eq (as_str b) value)) [
  | inl same ↦
      let e : b ≡ a = some_inj (rw same at h) in
      ap as_str (sym e) ∙ (eq_iff (as_str b) value).0 same
  | inr other ↦ find_spelling-as_str rest value a (rw other at h)
]

from_str-as_str : (a : OasmAddress) → from_str (as_str a) ≡ ok a
unfolding from_str as_str
from_str-as_str main = refl
from_str-as_str _ = refl

from_str_ok : (value : String) (a : OasmAddress) → from_str value ≡ ok a → as_str a ≡ value
unfolding from_str
from_str_ok value a h = find_spelling-as_str all_addresses value a (ok_or-ok _ _ h)

-- A text is parsed as an address exactly when it is the spelling of that address.
pub from_str_iff : (value : String) (a : OasmAddress) → (from_str value ≡ ok a) ↔ (as_str a ≡ value)
from_str_iff value a = (from_str_ok value a, λ h. rw (← h) (from_str-as_str a))

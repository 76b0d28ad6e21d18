-- ===== src/Prelude/Thrown.antt =====
-- JavaScript exceptions as values: each `throw` of the tasks is a constructor of `Error`.
use Prim.Native.Nat.{ℕ}
use Prim.Native.String.{String}
use mathlib.Core.Path.{◌≡◌, refl}
use mathlib.Core.Bool.{Bool, true, false}
use mathlib.Core.Option.{Option, none, some}
use mathlib.Core.List.{List}

pub data Error : Type 0 where
  -- A property of `undefined` is read.
  type_error : Error
  invalid_environment invalid_local_network : String → Error
  invalid_orderly_eid : ℕ → Error
  invalid_contract_name : Error
  not_an_orderly_network unsupported_payload_type invalid_payload_type : Error
  -- Refusals of the number and byte libraries.
  invalid_number value_out_of_range : Error
  invalid_peer_address_length : Error
  not_retrieved log_undefined : Error
  not_a_multisig not_one_required_signer : Error
  signer_not_found : List ℕ → Error
  claim_data_not_found : Error
  -- Of the tasks of the OFT; `call_failed` is a call of an SDK that throws.
  custom_token_program minting_with_mint too_few_local_decimals only_oft_store_expected : Error
  account_not_found no_lookup_table no_compute_units private_key_missing call_failed : Error
  no_mint_authority no_freeze_authority : Error

-- What a function of the tasks answers: it throws, or it returns.
pub data Result {κ} (Value : Type κ) : Type κ where
  throw : Error → Result Value
  ok : Value → Result Value

abbrev pub is_ok {κ} : {Value : Type κ} → Result Value → Bool
is_ok (throw error) = false
is_ok (ok value) = true

-- The value, or the error where it is missing.
abbrev pub or_throw {κ} : {Value : Type κ} → Error → Option Value → Result Value
or_throw error (some value) = ok value
or_throw error none = throw error

-- `if (!test) throw error`
abbrev pub require : Bool → Error → Result (Unit {0})
require false error = throw error
require true _ = ok tt

infixl 5 ◌>>=◌
abbrev pub ◌>>=◌ {κ μ} :
    {Value : Type κ} {Next : Type μ} → Result Value → (Value → Result Next) → Result Next
throw error >>= _ = throw error
ok value >>= rest = rest value

infixl 5 ◌>>◌
abbrev pub ◌>>◌ {κ} : {Next : Type κ} → Result (Unit {0}) → Result Next → Result Next
first >> second = first >>= λ _. second

-- Inversion of a bind that succeeded.
pub >>=-eq-ok {κ μ} :
    {Value : Type κ} {Next : Type μ} (first : Result Value) (rest : Value → Result Next)
    {last : Next}
    → first >>= rest ≡ ok last
    → (value : Value) × (first ≡ ok value) × (rest value ≡ ok last)
>>=-eq-ok (throw error) rest e = cc
>>=-eq-ok (ok value) rest e = (value, refl, e)

-- ===== src/Script/Payload.antt =====
-- `PayloadType` of tasks/proxy/constants.ts, `checkPayloadType` and `checkPayload` of
-- tasks/proxy/utils.ts, and the two steps with which the tasks `sol:proxy:quote` and
-- `sol:proxy:request` of tasks/proxy/setProxy.ts prepare a payload.
pub mod Acceptance
mod Tests
use solana_proxy.Prelude.{
  ℕ, Bool, true, false, List, [], ◌∷◌, String, Result, ok, throw, ◌>>=◌, unsupported_payload_type,
  invalid_payload_type, ◌==◌, if◌then◌else◌,
}
use solana_proxy.Bytes.{Bytes}
use solana_proxy.Script.Amounts.{BigNumbers, convert_into_bytes32, order_decimals_on_ethereum}
use solana_proxy.Script.Number.{Number, nan, nat, codes, same_codes, number_of, lower_case}

pub data PayloadType : Type 0 where
  claim_reward stake create_order_unstake_request cancel_order_unstake_request : PayloadType
  withdraw_order es_order_unstake_and_vest cancel_vesting_request : PayloadType
  cancel_all_vesting_requests claim_vesting_request redeem_valor claim_usdc_revenue : PayloadType
  claim_reward_backward withdraw_order_backward claim_vesting_request_backward : PayloadType
  claim_usdc_revenue_backward unstake_order_now claim_reward_solana : PayloadType

-- The value of the enumeration's member.
abbrev pub payload_code : PayloadType → ℕ
payload_code claim_reward = 0
payload_code stake = 1
payload_code create_order_unstake_request = 2
payload_code cancel_order_unstake_request = 3
payload_code withdraw_order = 4
payload_code es_order_unstake_and_vest = 5
payload_code cancel_vesting_request = 6
payload_code cancel_all_vesting_requests = 7
payload_code claim_vesting_request = 8
payload_code redeem_valor = 9
payload_code claim_usdc_revenue = 10
payload_code claim_reward_backward = 11
payload_code withdraw_order_backward = 12
payload_code claim_vesting_request_backward = 13
payload_code claim_usdc_revenue_backward = 14
payload_code unstake_order_now = 15
payload_code claim_reward_solana = 16

-- The argument of `checkPayloadType`, a number or a text.
pub data Input : Type 0 where
  number : Number → Input
  text : String → Input

record Case : Type 0 where
  value : ℕ
  name : String
  result : PayloadType

-- The cases of the `switch`: two labels and what is returned.
abbrev cases : List Case
cases =
    record { value = 1; name = "stake"; result = stake }
    ∷ record {
      value = 2;
      name = "createorderunstakerequest";
      result = create_order_unstake_request;
    }
    ∷ record {
      value = 3;
      name = "cancelorderunstakerequest";
      result = cancel_order_unstake_request;
    }
    ∷ record { value = 4; name = "withdraworder"; result = withdraw_order }
    ∷ record { value = 5; name = "esorderunstakeandvest"; result = es_order_unstake_and_vest }
    ∷ record { value = 6; name = "cancelvestingrequest"; result = cancel_vesting_request }
    ∷ record { value = 8; name = "claimvestingrequest"; result = claim_vesting_request }
    ∷ record { value = 9; name = "redeemvalor"; result = redeem_valor }
    ∷ record { value = 10; name = "claimusdcrevenue"; result = claim_usdc_revenue }
    ∷ record { value = 15; name = "unstakeordernow"; result = unstake_order_now }
    ∷ []

switch : (Case → Bool) → List Case → Result PayloadType
switch test [] = throw unsupported_payload_type
switch test (c ∷ cs) = if test c then ok c.result else switch test cs

switch_number : Number → Result PayloadType
unfolding switch
switch_number (nat n) = switch (λ c. n == c.value) cases
switch_number _ = throw unsupported_payload_type

switch_text : List ℕ → Result PayloadType
unfolding switch
switch_text s = switch (λ c. same_codes s (codes c.name)) cases

-- A text that reads as a number is switched on as that number.
switch_converted : String → Number → Result PayloadType
unfolding switch_text switch_number
switch_converted s nan = switch_text (lower_case (codes s))
switch_converted s n = switch_number n

unfoldable pub check_payload_type : Input → Result PayloadType
unfolding switch_number switch_converted
check_payload_type (number n) = switch_number n
check_payload_type (text s) = switch_converted s (number_of s)

-- The first test of `checkPayload`: payloads that are an amount of ORDER.
unfoldable pub is_order_amount : PayloadType → Bool
is_order_amount create_order_unstake_request = true
is_order_amount cancel_order_unstake_request = true
is_order_amount withdraw_order = true
is_order_amount es_order_unstake_and_vest = true
is_order_amount unstake_order_now = true
is_order_amount _ = false

-- The second test: payloads that are a number as it stands.
unfoldable pub is_plain_number : PayloadType → Bool
is_plain_number cancel_vesting_request = true
is_plain_number cancel_all_vesting_requests = true
is_plain_number claim_vesting_request = true
is_plain_number redeem_valor = true
is_plain_number claim_usdc_revenue = true
is_plain_number _ = false

module _ (n : BigNumbers) where
  unfoldable pub check_payload : PayloadType → String → Result Bytes
  check_payload t payload =
      if is_order_amount t
      then convert_into_bytes32 n payload order_decimals_on_ethereum
      else if is_plain_number t
      then convert_into_bytes32 n payload "1"
      else throw invalid_payload_type

  -- The steps before the fee is quoted.
  unfoldable pub prepare_request : Input → String → Result (PayloadType × Bytes)
  prepare_request payload_type payload = do
    t ← check_payload_type payload_type
    encoded ← check_payload t payload
    ok (t, encoded)

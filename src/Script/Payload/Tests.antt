-- ===== src/Script/Payload/Tests.antt =====
-- Runs of the payload checks, and their theorems at concrete inputs.
use solana_proxy.Prelude.{
  ℕ, ◌*◌, ◌^◌, ◌≡◌, refl, ok, throw, unsupported_payload_type, length, arith,
}
use solana_proxy.Bytes.{be_bytes}
use solana_proxy.Script.Number.{nat, number_of, lower_case}
use solana_proxy.Script.Amounts.{convert_into_bytes32, scaled_amount, decimal}
use solana_proxy.Script.Amounts.Exact.{integers, integers-IsExact}
use solana_proxy.Script.Payload.{
  withdraw_order, number, text, check_payload_type, switch_converted, prepare_request,
  check_payload, is_order_amount,
}
use solana_proxy.Script.Payload.Acceptance.{
  OnChain, unit_of, prepare_request-OnChain, prepare_request_complete,
}
use solana_proxy.Program.Payload.{payload_from_u8, check_request_payload_type}

numbers_read : number_of " 15 " ≡ nat 15
unfolding number_of
numbers_read = refl

check_text : check_payload_type (text "WithdrawOrder") ≡ ok withdraw_order
unfolding check_payload_type switch_converted number_of lower_case
check_text = refl

check_digits : check_payload_type (text "4") ≡ ok withdraw_order
unfolding check_payload_type switch_converted number_of
check_digits = refl

check_unknown : check_payload_type (text "7") ≡ throw unsupported_payload_type
unfolding check_payload_type switch_converted number_of
check_unknown = refl

prepared_withdrawal :
    prepare_request integers (text "WithdrawOrder") "3"
    ≡ ok (withdraw_order, be_bytes 32 (3 * 10 ^ 18))
unfolding prepare_request check_payload is_order_amount convert_into_bytes32 scaled_amount decimal
prepared_withdrawal = rw check_text

prepare_request-OnChain_example :
    OnChain withdraw_order
    × (length (be_bytes 32 (3 * 10 ^ 18)) ≡ 32)
    × ((v : ℕ) × (be_bytes 32 (3 * 10 ^ 18) ≡ be_bytes 32 v))
prepare_request-OnChain_example =
    prepare_request-OnChain integers integers-IsExact (text "WithdrawOrder") "3" prepared_withdrawal

prepare_request_complete_example :
    prepare_request integers (number (nat 4)) "3"
    ≡ ok (withdraw_order, be_bytes 32 (3 * unit_of withdraw_order))
unfolding decimal payload_from_u8 check_request_payload_type
prepare_request_complete_example =
    prepare_request_complete integers integers-IsExact withdraw_order "3" 3 refl refl (omega arith)

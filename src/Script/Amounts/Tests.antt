-- ===== src/Script/Amounts/Tests.antt =====
-- The amount helpers at concrete inputs.
use solana_proxy.Prelude.{
  ◌*◌, ◌^◌, ◌≡◌, refl, ok, throw, value_out_of_range, pos, ltb, if◌then◌else◌,
}
use solana_proxy.Bytes.{be_bytes}
use solana_proxy.Script.Amounts.{
  decimal, convert_into_bytes32, get_order_amount_in_big_int, scaled_amount,
}
use solana_proxy.Script.Amounts.Exact.{integers, integers-IsExact}
use solana_proxy.Script.Amounts.Laws.{convert_into_bytes32_lem}

convert_into_bytes32_lem_example : convert_into_bytes32 integers "25" "100000000" ≡ (
    if ltb (25 * 10 ^ 8) (256 ^ 32)
    then ok (be_bytes 32 (25 * 10 ^ 8))
    else throw value_out_of_range)
unfolding decimal
convert_into_bytes32_lem_example =
    convert_into_bytes32_lem integers integers-IsExact "25" "100000000" 25 (10 ^ 8) refl refl

seven : get_order_amount_in_big_int integers "7" ≡ ok (pos 70_000_000_000)
unfolding get_order_amount_in_big_int scaled_amount decimal
seven = refl

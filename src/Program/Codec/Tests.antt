-- ===== src/Program/Codec/Tests.antt =====
-- The codec at concrete messages.
use solana_proxy.Prelude.{◌≡◌, ◌+◌, ◌%◌, ◌^◌, refl, some, none, replicate, arith}
use solana_proxy.Bytes.{be_bytes}
use solana_proxy.Program.Payload.{usdc, claim_usdc_revenue_backward, token_code, payload_code}
use solana_proxy.Program.Codec.{
  slice, slice_from, VaultMessage, encode_vault_message, decode_vault_message,
  encode_ledger_message, decode_ledger_message, get_usdc_amount,
}
use solana_proxy.Program.Codec.Laws.{
  decode-encode_vault_message, decode-encode_ledger_message, get_usdc_amount-be_bytes,
}

abbrev request : VaultMessage
request = record { token = 3; sender = replicate 32 7; payload_type = 10; payload = be_bytes 32 1 }

short_message : decode_vault_message (replicate 33 0) ≡ none
unfolding decode_vault_message slice slice_from
short_message = refl

decode-encode_vault_message_example :
    decode_vault_message (encode_vault_message request) ≡ some request
decode-encode_vault_message_example =
    decode-encode_vault_message request (omega arith) refl (omega arith)

decode-encode_ledger_message_example :
    decode_ledger_message (
      encode_ledger_message
        (token_code usdc)
        (replicate 32 9)
        (payload_code claim_usdc_revenue_backward)
        (be_bytes 32 5))
    ≡ some (record {
      token = usdc;
      receiver = replicate 32 9;
      payload_type = claim_usdc_revenue_backward;
      payload = be_bytes 32 5;
    })
decode-encode_ledger_message_example =
    decode-encode_ledger_message usdc (replicate 32 9) claim_usdc_revenue_backward (be_bytes 32 5)
      refl

get_usdc_amount-be_bytes_example :
    get_usdc_amount (be_bytes 32 (2 ^ 64 + 5)) ≡ (2 ^ 64 + 5) % 2 ^ 64
get_usdc_amount-be_bytes_example = get_usdc_amount-be_bytes (2 ^ 64 + 5)

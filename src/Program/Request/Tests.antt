-- ===== src/Program/Request/Tests.antt =====
-- The request instructions at a concrete endpoint: it quotes 100 and returns what it was sent.
use solana_proxy.Prelude.{◌≡◌, ◌<◌, refl, true, false, [], ◌∷◌, if◌then◌else◌, ltb, replicate}
use solana_proxy.Program.Outcome.{done, failed, ◌>>=◌, ◌>>◌, insufficient_messaging_fee}
use solana_proxy.Program.Payload.{
  TokenType, token_code, payload_from_u8, check_request_payload_type, request_token_type,
  check_claim_payload_type,
}
use solana_proxy.Program.Request.{
  Accounts, RequestParams, Invoked, MessagingFee, SendParams, quote_backward_fee, send_backward_fee,
  quote_params, send_params, quote_request, send_request, pay_backward_fee, ClaimData, quote_claim,
  send_claim,
}
use solana_proxy.Program.Request.Claims.{quote_claim-send_claim, claim_quoted}
use solana_proxy.Program.Request.Laws.{
  quote_request-send_request, sent_as_quoted, send_request-guards,
}

abbrev cpi : Invoked
cpi = record {
  Receipt = SendParams;
  quote = λ params. done (record { native_fee = 100; lz_token_fee = 0 });
  send = λ params. done params;
  transfer = λ amount. done tt;
}

abbrev accounts : Accounts
accounts = record {
  user = replicate 32 7;
  proxy_config = replicate 32 8;
  paused = false;
  orderly_eid = 40200;
  peer_address = replicate 32 9;
  enforced_options = record { send = 0 ∷ 3 ∷ []; send_and_call = [] };
  backward_fee = record { order_backward_fee = 11; usdc_backward_fee = 12 };
}

abbrev request : RequestParams
request = record { payload_type = 10; payload = [] }

abbrev fee : MessagingFee
fee = record { native_fee = 112; lz_token_fee = 0 }

quote_request-send_request_example :
    (endpoint_fee : MessagingFee) × (cpi.quote
        (quote_params accounts (token_code TokenType.placeholder) 10 [])
      ≡ done endpoint_fee)
    × (send_request cpi accounts request fee ≡ (
        if ltb 0 endpoint_fee.native_fee
        then (cpi.send (
              sent_as_quoted cpi
                (quote_params accounts (token_code TokenType.placeholder) 10 [])
                endpoint_fee.native_fee)
            >>= λ receipt.
                pay_backward_fee cpi (quote_backward_fee 10 accounts.backward_fee) >> done receipt)
        else failed insufficient_messaging_fee))
unfolding quote_request quote_backward_fee payload_from_u8 check_request_payload_type
quote_request-send_request_example = quote_request-send_request cpi accounts request fee refl

send_request-guards_example :
    (accounts.paused ≡ false)
    × (check_request_payload_type (payload_from_u8 10) ≡ true)
    × (send_backward_fee (payload_from_u8 10) accounts.backward_fee < 112)
unfolding send_request send_backward_fee payload_from_u8 check_request_payload_type pay_backward_fee
send_request-guards_example =
    send_request-guards cpi accounts request fee
      (send_params accounts (token_code (request_token_type (payload_from_u8 10))) 10 [] 100) refl

abbrev claim : ClaimData
claim = record { distribution_id = replicate 32 0; amount = replicate 32 1; root = replicate 32 2 }

quote_claim-send_claim_example :
    (q : MessagingFee) × (cpi.quote (claim_quoted cpi accounts claim) ≡ done q)
    × (send_claim cpi accounts claim (record { native_fee = 111; lz_token_fee = 0 }) ≡ (
        pay_backward_fee cpi 11
        >> (if ltb 0 q.native_fee
            then cpi.send (sent_as_quoted cpi (claim_quoted cpi accounts claim) q.native_fee)
            else failed insufficient_messaging_fee)))
unfolding quote_claim check_claim_payload_type
quote_claim-send_claim_example =
    quote_claim-send_claim cpi accounts claim (record { native_fee = 111; lz_token_fee = 0 }) refl

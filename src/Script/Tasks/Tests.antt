-- ===== src/Script/Tasks/Tests.antt =====
-- A withdrawal and a claim in staging, on a network that counts what is sent.
use solana_proxy.Prelude.{
  ℕ, ◌+◌, ◌≡◌, refl, true, false, Bool, some, [], ok, throw, claim_data_not_found,
}
use solana_proxy.Bytes.{Bytes}
use solana_proxy.Script.Number.{number_of, lower_case}
use solana_proxy.Script.Constants.Lz.{EndpointIds}
use solana_proxy.Script.Environment.{
  check_env, get_proxy_accounts, get_orderly_eid, get_ledger_oapp_address,
}
use solana_proxy.Script.Keys.Sample.{sample_keys}
use solana_proxy.Script.Pda.Sample.{sample_seeds}
use solana_proxy.Script.Pda.{write_uint32_be}
use solana_proxy.Script.Pda.Proxy.{get_peer_pda}
use solana_proxy.Script.Amounts.{convert_into_bytes32, scaled_amount, decimal}
use solana_proxy.Script.Amounts.Exact.{integers}
use solana_proxy.Script.Payload.{
  PayloadType, text, prepare_request, check_payload_type, check_payload, is_order_amount,
  claim_reward_solana,
}
use solana_proxy.Script.Client.{
  MsgFee, Prepared, call_quote_request, call_send_request, call_quote_claim, call_send_claim,
  claim_accounts, prepare_params_and_accounts, quote_fee, send_request, quote_claim_fee,
  send_claim_request,
}
use solana_proxy.Script.Tasks.{Network, get_proxy_program, request, claim, fetch_claim_data}
use solana_proxy.Script.Tasks.Laws.{request-eq-ok, claim-eq-ok}

abbrev ids : EndpointIds
ids = record {
  solana_v2_testnet = 40168;
  solana_v2_mainnet = 30168;
  orderly_v2_testnet = 40200;
  orderly_v2_mainnet = 30213;
}

abbrev network : Bool → Network sample_keys sample_seeds ids integers
network claims = record {
  World = ℕ;
  wallet = 4;
  has_claim_data = λ pda w. claims;
  view = λ call w. some (record { lz_token_fee = 0; native_fee = 11 });
  create_and_send = λ call w. (true, w + 1);
}

run_request :
    request sample_keys sample_seeds ids integers
      (network true)
      "staging"
      (text "WithdrawOrder")
      "3"
      0
    ≡ (ok tt, 1)
unfolding request check_env get_proxy_program get_proxy_accounts prepare_request check_payload_type
    check_payload number_of lower_case is_order_amount convert_into_bytes32 scaled_amount decimal
    quote_fee prepare_params_and_accounts get_peer_pda get_orderly_eid get_ledger_oapp_address
    send_request
run_request = refl

run_claim : claim sample_keys sample_seeds ids integers (network true) "staging" 0 ≡ (ok tt, 1)
unfolding claim check_env get_proxy_program get_proxy_accounts fetch_claim_data quote_claim_fee
    send_claim_request prepare_params_and_accounts get_peer_pda write_uint32_be get_orderly_eid
    get_ledger_oapp_address
run_claim = refl

run_claim_without_data :
    claim sample_keys sample_seeds ids integers (network false) "staging" 0
    ≡ (throw claim_data_not_found, 0)
unfolding claim check_env get_proxy_program get_proxy_accounts fetch_claim_data
run_claim_without_data = refl

request-eq-ok_example :
    (program_id : ℕ) × (t : PayloadType) × (encoded : Bytes) × (p : Prepared sample_keys
      sample_seeds ids)
    × (fee : MsgFee) × (get_proxy_program sample_keys sample_seeds ids integers
          (network true)
          "staging"
        ≡ ok program_id)
    × (prepare_request integers (text "WithdrawOrder") "3" ≡ ok (t, encoded))
    × (prepare_params_and_accounts sample_keys sample_seeds ids program_id 4 t encoded "staging"
        ≡ ok p)
    × ((network true).view (call_quote_request p.params p.accounts p.path) 0 ≡ some fee)
    × ((network true).create_and_send (call_send_request p.params fee p.accounts p.path) 0
        ≡ (true, 1))
request-eq-ok_example =
    request-eq-ok sample_keys sample_seeds ids integers (network true) "staging"
      (text "WithdrawOrder") "3" 0 1 run_request

claim-eq-ok_example :
    (program_id : ℕ) × (p : Prepared sample_keys sample_seeds ids) × (fee : MsgFee)
    × (get_proxy_program sample_keys sample_seeds ids integers (network true) "staging"
        ≡ ok program_id)
    × (true ≡ true)
    × (prepare_params_and_accounts sample_keys sample_seeds ids program_id 4 claim_reward_solana []
          "staging"
        ≡ ok p)
    × ((network true).view
          (call_quote_claim
            (claim_accounts sample_keys sample_seeds ids program_id 4 p.accounts)
            p.path)
          0
        ≡ some fee)
    × ((network true).create_and_send
          (call_send_claim fee
            (claim_accounts sample_keys sample_seeds ids program_id 4 p.accounts)
            p.path)
          0
        ≡ (true, 1))
claim-eq-ok_example =
    claim-eq-ok sample_keys sample_seeds ids integers (network true) "staging" 0 1 run_claim

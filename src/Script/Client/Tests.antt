-- ===== src/Script/Client/Tests.antt =====
-- The client on staging, at sample keys.
use solana_proxy.Prelude.{◌≡◌, refl, String, [], ◌∷◌, ok, arith}
use solana_proxy.Script.Constants.Lz.{EndpointIds}
use solana_proxy.Script.Environment.{get_orderly_eid, get_ledger_oapp_address}
use solana_proxy.Script.Keys.Sample.{sample_keys}
use solana_proxy.Script.Pda.Sample.{sample_seeds}
use solana_proxy.Script.Payload.{claim_usdc_revenue}
use solana_proxy.Script.Client.{prepare_params_and_accounts, Prepared}
use solana_proxy.Script.Client.Laws.{prepare_params_and_accounts-AreDemanded, AreDemanded}

abbrev ids : EndpointIds
ids = record {
  solana_v2_testnet = 40168;
  solana_v2_mainnet = 30168;
  orderly_v2_testnet = 40200;
  orderly_v2_mainnet = 30213;
}

abbrev receiver : String
receiver = "0xF2BC568E4bD0F7437C77FA982F4b51786086872a"

prepare_params_and_accounts-AreDemanded_example :
    (p : Prepared sample_keys sample_seeds ids) × (prepare_params_and_accounts sample_keys
        sample_seeds ids 3 4 claim_usdc_revenue
        (1 ∷ [])
        "staging"
      ≡ ok p)
    × AreDemanded sample_keys sample_seeds ids 3 40200 p.accounts
    × (p.accounts.user ≡ 4)
    × (p.params ≡ record { payload_type = 10; payload = 1 ∷ [] })
    × (p.path.dst_eid ≡ 40200)
    × (p.path.receiver ≡ receiver)
unfolding get_orderly_eid get_ledger_oapp_address
prepare_params_and_accounts-AreDemanded_example =
    prepare_params_and_accounts-AreDemanded sample_keys sample_seeds ids 3 4 claim_usdc_revenue
      (1 ∷ []) "staging" receiver refl (omega arith) refl

-- ===== src/Script/Environment/Tests.antt =====
-- The environment tables at concrete names.
use solana_proxy.Prelude.{◌≡◌, refl, none, some, is_ok, false}
use mathlib.Core.Option
use solana_proxy.Script.Constants.Lz.{EndpointIds}
use solana_proxy.Script.Constants.Accounts.{OftAccounts, ProxyAccounts}
use solana_proxy.Script.Environment.{
  check_env, get_oft_accounts, get_proxy_accounts, get_local_lz_config, check_orderly_network,
  deploy_arguments,
}

abbrev ids : EndpointIds
ids = record {
  solana_v2_testnet = 40168;
  solana_v2_mainnet = 30168;
  orderly_v2_testnet = 40200;
  orderly_v2_mainnet = 30213;
}

deploy_on_mainnet :
    is_ok (deploy_arguments ids "orderlymainnet" "mainnet" "LedgerOApp" "0x01") ≡ false
unfolding deploy_arguments check_env check_orderly_network get_local_lz_config
deploy_on_mainnet = refl

-- The qa environment has no OFT store, and staging no multisig.
missing_accounts :
    (Option.map OftAccounts.oft_store (get_oft_accounts "qa") ≡ some none)
    × (Option.map ProxyAccounts.multisig (get_proxy_accounts "staging") ≡ some none)
unfolding get_oft_accounts get_proxy_accounts
missing_accounts = (refl, refl)

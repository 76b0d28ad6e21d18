-- ===== src/Script/Environment.antt =====
-- The functions of tasks/proxy/utils.ts that choose a chain, a network, an account or an option set
-- by the name of the environment, and `task` code that picks a network by hand.
pub mod Laws
mod Tests
use solana_proxy.Prelude.{
  ℕ, Bool, true, false, not, ◌&&◌, ◌||◌, Option, none, some, List, [], ◌∷◌, String, Result, ok,
  throw, ◌>>=◌, ◌>>◌, require, or_throw, Error, type_error, invalid_environment,
  invalid_local_network, not_an_orderly_network, invalid_contract_name, str_eq, if◌then◌else◌,
  lookup, includes,
}
use solana_proxy.Script.Constants.Networks.{
  environments, solana_info, SolanaInfo, LzOptions, options_to_orderly, options_to_solana,
  dev_sol_chain_id, main_sol_chain_id, chain_event_id_placeholder, order_backward_fee,
  usdc_backward_fee,
}
use solana_proxy.Script.Constants.Accounts.{
  ProxyAccounts, OftAccounts, LedgerOappAccounts, proxy_accounts, oft_accounts,
  ledger_oapp_accounts,
}
use solana_proxy.Script.Constants.Lz.{EndpointIds, LzConfig, lz_config}

-- `ENV === constants.ENV[4]`
abbrev is_mainnet : String → Bool
is_mainnet env = str_eq env "mainnet"

unfoldable pub check_env : String → Result (Unit {0})
check_env env = require (includes env environments) (invalid_environment env)

unfoldable pub is_devnet : String → Bool
is_devnet env = not (is_mainnet env)

unfoldable pub get_oft_accounts : String → Option OftAccounts
get_oft_accounts env = lookup env oft_accounts

unfoldable pub get_proxy_accounts : String → Option ProxyAccounts
get_proxy_accounts env = lookup env proxy_accounts

-- `constants.PROXY_ACCOUNTS[ENV].usdcMint`
unfoldable pub get_usdc_mint : String → Result String
get_usdc_mint env = do
  accounts ← or_throw type_error (lookup env proxy_accounts)
  ok (ProxyAccounts.usdc_mint accounts)

unfoldable pub get_ledger_oapp_address : String → Result String
get_ledger_oapp_address env = do
  accounts ← or_throw type_error (lookup env ledger_oapp_accounts)
  ok (LedgerOappAccounts.proxy accounts)

unfoldable pub get_solana_chain_id : String → ℕ
get_solana_chain_id env = if is_mainnet env then main_sol_chain_id else dev_sol_chain_id

unfoldable pub get_sol_chain_id : String → Result ℕ
get_sol_chain_id env = do
  info ← or_throw type_error (lookup env solana_info)
  ok (SolanaInfo.sol_chain_id info)

unfoldable pub get_chain_event_id : ℕ
get_chain_event_id = chain_event_id_placeholder

unfoldable pub get_solana_network : String → String
get_solana_network env = if is_mainnet env then "solana" else "soldev"

unfoldable pub get_orderly_network : String → String
get_orderly_network env = if is_mainnet env then "orderly" else "orderlysepolia"

unfoldable pub check_orderly_network : String → Result (Unit {0})
check_orderly_network network =
    require (str_eq network "orderlysepolia" || str_eq network "orderlymainnet")
      not_an_orderly_network

-- `undefined` where the table has no entry, but `checkENV` comes first.
unfoldable pub get_options : String → String → Result (Option LzOptions)
unfolding check_env
get_options env network = do
  check_env env
  if str_eq network "soldev" || str_eq network "solana"
      then ok (lookup env options_to_solana)
      else if str_eq network "orderlysepolia" || str_eq network "orderly"
      then ok (lookup env options_to_orderly)
      else throw (invalid_local_network network)

-- What the task `sol:proxy:getconfig` passes as the local network.
unfoldable pub getconfig_network : String → String
getconfig_network env = if is_mainnet env then "soldev" else "solana"

module _ (ids : EndpointIds) where
  unfoldable pub get_solana_eid : String → ℕ
  get_solana_eid env = if is_mainnet env then ids.solana_v2_mainnet else ids.solana_v2_testnet

  unfoldable pub get_orderly_eid : String → ℕ
  get_orderly_eid env = if is_mainnet env then ids.orderly_v2_mainnet else ids.orderly_v2_testnet

  -- Each branch reads the entry of its own name.
  unfoldable pub get_local_lz_config : String → Result LzConfig
  get_local_lz_config network =
      if str_eq network "soldev"
        || str_eq network "solana"
        || str_eq network "orderlysepolia"
        || str_eq network "orderly"
      then or_throw type_error (lookup network (lz_config ids))
      else throw (invalid_local_network network)

  -- The arguments of `initialize` that `orderly:deploy` (tasks/proxy/setLedgerOApp.ts) computes; its
  -- `catch` prints what is thrown.
  unfoldable pub deploy_arguments :
      String → String → String → String → Result (Option String × String × ℕ)
  deploy_arguments network env contract owner = do
    check_orderly_network network
    check_env env
    require (str_eq contract "LedgerOApp") invalid_contract_name
    config ← get_local_lz_config network
    ok (LzConfig.endpoint_address config, owner, get_solana_eid env)

-- ===== src/Script/Peer.antt =====
-- orderly:ledgeroapp:setpeer of tasks/proxy/setLedgerOApp.ts: the transactions that it sends, from what
-- the contract answers. The task asks the contract for `solanaEid()`, which contracts/LedgerOApp.sol does
-- not declare; `none` is a contract without it. `hexlify(base58.decode(text))` is a parameter.
pub mod Effect
pub mod Entries
pub mod Laws
mod Tests
use solana_proxy.Prelude.{
  ℕ, String, Bool, not, ◌||◌, Option, List, [], ◌∷◌, ◌++◌, Result, ok, ◌>>=◌, ◌>>◌, or_throw,
  type_error, lookup, str_eq, ◌==◌, if◌then◌else◌,
}
use solana_proxy.Script.Constants.Accounts.{ProxyAccounts}
use solana_proxy.Script.Constants.Networks.{options_to_solana}
use solana_proxy.Script.Environment.{
  check_env, check_orderly_network, get_ledger_oapp_address, get_proxy_accounts,
}
use solana_proxy.Script.Payload.{payload_code, claim_usdc_revenue_backward}
use solana_proxy.Contract.LedgerOapp.{LedgerOapp}

-- The contract, with the peers that its base keeps, as texts.
pub record Remote : Type 0 where
  pub contract : LedgerOapp
  pub solana_eid : Option ℕ
  pub peers : ℕ → String

pub data Transaction : Type 0 where
  set_peer : ℕ → String → Transaction
  set_options : ℕ → ℕ → ℕ → Transaction

abbrev pub claim_type : ℕ
claim_type = payload_code claim_usdc_revenue_backward

-- `if (!isPeer) { … }`
unfoldable pub peer_transactions : ℕ → String → Remote → List Transaction
peer_transactions eid address remote =
    if str_eq (remote.peers eid) address then [] else set_peer eid address ∷ []

-- `if (optionsOnContract[0] != … || optionsOnContract[1] != …) { … }`
unfoldable pub option_transactions : ℕ → ℕ → Remote → List Transaction
option_transactions gas value remote =
    let on_contract = remote.contract.payload_type_to_lz_options claim_type in
    if not (on_contract.gas == gas) || not (on_contract.value == value)
    then set_options claim_type gas value ∷ []
    else []

module _ (hex_of_base58 : String → String) where
  unfoldable pub setpeer_transactions : String → String → Remote → Result (List Transaction)
  setpeer_transactions network env remote = do
    check_orderly_network network
    check_env env
    contract_address ← get_ledger_oapp_address env
    sol_eid ← or_throw type_error remote.solana_eid
    accounts ← or_throw type_error (get_proxy_accounts env)
    options ← or_throw type_error (lookup env options_to_solana)
    ok (
        peer_transactions sol_eid (hex_of_base58 (ProxyAccounts.config_pda accounts)) remote
        ++ option_transactions options.lz_receive_gas options.lz_receive_value remote)

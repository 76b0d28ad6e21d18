-- ===== src/Script/Setup.antt =====
-- The tasks of tasks/proxy/setProxy.ts that configure the proxy, as the instructions of the program
-- that they submit: sol:proxy:init (its first transaction), setpeer, setfee, pause, withdrawfee and
-- admin. The SDK's `addressToBytes32` and option encoder, the numbers of keys that are texts, and the
-- endpoint's address are parameters.
pub mod Effect
pub mod Laws
mod Tests
use solana_proxy.Prelude.{
  ℕ, String, Bool, Option, none, some, List, [], ◌∷◌, ◌++◌, Result, ok, throw, ◌>>=◌, or_throw,
  type_error,
}
use solana_proxy.Bytes.{Bytes}
use solana_proxy.Script.Constants.Accounts.{ProxyAccounts}
use solana_proxy.Script.Constants.Networks.{LzOptions, order_backward_fee, usdc_backward_fee}
use solana_proxy.Script.Constants.Lz.{EndpointIds}
use solana_proxy.Script.Environment.{
  get_usdc_mint, get_ledger_oapp_address, get_orderly_eid, get_solana_chain_id, get_solana_network,
  get_options, get_proxy_accounts,
}
use solana_proxy.Program.Admin.{
  Instruction, InitProxyParams, init_proxy, set_pause, set_delegate, transfer_admin,
  set_backward_fee, set_peer_config, withdraw_fee, peer_address_param, fee_bps_param,
  enforced_options_param,
}
use solana_proxy.Program.Request.{BackwardFee}

-- What the tasks call of the SDKs.
pub record Sdk : Type 0 where
  pub endpoint_ids : EndpointIds
  pub endpoint_program : ℕ
  pub key_of : String → ℕ
  pub address_to_bytes32 : String → Bytes
  -- `getEncodedOptions`: without and with the option for a composed message.
  pub encode_send : LzOptions → Bytes
  pub encode_send_and_call : LzOptions → Bytes

-- `getBackwardFee`
unfoldable pub get_backward_fee : BackwardFee
get_backward_fee = record {
  order_backward_fee = order_backward_fee;
  usdc_backward_fee = usdc_backward_fee;
}

unfoldable pub setfee_instructions : List Instruction
setfee_instructions = set_backward_fee get_backward_fee ∷ []

unfoldable pub pause_instructions : Bool → List Instruction
pause_instructions paused = set_pause paused ∷ []

unfoldable pub withdrawfee_instructions : List Instruction
withdrawfee_instructions = withdraw_fee 1234568 ∷ []

module _ (sdk : Sdk) where
  unfoldable pub init_instructions : String → ℕ → Result (List Instruction)
  init_instructions env wallet = do
    usdc_mint ← get_usdc_mint env
    receiver ← get_ledger_oapp_address env
    ok (
        init_proxy (record {
          endpoint_program = sdk.endpoint_program;
          usdc_token_account = sdk.key_of usdc_mint;
          admin = wallet;
          orderly_eid = get_orderly_eid sdk.endpoint_ids env;
          sol_chain_id = get_solana_chain_id env;
        })
        ∷ [])

  unfoldable pub setpeer_instructions : String → Result (List Instruction)
  setpeer_instructions env =
      let orderly_eid = get_orderly_eid sdk.endpoint_ids env in
      do
        receiver ← get_ledger_oapp_address env
        found ← get_options env (get_solana_network env)
        options ← or_throw type_error found
        ok (
            set_peer_config orderly_eid (peer_address_param (sdk.address_to_bytes32 receiver))
            ∷ set_peer_config orderly_eid (
                enforced_options_param (sdk.encode_send options) (sdk.encode_send_and_call options))
            ∷ set_peer_config orderly_eid (fee_bps_param (some 0))
            ∷ [])

  unfoldable pub admin_instructions : String → Result (List Instruction)
  admin_instructions env = do
    accounts ← or_throw type_error (get_proxy_accounts env)
    multisig ← or_throw type_error (ProxyAccounts.multisig accounts)
    ok (set_delegate (sdk.key_of multisig) ∷ transfer_admin (sdk.key_of multisig) ∷ [])

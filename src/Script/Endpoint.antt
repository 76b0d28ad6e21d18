-- ===== src/Script/Endpoint.antt =====
-- What sol:proxy:init and sol:proxy:setconfig of tasks/proxy/setProxy.ts submit for the LayerZero endpoint, one
-- transaction after the other. The endpoint is a parameter; keys are numbers, as in Setup.
pub mod Laws
mod Tests
use solana_proxy.Prelude.{
  ℕ, String, Bool, true, false, Option, none, some, List, [], ◌∷◌, map, Result, ok, require,
  if◌then◌else◌, call_failed,
}
use solana_proxy.Bytes.{Bytes}
use solana_proxy.Script.Constants.Lz.{LzConfig, UlnConfig}
use solana_proxy.Script.Environment.{
  check_env, get_usdc_mint, get_ledger_oapp_address, get_orderly_eid, get_solana_network,
  get_local_lz_config,
}
use solana_proxy.Program.Admin.{Instruction}
use solana_proxy.Script.Setup.{Sdk, init_instructions}
use solana_proxy.Script.Steps.{Step, ◌>>=◌, ◌>>◌, lift, query, confirmed}

-- The counts are `undefined` where the constants have none.
pub record UlnArgs : Type 0 where
  pub confirmations : Option ℕ
  pub required_dvn_count : Option ℕ
  pub optional_dvn_count : Option ℕ
  pub optional_dvn_threshold : Option ℕ
  pub required_dvns : List ℕ
  pub optional_dvns : List ℕ

-- `configType` 1, 2 and 3
pub data ConfigOf : Type 0 where
  executor : Option ℕ → ℕ → ConfigOf
  send_uln : UlnArgs → ConfigOf
  receive_uln : UlnArgs → ConfigOf

pub data Submitted : Type 0 where
  to_program : List Instruction → Submitted
  init_oapp_nonce : ℕ → Bytes → Submitted
  init_send_library : ℕ → Submitted
  init_receive_library : ℕ → Submitted
  set_send_library : ℕ → ℕ → Submitted
  set_receive_library : ℕ → ℕ → ℕ → Submitted
  init_config : ℕ → Submitted
  set_configs : ℕ → List ConfigOf → Submitted

-- The chain. `false` is a transaction that throws.
pub record Chain : Type 1 where
  pub World : Type 0
  pub has_proxy_config : World → Bool
  pub create_and_send : Submitted → World → Bool × World
  pub send_lib_program_id : ℕ
  pub receive_lib_program_id : ℕ

module _ (chain : Chain) where
  open chain use {World, create_and_send}

  unfoldable pub send : Submitted → Step World (Unit {0})
  send t w = confirmed call_failed (create_and_send t w)

  -- `try { … } catch { … }`
  unfoldable pub attempt : Submitted → Step World (Unit {0})
  attempt t w = (ok tt, (create_and_send t w).1)

  unfoldable pub attempt_all : List Submitted → Step World (Unit {0})
  attempt_all [] = lift (ok tt)
  attempt_all (t ∷ ts) = attempt t >> attempt_all ts

module _ (sdk : Sdk) (chain : Chain) where
  open chain use {World}

  -- The five that sol:proxy:init attempts.
  unfoldable pub endpoint_transactions : ℕ → String → List Submitted
  endpoint_transactions orderly_eid receiver =
      init_oapp_nonce orderly_eid (sdk.address_to_bytes32 receiver)
      ∷ init_send_library orderly_eid
      ∷ init_receive_library orderly_eid
      ∷ set_send_library chain.send_lib_program_id orderly_eid
      ∷ set_receive_library chain.receive_lib_program_id orderly_eid 0
      ∷ []

  unfoldable pub create_proxy : String → ℕ → Bool → Step World (Unit {0})
  create_proxy env wallet true = lift (ok tt)
  create_proxy env wallet false = do
    ixs ← lift (init_instructions sdk env wallet)
    send chain (to_program ixs)

  unfoldable pub init : String → ℕ → Step World (Unit {0})
  init env wallet = do
    lift (check_env env)
    _ ← lift (get_usdc_mint env)
    receiver ← lift (get_ledger_oapp_address env)
    found ← query (λ w. ok (chain.has_proxy_config w))
    create_proxy env wallet found
    attempt_all chain (endpoint_transactions (get_orderly_eid sdk.endpoint_ids env) receiver)

  abbrev pub uln_args : UlnConfig → UlnArgs
  uln_args uln = record {
    confirmations = uln.confirmations;
    required_dvn_count = uln.required_dvn_count;
    optional_dvn_count = uln.optional_dvn_count;
    optional_dvn_threshold = uln.optional_dvn_threshold;
    required_dvns = map sdk.key_of uln.required_dvns;
    optional_dvns = [];
  }

  unfoldable pub configs_of : LzConfig → List ConfigOf
  configs_of config =
      executor config.send_lib_config.max_message_size
        (sdk.key_of config.send_lib_config.executor_address)
      ∷ send_uln (uln_args config.send_lib_config.uln_config)
      ∷ receive_uln (uln_args config.receive_lib_config.uln_config)
      ∷ []

  unfoldable pub setconfig : String → Step World (Unit {0})
  setconfig env = do
    lift (check_env env)
    attempt chain (init_config (get_orderly_eid sdk.endpoint_ids env))
    config ← lift (get_local_lz_config sdk.endpoint_ids (get_solana_network env))
    send chain (set_configs (get_orderly_eid sdk.endpoint_ids env) (configs_of config))

-- ===== src/Script/Tasks.antt =====
-- The tasks of tasks/proxy/setProxy.ts that a user runs: sol:proxy:quote, request, submitproof, quoteclaim and
-- claim. The network is a parameter: what a view of the program answers, and what sending does.
pub mod Laws
mod Tests
use solana_proxy.Prelude
use solana_proxy.Prelude.{
  ℕ, String, Bool, true, false, Option, none, some, List, Result, ok, or_throw, require, type_error,
  call_failed, claim_data_not_found,
}
use solana_proxy.Script.Constants.Accounts.{ProxyAccounts}
use solana_proxy.Script.Constants.Lz.{EndpointIds}
use solana_proxy.Script.Environment.{check_env, get_proxy_accounts}
use solana_proxy.Script.Keys.{PublicKeys}
use solana_proxy.Script.Pda.{SdkSeeds}
use solana_proxy.Script.Pda.Proxy.{get_claim_data_pda}
use solana_proxy.Script.Amounts.{BigNumbers}
use solana_proxy.Script.Payload.{Input, prepare_request}
use solana_proxy.Script.Client.{
  Call, MsgFee, quote_fee, send_request, quote_claim_fee, send_claim_request, submit_proof,
}
use solana_proxy.Script.Steps.{Step, ◌>>=◌, ◌>>◌, lift, query, confirmed}

module _ (k : PublicKeys) (sdk : SdkSeeds) (ids : EndpointIds) (n : BigNumbers) where
  open k use {PublicKey, from_base58}

  -- `none` and `false` are calls that throw.
  pub record Network : Type 1 where
    pub World : Type 0
    pub wallet : PublicKey
    pub has_claim_data : PublicKey → World → Bool
    pub view : Call k sdk ids → World → Option MsgFee
    pub create_and_send : Call k sdk ids → World → Bool × World

  module _ (network : Network) where
    open network use {World, wallet}

    -- `getProxyProgram(ENV, provider).programId`
    unfoldable pub get_proxy_program : String → Result PublicKey
    get_proxy_program env =
        Prelude.◌>>=◌ (or_throw type_error (get_proxy_accounts env))
          (λ accounts. ok (from_base58 (ProxyAccounts.program_id accounts)))

    abbrev pub viewed : Call k sdk ids → Step World MsgFee
    viewed call = query (λ w. or_throw call_failed (network.view call w))

    abbrev pub sent : Call k sdk ids → Step World (Unit {0})
    sent call w = confirmed call_failed (network.create_and_send call w)

    unfoldable pub quote : String → Input → String → Step World MsgFee
    quote env payload_type payload = do
      lift (check_env env)
      program_id ← lift (get_proxy_program env)
      (t, encoded) ← lift (prepare_request n payload_type payload)
      call ← lift (quote_fee k sdk ids program_id wallet t encoded env)
      viewed call

    unfoldable pub request : String → Input → String → Step World (Unit {0})
    request env payload_type payload = do
      lift (check_env env)
      program_id ← lift (get_proxy_program env)
      prepared ← lift (prepare_request n payload_type payload)
      quoting ← lift (quote_fee k sdk ids program_id wallet prepared.0 prepared.1 env)
      fee ← viewed quoting
      sending ← lift (
          send_request k sdk ids program_id wallet prepared.0 prepared.1 fee.native_fee
            fee.lz_token_fee env)
      sent sending

    unfoldable pub submitproof : String → ℕ → String → List (List ℕ) → Step World (Unit {0})
    submitproof env distribution_id cumulative_amount merkle_proof = do
      lift (check_env env)
      program_id ← lift (get_proxy_program env)
      call ← lift (
          submit_proof k sdk ids n program_id wallet distribution_id cumulative_amount merkle_proof)
      sent call

    -- The claim data is fetched, only to see that it is there.
    unfoldable pub fetch_claim_data : PublicKey → Step World (Unit {0})
    fetch_claim_data program_id = query (λ w.
        require (network.has_claim_data (get_claim_data_pda k sdk program_id wallet) w)
          claim_data_not_found)

    unfoldable pub quoteclaim : String → Step World MsgFee
    quoteclaim env = do
      lift (check_env env)
      program_id ← lift (get_proxy_program env)
      fetch_claim_data program_id
      call ← lift (quote_claim_fee k sdk ids program_id wallet env)
      viewed call

    unfoldable pub claim : String → Step World (Unit {0})
    claim env = do
      lift (check_env env)
      program_id ← lift (get_proxy_program env)
      fetch_claim_data program_id
      quoting ← lift (quote_claim_fee k sdk ids program_id wallet env)
      fee ← viewed quoting
      sending ←
          lift (send_claim_request k sdk ids program_id wallet fee.native_fee fee.lz_token_fee env)
      sent sending

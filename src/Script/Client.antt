-- ===== src/Script/Client.antt =====
-- tasks/proxy/utils.ts: prepareParamsAndAccounts and the five calls of the proxy program that are
-- built on it (quoteFee, sendRequest, quoteClaimFee, sendClaimRequest, submitProof), up to the
-- instruction that they hand to the network: the method, its arguments and its accounts. The accounts
-- that the LayerZero SDK adds are those of the path, which stands here itself.
pub mod Laws
mod Tests
use solana_proxy.Prelude.{
  ℕ, String, Option, none, some, List, [], ◌∷◌, map, Result, ok, throw, ◌>>=◌,
}
use solana_proxy.Bytes.{Bytes}
use solana_proxy.Script.Constants.Lz.{EndpointIds}
use solana_proxy.Script.Environment.{get_orderly_eid, get_ledger_oapp_address}
use solana_proxy.Script.Hex.{bytes_to_hex, bytes_from_hex}
use solana_proxy.Script.Keys.{PublicKeys}
use solana_proxy.Script.Pda.{SdkSeeds}
use solana_proxy.Script.Pda.Proxy.{
  get_proxy_config_pda, get_peer_pda, get_backward_fee_pda, get_claim_data_pda,
}
use solana_proxy.Script.Amounts.{BigNumbers, convert_into_bytes32, order_decimals_on_ethereum}
use solana_proxy.Script.Payload.{PayloadType, payload_code, claim_reward_solana}

pub record Params : Type 0 where
  pub payload_type : ℕ
  pub payload : Bytes

pub record MessagePath : Type 0 where
  pub sender : List ℕ
  pub dst_eid : ℕ
  pub receiver : String

pub record MsgFee : Type 0 where
  pub lz_token_fee : ℕ
  pub native_fee : ℕ

module _ (k : PublicKeys) (sdk : SdkSeeds) (ids : EndpointIds) where
  open k use {PublicKey, to_buffer}

  pub record RequestAccounts : Type 0 where
    pub user : PublicKey
    pub peer_config : PublicKey
    pub proxy_config : PublicKey
    pub backward_fee : PublicKey

  pub record Prepared : Type 0 where
    pub params : Params
    pub accounts : RequestAccounts
    pub path : MessagePath

  -- The accounts of a claim: those of a request and the user's claim data.
  pub record ClaimAccounts : Type 0 where
    pub claim_data : PublicKey
    pub request : RequestAccounts

  -- An instruction of the proxy program, as the client builds it.
  pub data Call : Type 0 where
    call_quote_request : Params → RequestAccounts → MessagePath → Call
    call_send_request : Params → MsgFee → RequestAccounts → MessagePath → Call
    call_quote_claim : ClaimAccounts → MessagePath → Call
    call_send_claim : MsgFee → ClaimAccounts → MessagePath → Call
    call_submit_proof : ℕ → Bytes → List Bytes → PublicKey → PublicKey → Call

  unfoldable pub prepare_params_and_accounts :
      PublicKey → PublicKey → PayloadType → Bytes → String → Result Prepared
  prepare_params_and_accounts program_id payer payload_type payload env =
      let proxy_config_pda = get_proxy_config_pda k sdk program_id in
      do
        peer_config_pda ← get_peer_pda k sdk program_id proxy_config_pda (get_orderly_eid ids env)
        oapp_receiver ← get_ledger_oapp_address env
        ok (record {
          params = record { payload_type = payload_code payload_type; payload = payload };
          accounts = record {
            user = payer;
            peer_config = peer_config_pda;
            proxy_config = proxy_config_pda;
            backward_fee = get_backward_fee_pda k sdk program_id;
          };
          path = record {
            sender = bytes_to_hex (to_buffer proxy_config_pda);
            dst_eid = get_orderly_eid ids env;
            receiver = oapp_receiver;
          };
        })

  unfoldable pub quote_fee : PublicKey → PublicKey → PayloadType → Bytes → String → Result Call
  quote_fee program_id payer payload_type payload env = do
    prepared ← prepare_params_and_accounts program_id payer payload_type payload env
    ok (call_quote_request prepared.params prepared.accounts prepared.path)

  unfoldable pub send_request :
      PublicKey → PublicKey → PayloadType → Bytes → ℕ → ℕ → String → Result Call
  send_request program_id payer payload_type payload native_fee lz_token_fee env = do
    prepared ← prepare_params_and_accounts program_id payer payload_type payload env
    ok (
        call_send_request prepared.params
          (record { lz_token_fee = lz_token_fee; native_fee = native_fee }) prepared.accounts
          prepared.path)

  unfoldable pub claim_accounts : PublicKey → PublicKey → RequestAccounts → ClaimAccounts
  claim_accounts program_id payer accounts = record {
    claim_data = get_claim_data_pda k sdk program_id payer;
    request = record accounts { backward_fee = get_backward_fee_pda k sdk program_id };
  }

  unfoldable pub quote_claim_fee : PublicKey → PublicKey → String → Result Call
  unfolding claim_accounts
  quote_claim_fee program_id payer env = do
    prepared ← prepare_params_and_accounts program_id payer claim_reward_solana [] env
    ok (call_quote_claim (claim_accounts program_id payer prepared.accounts) prepared.path)

  unfoldable pub send_claim_request : PublicKey → PublicKey → ℕ → ℕ → String → Result Call
  unfolding claim_accounts
  send_claim_request program_id payer native_fee lz_token_fee env = do
    prepared ← prepare_params_and_accounts program_id payer claim_reward_solana [] env
    ok (
        call_send_claim (record { lz_token_fee = lz_token_fee; native_fee = native_fee })
          (claim_accounts program_id payer prepared.accounts) prepared.path)

  module _ (n : BigNumbers) where
    unfoldable pub submit_proof : PublicKey → PublicKey → ℕ → String → List (List ℕ) → Result Call
    submit_proof program_id user distribution_id cumulative_amount merkle_proof = do
      amount ← convert_into_bytes32 n cumulative_amount order_decimals_on_ethereum
      ok (
          call_submit_proof distribution_id amount (map bytes_from_hex merkle_proof) user
            (get_claim_data_pda k sdk program_id user))

-- ===== src/Script/Staking.antt =====
-- Staking over the OFT in tasks/proxy/utils.ts: encodeOCCVaultMessage, createStakingMsg,
-- getStakingOptions, and what quoteStakingFee and sendStakingRequest hand to the OFT program. The ABI
-- encoder is a parameter, on the tuple that it is given; the fee stays the text that `new BN` reads, and
-- the accounts that the SDKs append to a send are left out.
pub mod Laws
mod Tests
use solana_proxy.Prelude.{
  ℕ, ◌^◌, String, Option, none, some, List, [], ◌∷◌, Result, ok, throw, ◌>>=◌, or_throw, type_error,
  value_out_of_range, ltb, if◌then◌else◌, ℤ, lookup,
}
use solana_proxy.Bytes.{Bytes}
use solana_proxy.Script.Constants.Accounts.{OftAccounts}
use solana_proxy.Script.Constants.Networks.{SolanaInfo, solana_info}
use solana_proxy.Script.Constants.Lz.{EndpointIds}
use solana_proxy.Script.Environment.{
  get_orderly_eid, get_oft_accounts, get_chain_event_id, get_sol_chain_id,
}
use solana_proxy.Script.Amounts.{
  BigNumbers, get_order_amount_in_bytes32, get_order_amount_in_big_int,
}
use solana_proxy.Script.Payload.{payload_code, stake}
use solana_proxy.Script.Keys.{PublicKeys}
use solana_proxy.Script.Pda.{SdkSeeds}
use solana_proxy.Script.Pda.Proxy.{get_peer_pda}

-- `tuple(uint256,uint256,uint8,uint256,bytes32,uint8,bytes)`
pub record VaultTuple : Type 0 where
  pub chain_event_id : ℕ
  pub src_chain_id : ℕ
  pub token : ℕ
  pub amount : Bytes
  pub sender : Bytes
  pub payload_type : ℕ
  pub payload : Bytes

-- `LedgerToken.ORDER`
abbrev pub ledger_token_order : ℕ
ledger_token_order = 0

-- What a quote and a send have in common.
pub record OftParams : Type 0 where
  pub dst_eid : ℕ
  pub to : String
  pub amount_ld : ℤ
  pub min_amount_ld : ℤ
  pub options : Bytes
  pub compose_msg : Bytes

unfoldable pub get_staking_options : Bytes
get_staking_options = []

module _ (n : BigNumbers) (k : PublicKeys) (seeds : SdkSeeds) (ids : EndpointIds)
    (abi_encode : VaultTuple → Bytes) where
  open k use {PublicKey, to_buffer, from_base58}

  pub record StakingQuote : Type 0 where
    pub payer : PublicKey
    pub token_mint : String
    pub token_escrow : String
    pub params : OftParams
    pub oft_program : String

  pub record StakingSend : Type 0 where
    pub signer : PublicKey
    pub peer : PublicKey
    pub oft_store : String
    pub token_escrow : String
    pub token_mint : String
    pub program : String
    pub params : OftParams
    pub native_fee : String

  -- `chainEventId.toNumber()` refuses what a double does not hold exactly.
  unfoldable pub encode_occ_vault_message : ℕ → ℕ → ℕ → Bytes → PublicKey → ℕ → Bytes → Result Bytes
  encode_occ_vault_message chain_event_id src_chain_id token amount_array sender payload_type
        payload =
      if ltb chain_event_id (2 ^ 53)
      then ok (
          abi_encode (record {
            chain_event_id = chain_event_id;
            src_chain_id = src_chain_id;
            token = token;
            amount = amount_array;
            sender = to_buffer sender;
            payload_type = payload_type;
            payload = payload;
          }))
      else throw value_out_of_range

  unfoldable pub create_staking_msg : String → PublicKey → String → Result Bytes
  create_staking_msg amount sender env = do
    amount_in_bytes32 ← get_order_amount_in_bytes32 n amount
    sol_chain_id ← get_sol_chain_id env
    ok (
        abi_encode (record {
          chain_event_id = get_chain_event_id;
          src_chain_id = sol_chain_id;
          token = ledger_token_order;
          amount = amount_in_bytes32;
          sender = to_buffer sender;
          payload_type = payload_code stake;
          payload = [];
        }))

  unfoldable pub oft_params : OftAccounts → String → ℤ → Bytes → OftParams
  unfolding get_staking_options
  oft_params accounts env amount msg = record {
    dst_eid = get_orderly_eid ids env;
    to = OftAccounts.ledger_occ_manger accounts;
    amount_ld = amount;
    min_amount_ld = amount;
    options = get_staking_options;
    compose_msg = msg;
  }

  unfoldable pub quote_staking_fee : PublicKey → String → String → Result StakingQuote
  unfolding oft_params
  quote_staking_fee wallet amount env = do
    amount_in_big_int ← get_order_amount_in_big_int n amount
    staking_msg ← create_staking_msg amount wallet env
    info ← or_throw type_error (lookup env solana_info)
    accounts ← or_throw type_error (get_oft_accounts env)
    ok (record {
      payer = wallet;
      token_mint = OftAccounts.mint accounts;
      token_escrow = OftAccounts.escrow accounts;
      params = oft_params accounts env amount_in_big_int staking_msg;
      oft_program = OftAccounts.program_id accounts;
    })

  unfoldable pub send_staking_request : PublicKey → String → String → String → Result StakingSend
  unfolding oft_params
  send_staking_request wallet amount fee env = do
    staking_msg ← create_staking_msg amount wallet env
    amount_in_big_int ← get_order_amount_in_big_int n amount
    accounts ← or_throw type_error (get_oft_accounts env)
    oft_store ← or_throw type_error (OftAccounts.oft_store accounts)
    peer ←
        get_peer_pda k seeds (from_base58 (OftAccounts.program_id accounts)) (from_base58 oft_store)
          (get_orderly_eid ids env)
    info ← or_throw type_error (lookup env solana_info)
    ok (record {
      signer = wallet;
      peer = peer;
      oft_store = oft_store;
      token_escrow = OftAccounts.escrow accounts;
      token_mint = OftAccounts.mint accounts;
      program = OftAccounts.program_id accounts;
      params = oft_params accounts env amount_in_big_int staking_msg;
      native_fee = fee;
    })

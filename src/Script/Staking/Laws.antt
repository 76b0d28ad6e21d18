-- ===== src/Script/Staking/Laws.antt =====
-- A stake is sent as it was quoted, with the message that encodeOCCVaultMessage would encode.
use solana_proxy.Prelude.{◌≡◌, refl, String, [], ok, ◌>>=◌}
use solana_proxy.Bytes.{Bytes}
use solana_proxy.Script.Constants.Lz.{EndpointIds}
use solana_proxy.Script.Environment.{get_chain_event_id, get_sol_chain_id}
use solana_proxy.Script.Amounts.{BigNumbers, get_order_amount_in_bytes32}
use solana_proxy.Script.Payload.{payload_code, stake}
use solana_proxy.Script.Keys.{PublicKeys}
use solana_proxy.Script.Pda.{SdkSeeds}
use solana_proxy.Script.Staking.{
  VaultTuple, StakingQuote, StakingSend, encode_occ_vault_message, create_staking_msg,
  quote_staking_fee, ledger_token_order,
}

module _ (n : BigNumbers) (k : PublicKeys) (seeds : SdkSeeds) (ids : EndpointIds)
    (abi_encode : VaultTuple → Bytes) where
  -- quoteStakingFee answers with the parameters and accounts of a send.
  abbrev pub IsQuoted :
      k.PublicKey → String → String → StakingSend n k seeds ids abi_encode → Type 0
  IsQuoted wallet amount env r =
      (q : StakingQuote n k seeds ids abi_encode) × (quote_staking_fee n k seeds ids abi_encode
          wallet amount env
        ≡ ok q)
      × (q.params ≡ r.params)
      × (q.payer ≡ r.signer)
      × (q.token_mint ≡ r.token_mint)
      × (q.token_escrow ≡ r.token_escrow)
      × (q.oft_program ≡ r.program)

  -- createStakingMsg gives what encodeOCCVaultMessage encodes for the amount's 32 bytes and the chain of
  -- the environment, with the chain event of the constants, ORDER and the payload type of a stake; and
  -- it throws when the amount or the chain does.
  pub create_staking_msg-encode_occ_vault_message :
      (amount : String) (sender : k.PublicKey) (env : String)
      → create_staking_msg n k seeds ids abi_encode amount sender env ≡ (
          get_order_amount_in_bytes32 n amount >>= λ amount_array. get_sol_chain_id env >>= λ chain.
          encode_occ_vault_message n k seeds ids abi_encode get_chain_event_id chain
            ledger_token_order amount_array sender
            (payload_code stake)
            [])
  unfolding create_staking_msg encode_occ_vault_message get_chain_event_id
  create_staking_msg-encode_occ_vault_message amount sender env = refl

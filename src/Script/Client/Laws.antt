-- ===== src/Script/Client/Laws.antt =====
-- The accounts that the client derives are those that the program demands.
use solana_proxy.Prelude.{ℕ, ◌<◌, ◌^◌, ◌≡◌, refl, String, true, ok, ltb, arith}
use solana_proxy.Bytes.{Bytes, be_bytes}
use solana_proxy.Script.Constants.Lz.{EndpointIds}
use solana_proxy.Script.Environment.{get_orderly_eid, get_ledger_oapp_address}
use solana_proxy.Script.Keys.{PublicKeys}
use solana_proxy.Script.Pda.{SdkSeeds, write_uint32_be}
use solana_proxy.Script.Pda.Proxy.{
  get_proxy_config_pda, get_peer_pda, get_backward_fee_pda, get_claim_data_pda,
}
use solana_proxy.Script.Payload.{PayloadType, payload_code}
use solana_proxy.Script.Client.{prepare_params_and_accounts, Prepared, RequestAccounts}
use solana_proxy.Program.Seeds.{
  proxy_config_seeds, peer_config_seeds, backward_fee_seeds, claim_data_seeds, peer_seed,
}

ltb-true : (m n : ℕ) → m < n → ltb m n ≡ true
ltb-true m n h = ground (arith, h)

module _ (k : PublicKeys) (sdk : SdkSeeds) (ids : EndpointIds) where
  open k use {PublicKey, to_buffer, find_program_address_sync}

  -- What Anchor demands of the accounts of `QuoteRequest` and `SendRequest` on a proxy that sends to `eid`.
  abbrev pub AreDemanded : PublicKey → ℕ → RequestAccounts k sdk ids → Type 0
  AreDemanded program_id eid accounts =
      (accounts.proxy_config ≡ find_program_address_sync proxy_config_seeds program_id)
      × (accounts.peer_config
          ≡ find_program_address_sync (peer_config_seeds (to_buffer accounts.proxy_config) eid)
              program_id)
      × (accounts.backward_fee ≡ find_program_address_sync backward_fee_seeds program_id)

  write_uint32_be-eq : (n : ℕ) → n < 2 ^ 32 → write_uint32_be n ≡ ok (be_bytes 4 n)
  unfolding write_uint32_be
  write_uint32_be-eq n h = rw (ltb-true n (2 ^ 32) h) refl

  pub get_peer_pda-peer_config_seeds :
      (program_id config : PublicKey) (eid : ℕ)
      → sdk.peer_seed ≡ peer_seed
      → eid < 2 ^ 32
      → get_peer_pda k sdk program_id config eid
        ≡ ok (find_program_address_sync (peer_config_seeds (to_buffer config) eid) program_id)
  unfolding get_peer_pda peer_config_seeds
  get_peer_pda-peer_config_seeds program_id config eid s h = rw (write_uint32_be-eq eid h, s) refl

  -- For an environment that has a ledger contract, an eid of 32 bits, and the LayerZero library's seed
  -- being the program's, the client prepares every request, for the user that it was given, with the
  -- accounts that the program demands, and with the request's own payload and the destination as path.
  pub prepare_params_and_accounts-AreDemanded :
      (program_id payer : PublicKey) (payload_type : PayloadType) (payload : Bytes)
      (env receiver : String)
      → sdk.peer_seed ≡ peer_seed
      → get_orderly_eid ids env < 2 ^ 32
      → get_ledger_oapp_address env ≡ ok receiver
      → (p : Prepared k sdk ids) × (prepare_params_and_accounts k sdk ids program_id payer
            payload_type payload env
          ≡ ok p)
        × AreDemanded program_id (get_orderly_eid ids env) p.accounts
        × (p.accounts.user ≡ payer)
        × (p.params ≡ record { payload_type = payload_code payload_type; payload = payload })
        × (p.path.dst_eid ≡ get_orderly_eid ids env)
        × (p.path.receiver ≡ receiver)
  unfolding prepare_params_and_accounts get_proxy_config_pda get_backward_fee_pda proxy_config_seeds
      backward_fee_seeds
  prepare_params_and_accounts-AreDemanded program_id payer payload_type payload env receiver s h
        known =
      rw
        (
          get_peer_pda-peer_config_seeds program_id (get_proxy_config_pda k sdk program_id)
              (get_orderly_eid ids env) s h,
          known,
        )
        (_, refl, (refl, refl, refl), refl, refl, refl, refl)

  -- A claim is quoted with the claim data that the program demands for the same user.
  pub get_claim_data_pda-claim_data_seeds :
      (program_id user : PublicKey)
      → get_claim_data_pda k sdk program_id user
        ≡ find_program_address_sync (claim_data_seeds (to_buffer user)) program_id
  unfolding get_claim_data_pda claim_data_seeds
  get_claim_data_pda-claim_data_seeds program_id user = refl

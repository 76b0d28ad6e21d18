-- ===== src/Script/Pda/Proxy.antt =====
-- The addresses of the proxy program's own accounts.
use solana_proxy.Prelude.{ℕ, [], ◌∷◌, Result, ok, ◌>>=◌}
use solana_proxy.Script.Keys.{PublicKeys}
use solana_proxy.Script.Pda.{
  write_uint32_be, SdkSeeds, proxy_config_seed, claim_data_seed, account_list_seed,
  backward_fee_seed, payload_options_seed,
}

module _ (k : PublicKeys) (sdk : SdkSeeds) where
  open k use {PublicKey, to_buffer, find_program_address_sync}

  unfoldable pub get_proxy_config_pda : PublicKey → PublicKey
  get_proxy_config_pda proxy_program_id =
      find_program_address_sync (proxy_config_seed ∷ []) proxy_program_id

  unfoldable pub get_backward_fee_pda : PublicKey → PublicKey
  get_backward_fee_pda proxy_program_id =
      find_program_address_sync (backward_fee_seed ∷ []) proxy_program_id

  unfoldable pub get_peer_pda : PublicKey → PublicKey → ℕ → Result PublicKey
  unfolding write_uint32_be
  get_peer_pda program_id config_pda dst_eid = do
    buffer_dst_eid ← write_uint32_be dst_eid
    ok (
        find_program_address_sync (sdk.peer_seed ∷ to_buffer config_pda ∷ buffer_dst_eid ∷ [])
          program_id)

  unfoldable pub get_claim_data_pda : PublicKey → PublicKey → PublicKey
  get_claim_data_pda program_id user =
      find_program_address_sync (claim_data_seed ∷ to_buffer user ∷ []) program_id

  unfoldable pub get_lz_receive_types_pda : PublicKey → PublicKey → PublicKey
  get_lz_receive_types_pda program_id config_pda =
      find_program_address_sync (sdk.lz_receive_types_seed ∷ to_buffer config_pda ∷ []) program_id

  unfoldable pub get_peer_config_pda : PublicKey → ℕ → PublicKey → Result PublicKey
  unfolding write_uint32_be
  get_peer_config_pda program_id dst_eid proxy_config_pda = do
    buffer_dst_eid ← write_uint32_be dst_eid
    ok (
        find_program_address_sync (sdk.peer_seed ∷ to_buffer proxy_config_pda ∷ buffer_dst_eid ∷ [])
          program_id)

  unfoldable pub get_oapp_config_pda : PublicKey → PublicKey
  get_oapp_config_pda program_id = find_program_address_sync (sdk.oapp_seed ∷ []) program_id

  unfoldable pub get_payload_options_pda : PublicKey → ℕ → Result PublicKey
  unfolding write_uint32_be
  get_payload_options_pda program_id payload_type = do
    buffer_payload_type ← write_uint32_be payload_type
    ok (find_program_address_sync (payload_options_seed ∷ buffer_payload_type ∷ []) program_id)

  unfoldable pub get_account_list_pda : PublicKey → PublicKey → PublicKey
  get_account_list_pda program_id config_pda =
      find_program_address_sync (account_list_seed ∷ to_buffer config_pda ∷ []) program_id

-- ===== src/Script/Pda/Endpoint.antt =====
-- The addresses of the accounts of the LayerZero endpoint, its message library, executor and DVN.
use solana_proxy.Prelude.{ℕ, Option, [], ◌∷◌, Result, ok, ◌>>=◌}
use solana_proxy.Bytes.{Bytes}
use solana_proxy.Script.Number.{codes}
use solana_proxy.Script.Keys.{PublicKeys}
use solana_proxy.Script.Pda.{
  write_uint32_be, write_big_uint64_be, or_default, SdkSeeds, endpoint_program_id,
  send_lib_program_id, executor_program_id, dvn_program_id, price_feed_program_id,
  receive_lib_program_id,
}

module _ (k : PublicKeys) (sdk : SdkSeeds) where
  open k use {PublicKey, to_buffer, find_program_address_sync}

  unfoldable pub get_event_authority_pda : PublicKey
  get_event_authority_pda = find_program_address_sync (sdk.event_seed ∷ []) (endpoint_program_id k)

  unfoldable pub get_oapp_registry_pda : PublicKey → PublicKey
  get_oapp_registry_pda config_pda =
      find_program_address_sync (sdk.oapp_seed ∷ to_buffer config_pda ∷ []) (endpoint_program_id k)

  unfoldable pub get_enforced_options_pda : PublicKey → PublicKey → ℕ → Result PublicKey
  unfolding write_uint32_be
  get_enforced_options_pda program_id config_pda dst_eid = do
    buffer_dst_eid ← write_uint32_be dst_eid
    ok (
        find_program_address_sync
          (sdk.enforced_options_seed ∷ to_buffer config_pda ∷ buffer_dst_eid ∷ []) program_id)

  unfoldable pub get_send_lib_pda : PublicKey
  get_send_lib_pda = find_program_address_sync (sdk.message_lib_seed ∷ []) (send_lib_program_id k)

  unfoldable pub get_send_lib_config_pda : PublicKey → ℕ → Result PublicKey
  unfolding write_uint32_be
  get_send_lib_config_pda config_pda dst_eid = do
    buffer_dst_eid ← write_uint32_be dst_eid
    ok (
        find_program_address_sync
          (sdk.send_library_config_seed ∷ to_buffer config_pda ∷ buffer_dst_eid ∷ [])
          (endpoint_program_id k))

  unfoldable pub get_send_lib_info_pda : PublicKey → PublicKey
  get_send_lib_info_pda send_lib_pda =
      find_program_address_sync (sdk.message_lib_seed ∷ to_buffer send_lib_pda ∷ [])
        (endpoint_program_id k)

  unfoldable pub get_default_send_lib_config_pda : ℕ → Result PublicKey
  unfolding write_uint32_be
  get_default_send_lib_config_pda dst_eid = do
    buffer_dst_eid ← write_uint32_be dst_eid
    ok (
        find_program_address_sync (sdk.send_library_config_seed ∷ buffer_dst_eid ∷ [])
          (endpoint_program_id k))

  unfoldable pub get_receive_lib_config_pda : PublicKey → ℕ → Result PublicKey
  unfolding write_uint32_be
  get_receive_lib_config_pda config_pda dst_eid = do
    buffer_dst_eid ← write_uint32_be dst_eid
    ok (
        find_program_address_sync
          (sdk.receive_library_config_seed ∷ to_buffer config_pda ∷ buffer_dst_eid ∷ [])
          (endpoint_program_id k))

  unfoldable pub get_default_receive_lib_config_pda : ℕ → Result PublicKey
  unfolding write_uint32_be
  get_default_receive_lib_config_pda dst_eid = do
    buffer_dst_eid ← write_uint32_be dst_eid
    ok (
        find_program_address_sync (sdk.receive_library_config_seed ∷ buffer_dst_eid ∷ [])
          (endpoint_program_id k))

  unfoldable pub get_send_config_pda : PublicKey → ℕ → Result PublicKey
  unfolding write_uint32_be
  get_send_config_pda config_pda dst_eid = do
    buffer_dst_eid ← write_uint32_be dst_eid
    ok (
        find_program_address_sync
          (sdk.send_config_seed ∷ buffer_dst_eid ∷ to_buffer config_pda ∷ [])
          (send_lib_program_id k))

  unfoldable pub get_uln_send_config_pda : ℕ → Result PublicKey
  unfolding write_uint32_be
  get_uln_send_config_pda dst_eid = do
    buffer_dst_eid ← write_uint32_be dst_eid
    ok (
        find_program_address_sync (sdk.send_config_seed ∷ buffer_dst_eid ∷ [])
          (send_lib_program_id k))

  unfoldable pub get_default_send_config_pda : ℕ → Result PublicKey
  unfolding write_uint32_be
  get_default_send_config_pda dst_eid = do
    buffer_dst_eid ← write_uint32_be dst_eid
    ok (
        find_program_address_sync (sdk.send_config_seed ∷ buffer_dst_eid ∷ [])
          (receive_lib_program_id k))

  unfoldable pub get_receive_config_pda : PublicKey → ℕ → Result PublicKey
  unfolding write_uint32_be
  get_receive_config_pda config_pda dst_eid = do
    buffer_dst_eid ← write_uint32_be dst_eid
    ok (
        find_program_address_sync
          (sdk.receive_config_seed ∷ buffer_dst_eid ∷ to_buffer config_pda ∷ [])
          (receive_lib_program_id k))

  unfoldable pub get_uln_receive_config_pda : ℕ → Result PublicKey
  unfolding write_uint32_be
  get_uln_receive_config_pda dst_eid = do
    buffer_dst_eid ← write_uint32_be dst_eid
    ok (
        find_program_address_sync (sdk.receive_config_seed ∷ buffer_dst_eid ∷ [])
          (receive_lib_program_id k))

  unfoldable pub get_default_receive_config_pda : ℕ → Option PublicKey → Result PublicKey
  unfolding write_uint32_be
  get_default_receive_config_pda src_eid program_id = do
    buffer_src_eid ← write_uint32_be src_eid
    ok (
        find_program_address_sync (sdk.receive_config_seed ∷ buffer_src_eid ∷ [])
          (or_default program_id (receive_lib_program_id k)))

  unfoldable pub get_uln_event_authority_pda : PublicKey
  get_uln_event_authority_pda =
      find_program_address_sync (sdk.event_seed ∷ []) (send_lib_program_id k)

  unfoldable pub get_uln_setting_pda : PublicKey
  get_uln_setting_pda = find_program_address_sync (sdk.uln_seed ∷ []) (send_lib_program_id k)

  unfoldable pub get_endpoint_setting_pda : Option PublicKey → PublicKey
  get_endpoint_setting_pda program_id =
      find_program_address_sync (sdk.endpoint_seed ∷ [])
        (or_default program_id (endpoint_program_id k))

  unfoldable pub get_nonce_pda : PublicKey → ℕ → Bytes → Result PublicKey
  unfolding write_uint32_be
  get_nonce_pda config_pda dst_eid peer_address = do
    buffer_dst_eid ← write_uint32_be dst_eid
    ok (
        find_program_address_sync
          (sdk.nonce_seed ∷ to_buffer config_pda ∷ buffer_dst_eid ∷ peer_address ∷ [])
          (endpoint_program_id k))

  unfoldable pub get_pending_inbound_nonce_pda : PublicKey → ℕ → Bytes → Result PublicKey
  unfolding write_uint32_be
  get_pending_inbound_nonce_pda config_pda dst_eid peer_address = do
    buffer_dst_eid ← write_uint32_be dst_eid
    ok (
        find_program_address_sync
          (sdk.pending_nonce_seed ∷ to_buffer config_pda ∷ buffer_dst_eid ∷ peer_address ∷ [])
          (endpoint_program_id k))

  unfoldable pub get_executor_config_pda : PublicKey
  get_executor_config_pda =
      find_program_address_sync (sdk.executor_config_seed ∷ []) (executor_program_id k)

  unfoldable pub get_price_feed_pda : PublicKey
  get_price_feed_pda =
      find_program_address_sync (sdk.price_feed_seed ∷ []) (price_feed_program_id k)

  unfoldable pub get_dvn_config_pda : PublicKey
  get_dvn_config_pda = find_program_address_sync (sdk.dvn_config_seed ∷ []) (dvn_program_id k)

  unfoldable pub get_message_lib_pda : Option PublicKey → PublicKey
  get_message_lib_pda program_id =
      find_program_address_sync (sdk.message_lib_seed ∷ [])
        (or_default program_id (send_lib_program_id k))

  unfoldable pub get_message_lib_info_pda : PublicKey → Option PublicKey → PublicKey
  get_message_lib_info_pda msg_lib_pda program_id =
      find_program_address_sync (sdk.message_lib_seed ∷ to_buffer msg_lib_pda ∷ [])
        (or_default program_id (endpoint_program_id k))

  unfoldable pub get_payload_hash_pda : PublicKey → ℕ → Bytes → ℕ → Result PublicKey
  unfolding write_uint32_be write_big_uint64_be
  get_payload_hash_pda receiver src_eid sender nonce = do
    buffer_src_eid ← write_uint32_be src_eid
    buffer_nonce ← write_big_uint64_be nonce
    ok (
        find_program_address_sync
          ((codes "PayloadHash") ∷ to_buffer receiver ∷ buffer_src_eid ∷ sender ∷ buffer_nonce ∷ [])
          (endpoint_program_id k))

-- ===== src/Script/Pda.antt =====
-- tasks/proxy/pdaHelper.ts, the addresses that the tasks derive, with the seeds and program ids of
-- tasks/proxy/constants.ts that they use. The seeds of `@layerzerolabs/lz-solana-sdk-v2` are a parameter.
pub mod Proxy
pub mod Endpoint
pub mod Laws
pub mod Sample
mod Tests
use solana_proxy.Prelude.{
  ℕ, ◌^◌, Option, none, some, Result, ok, throw, Error, if◌then◌else◌, ltb, String,
}
use solana_proxy.Bytes.{Bytes, be_bytes}
use solana_proxy.Script.Number.{codes}
use solana_proxy.Script.Keys.{PublicKeys}

pub record SdkSeeds : Type 0 where
  pub dvn_config_seed : Bytes
  pub endpoint_seed : Bytes
  pub enforced_options_seed : Bytes
  pub event_seed : Bytes
  pub executor_config_seed : Bytes
  pub lz_receive_types_seed : Bytes
  pub message_lib_seed : Bytes
  pub nonce_seed : Bytes
  pub oapp_seed : Bytes
  pub peer_seed : Bytes
  pub pending_nonce_seed : Bytes
  pub price_feed_seed : Bytes
  pub receive_config_seed : Bytes
  pub receive_library_config_seed : Bytes
  pub send_config_seed : Bytes
  pub send_library_config_seed : Bytes
  pub uln_seed : Bytes

-- `buffer.writeUInt32BE(n)` on a buffer of 4 bytes, which refuses what does not fit.
unfoldable pub write_uint32_be : ℕ → Result Bytes
write_uint32_be n = if ltb n (2 ^ 32) then ok (be_bytes 4 n) else throw Error.value_out_of_range

-- `buffer.writeBigUInt64BE(n)` on a buffer of 8 bytes.
unfoldable pub write_big_uint64_be : ℕ → Result Bytes
write_big_uint64_be n = if ltb n (2 ^ 64) then ok (be_bytes 8 n) else throw Error.value_out_of_range

-- `a ? a : b`
abbrev pub or_default {ℓ} : {A : Type ℓ} → Option A → A → A
or_default none b = b
or_default (some a) b = a

abbrev pub proxy_config_seed : Bytes
proxy_config_seed = codes "ProxyConfig"

abbrev pub claim_data_seed : Bytes
claim_data_seed = codes "ClaimData"

abbrev pub account_list_seed : Bytes
account_list_seed = codes "AccountList"

abbrev pub backward_fee_seed : Bytes
backward_fee_seed = codes "BackwardFee"

abbrev pub payload_options_seed : Bytes
payload_options_seed = codes "PayloadOptions"

module _ (k : PublicKeys) where
  open k use {PublicKey, from_base58}

  abbrev pub endpoint_program_id : PublicKey
  endpoint_program_id = from_base58 "76y77prsiCMvXMjuoZ5VRrhG5qYBrUMYTE5WgHqgjEn6"

  abbrev pub send_lib_program_id : PublicKey
  send_lib_program_id = from_base58 "7a4WjyR8VZ7yZz5XJAKm39BUGn5iT9CKcv2pmG9tdXVH"

  abbrev pub executor_program_id : PublicKey
  executor_program_id = from_base58 "6doghB248px58JSSwG4qejQ46kFMW4AMj7vzJnWZHNZn"

  abbrev pub dvn_program_id : PublicKey
  dvn_program_id = from_base58 "HtEYV4xB4wvsj5fgTkcfuChYpvGYzgzwvNhgDZQNh7wW"

  abbrev pub price_feed_program_id : PublicKey
  price_feed_program_id = from_base58 "8ahPGPjEbpgGaZx2NV1iG5Shj7TDwvsjkEDcGWjt94TP"

  abbrev pub receive_lib_program_id : PublicKey
  receive_lib_program_id = send_lib_program_id

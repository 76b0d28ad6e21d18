-- ===== src/Script/Pda/Sample.antt =====
-- Seeds for the examples; the one of a peer is the program's.
use solana_proxy.Prelude.{[], ◌∷◌}
use solana_proxy.Script.Pda.{SdkSeeds}

abbrev pub sample_seeds : SdkSeeds
sample_seeds = record {
  dvn_config_seed = 1 ∷ [];
  endpoint_seed = 2 ∷ [];
  enforced_options_seed = 3 ∷ [];
  event_seed = 4 ∷ [];
  executor_config_seed = 5 ∷ [];
  lz_receive_types_seed = 6 ∷ [];
  message_lib_seed = 7 ∷ [];
  nonce_seed = 8 ∷ [];
  oapp_seed = 9 ∷ [];
  peer_seed = 80 ∷ 101 ∷ 101 ∷ 114 ∷ [];
  pending_nonce_seed = 11 ∷ [];
  price_feed_seed = 12 ∷ [];
  receive_config_seed = 13 ∷ [];
  receive_library_config_seed = 14 ∷ [];
  send_config_seed = 15 ∷ [];
  send_library_config_seed = 16 ∷ [];
  uln_seed = 17 ∷ [];
}

-- ===== src/Program/Seeds.antt =====
-- The addresses that the program's instructions demand of their accounts: the `seeds` of Anchor's
-- `#[account]` in programs/solana-proxy/src/instructions, with the seeds of
-- programs/solana-proxy/src/state/seeds.rs. `LZ_RECEIVE_TYPES_SEED` is the LayerZero library's.
use solana_proxy.Prelude.{ℕ, List, [], ◌∷◌}
use solana_proxy.Bytes.{Bytes, be_bytes}

abbrev pub proxy_config_seed : Bytes
proxy_config_seed = 80 ∷ 114 ∷ 111 ∷ 120 ∷ 121 ∷ 67 ∷ 111 ∷ 110 ∷ 102 ∷ 105 ∷ 103 ∷ []

abbrev pub claim_data_seed : Bytes
claim_data_seed = 67 ∷ 108 ∷ 97 ∷ 105 ∷ 109 ∷ 68 ∷ 97 ∷ 116 ∷ 97 ∷ []

abbrev pub peer_seed : Bytes
peer_seed = 80 ∷ 101 ∷ 101 ∷ 114 ∷ []

abbrev pub backward_fee_seed : Bytes
backward_fee_seed = 66 ∷ 97 ∷ 99 ∷ 107 ∷ 119 ∷ 97 ∷ 114 ∷ 100 ∷ 70 ∷ 101 ∷ 101 ∷ []

abbrev pub account_list_seed : Bytes
account_list_seed = 65 ∷ 99 ∷ 99 ∷ 111 ∷ 117 ∷ 110 ∷ 116 ∷ 76 ∷ 105 ∷ 115 ∷ 116 ∷ []

-- `PROXY_CONFIG_SEED`
unfoldable pub proxy_config_seeds : List Bytes
proxy_config_seeds = proxy_config_seed ∷ []

-- `PEER_SEED, &proxy_config.key().to_bytes(), &eid.to_be_bytes()`, where the eid is a u32.
unfoldable pub peer_config_seeds : Bytes → ℕ → List Bytes
peer_config_seeds proxy_config eid = peer_seed ∷ proxy_config ∷ be_bytes 4 eid ∷ []

unfoldable pub backward_fee_seeds : List Bytes
backward_fee_seeds = backward_fee_seed ∷ []

unfoldable pub claim_data_seeds : Bytes → List Bytes
claim_data_seeds user = claim_data_seed ∷ user ∷ []

unfoldable pub account_list_seeds : Bytes → List Bytes
account_list_seeds proxy_config = account_list_seed ∷ proxy_config ∷ []

-- ===== src/Script/Constants/Networks.antt =====
-- The environments, chains and options of tasks/proxy/constants.ts.
use solana_proxy.Prelude.{ℕ, List, [], ◌∷◌, String}

-- `constants.ENV`
abbrev pub environments : List String
environments = "local" ∷ "dev" ∷ "qa" ∷ "staging" ∷ "mainnet" ∷ []

abbrev pub chain_event_id_placeholder : ℕ
chain_event_id_placeholder = 0

abbrev pub dev_sol_chain_id : ℕ
dev_sol_chain_id = 901901901

abbrev pub main_sol_chain_id : ℕ
main_sol_chain_id = 900900900

abbrev pub order_backward_fee : ℕ
order_backward_fee = 112233

abbrev pub usdc_backward_fee : ℕ
usdc_backward_fee = 112234

pub record SolanaInfo : Type 0 where
  pub rpc : String
  pub chain_event_id : ℕ
  pub sol_chain_id : ℕ

pub record LzOptions : Type 0 where
  pub lz_receive_gas : ℕ
  pub lz_receive_value : ℕ
  pub lz_compose_gas : ℕ
  pub lz_compose_value : ℕ

abbrev pub solana_info : List (String × SolanaInfo)
solana_info =
    (
      "local",
      record {
        rpc = "http://localhost:8899";
        chain_event_id = chain_event_id_placeholder;
        sol_chain_id = dev_sol_chain_id;
      },
    )
    ∷ (
      "dev",
      record {
        rpc = "https://api.devnet.solana.com";
        chain_event_id = chain_event_id_placeholder;
        sol_chain_id = dev_sol_chain_id;
      },
    )
    ∷ (
      "qa",
      record {
        rpc = "https://api.devnet.solana.com";
        chain_event_id = chain_event_id_placeholder;
        sol_chain_id = dev_sol_chain_id;
      },
    )
    ∷ (
      "staging",
      record {
        rpc = "https://api.devnet.solana.com";
        chain_event_id = chain_event_id_placeholder;
        sol_chain_id = dev_sol_chain_id;
      },
    )
    ∷ (
      "mainnet",
      record {
        rpc = "https://api.mainnet-beta.solana.com";
        chain_event_id = chain_event_id_placeholder;
        sol_chain_id = main_sol_chain_id;
      },
    )
    ∷ []

abbrev pub options_to_orderly : List (String × LzOptions)
options_to_orderly =
    (
      "local",
      record {
        lz_receive_gas = 1000000;
        lz_receive_value = 0;
        lz_compose_gas = 0;
        lz_compose_value = 0;
      },
    )
    ∷ (
      "dev",
      record {
        lz_receive_gas = 1000000;
        lz_receive_value = 0;
        lz_compose_gas = 0;
        lz_compose_value = 0;
      },
    )
    ∷ (
      "qa",
      record {
        lz_receive_gas = 1000000;
        lz_receive_value = 0;
        lz_compose_gas = 0;
        lz_compose_value = 0;
      },
    )
    ∷ (
      "staging",
      record {
        lz_receive_gas = 1000000;
        lz_receive_value = 0;
        lz_compose_gas = 0;
        lz_compose_value = 0;
      },
    )
    ∷ (
      "mainnet",
      record {
        lz_receive_gas = 500000;
        lz_receive_value = 0;
        lz_compose_gas = 0;
        lz_compose_value = 0;
      },
    )
    ∷ []

abbrev pub options_to_solana : List (String × LzOptions)
options_to_solana =
    (
      "local",
      record {
        lz_receive_gas = 1000000;
        lz_receive_value = 0;
        lz_compose_gas = 0;
        lz_compose_value = 0;
      },
    )
    ∷ (
      "dev",
      record {
        lz_receive_gas = 1000000;
        lz_receive_value = 0;
        lz_compose_gas = 0;
        lz_compose_value = 0;
      },
    )
    ∷ (
      "qa",
      record {
        lz_receive_gas = 1000000;
        lz_receive_value = 0;
        lz_compose_gas = 0;
        lz_compose_value = 0;
      },
    )
    ∷ (
      "staging",
      record {
        lz_receive_gas = 1000000;
        lz_receive_value = 0;
        lz_compose_gas = 0;
        lz_compose_value = 0;
      },
    )
    ∷ (
      "mainnet",
      record {
        lz_receive_gas = 500000;
        lz_receive_value = 0;
        lz_compose_gas = 0;
        lz_compose_value = 0;
      },
    )
    ∷ []

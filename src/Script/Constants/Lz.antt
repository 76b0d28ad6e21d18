-- ===== src/Script/Constants/Lz.antt =====
-- `LZ_CONFIG` of tasks/proxy/constants.ts. The endpoint ids are those of @layerzerolabs/lz-definitions,
-- a parameter. `none` is a property that an entry does not have.
use solana_proxy.Prelude.{ℕ, Option, none, some, List, [], ◌∷◌, String}
use solana_proxy.Script.Constants.Networks.{dev_sol_chain_id, main_sol_chain_id}

-- The members of `EndpointId` that the tasks name.
pub record EndpointIds : Type 0 where
  pub solana_v2_testnet : ℕ
  pub solana_v2_mainnet : ℕ
  pub orderly_v2_testnet : ℕ
  pub orderly_v2_mainnet : ℕ

pub record UlnConfig : Type 0 where
  pub confirmations : Option ℕ
  pub required_dvn_count : Option ℕ
  pub optional_dvn_count : Option ℕ
  pub optional_dvn_threshold : Option ℕ
  pub required_dvns : List String

pub record SendLibConfig : Type 0 where
  pub send_lib_address : String
  pub executor_address : String
  pub max_message_size : Option ℕ
  pub uln_config : UlnConfig

pub record ReceiveLibConfig : Type 0 where
  pub receive_lib_address : String
  pub uln_config : UlnConfig

pub record LzConfig : Type 0 where
  pub endpoint_id : ℕ
  pub chain_id : ℕ
  pub endpoint_address : Option String
  pub send_lib_config : SendLibConfig
  pub receive_lib_config : ReceiveLibConfig

abbrev solana_uln : ℕ → UlnConfig
solana_uln n = record {
  confirmations = some n;
  required_dvn_count = some 1;
  optional_dvn_count = some 0;
  optional_dvn_threshold = some 0;
  required_dvns = "4VDjp6XQaxoZf5RGwiPU9NR1EXSZn2TP4ATMmiSzLfhb" ∷ [];
}

-- The two Solana entries differ in the endpoint, the chain and the confirmations.
abbrev solana_entry : ℕ → ℕ → ℕ → ℕ → LzConfig
solana_entry endpoint chain sent received = record {
  endpoint_id = endpoint;
  chain_id = chain;
  endpoint_address = none;
  send_lib_config = record {
    send_lib_address = "2XgGZG4oP29U3w5h4nTk1V2LFHL23zKDPJjs3psGzLKQ";
    executor_address = "AwrbHeCyniXaQhiJZkLhgWdUCteeWSGaSN1sTfLiY7xK";
    max_message_size = some 10000;
    uln_config = solana_uln sent;
  };
  receive_lib_config = record {
    receive_lib_address = "2XgGZG4oP29U3w5h4nTk1V2LFHL23zKDPJjs3psGzLKQ";
    uln_config = solana_uln received;
  };
}

abbrev evm_uln : String → UlnConfig
evm_uln dvn = record {
  confirmations = none;
  required_dvn_count = none;
  optional_dvn_count = none;
  optional_dvn_threshold = none;
  required_dvns = dvn ∷ [];
}

abbrev pub lz_config : EndpointIds → List (String × LzConfig)
lz_config ids =
    ("soldev", solana_entry ids.solana_v2_testnet dev_sol_chain_id 10 1)
    ∷ ("solana", solana_entry ids.solana_v2_mainnet main_sol_chain_id 32 5)
    ∷ (
      "orderlysepolia",
      record {
        endpoint_id = ids.orderly_v2_testnet;
        chain_id = 4460;
        endpoint_address = some "0x6EDCE65403992e310A62460808c4b910D972f10f";
        send_lib_config = record {
          send_lib_address = "0x8e3Dc55b7A1f7Fe4ce328A1c90dC1B935a30Cc42";
          executor_address = "0x1e567E344B2d990D2ECDFa4e14A1c9a1Beb83e96";
          max_message_size = none;
          uln_config = evm_uln "0x175d2B829604b82270D384393D25C666a822ab60";
        };
        receive_lib_config = record {
          receive_lib_address = "0x3013C32e5F45E69ceA9baD4d96786704C2aE148c";
          uln_config = evm_uln "0x175d2B829604b82270D384393D25C666a822ab60";
        };
      },
    )
    ∷ (
      "orderly",
      record {
        endpoint_id = ids.orderly_v2_mainnet;
        chain_id = 291;
        endpoint_address = some "0x1a44076050125825900e736c501f859c50fE728c";
        send_lib_config = record {
          send_lib_address = "0x5B23E2bAe5C5f00e804EA2C4C9abe601604378fa";
          executor_address = "0x1aCe9DD1BC743aD036eF2D92Af42Ca70A1159df5";
          max_message_size = none;
          uln_config = evm_uln "0xF53857dbc0D2c59D5666006EC200cbA2936B8c35";
        };
        receive_lib_config = record {
          receive_lib_address = "0xCFf08a35A5f27F306e2DA99ff198dB90f13DEF77";
          uln_config = evm_uln "0xF53857dbc0D2c59D5666006EC200cbA2936B8c35";
        };
      },
    )
    ∷ []

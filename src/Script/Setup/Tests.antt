-- ===== src/Script/Setup/Tests.antt =====
-- The tasks on the qa environment, with a sample SDK.
use solana_proxy.Prelude.{ℕ, String, true, Bool, [], ◌∷◌}
use solana_proxy.Bytes.{Bytes}
use solana_proxy.Script.Constants.Networks.{LzOptions}
use solana_proxy.Script.Setup.{Sdk}

abbrev no_options : LzOptions → Bytes
no_options o = 0 ∷ 3 ∷ []

abbrev no_key : String → ℕ
no_key s = 9

abbrev no_address : String → Bytes
no_address s = 1 ∷ []

abbrev sdk : Sdk
sdk = record {
  endpoint_ids = record {
    solana_v2_testnet = 40168;
    solana_v2_mainnet = 30168;
    orderly_v2_testnet = 40200;
    orderly_v2_mainnet = 30213;
  };
  endpoint_program = 4;
  key_of = no_key;
  address_to_bytes32 = no_address;
  encode_send = no_options;
  encode_send_and_call = no_options;
}

abbrev is_type_3 : Bytes → Bool
is_type_3 options = true

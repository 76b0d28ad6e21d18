-- ===== src/Script/Endpoint/Tests.antt =====
-- On a chain that only keeps whether the proxy has its configuration.
use solana_proxy.Prelude.{
  ℕ, ◌≡◌, refl, Bool, true, false, some, [], ◌∷◌, throw, invalid_environment,
}
use solana_proxy.Script.Constants.Lz.{EndpointIds}
use solana_proxy.Script.Environment.{check_env, get_orderly_eid}
use solana_proxy.Script.Setup.{Sdk}
use solana_proxy.Script.Endpoint.{
  Chain, Submitted, to_program, init_oapp_nonce, set_configs, executor, send_uln, receive_uln,
  UlnArgs, send, init, setconfig,
}
use solana_proxy.Script.Endpoint.Laws.{IsComplete, setconfig_lem}

abbrev ids : EndpointIds
ids = record {
  solana_v2_testnet = 40168;
  solana_v2_mainnet = 30168;
  orderly_v2_testnet = 40200;
  orderly_v2_mainnet = 30213;
}

abbrev sdk : Sdk
sdk = record {
  endpoint_ids = ids;
  endpoint_program = 1;
  key_of = λ text. 5;
  address_to_bytes32 = λ text. [];
  encode_send = λ options. [];
  encode_send_and_call = λ options. [];
}

abbrev perform : Submitted → Bool → Bool × Bool
perform (to_program ixs) w = (true, true)
perform (init_oapp_nonce eid peer) w = (false, w)
perform _ w = (true, w)

abbrev chain : Chain
chain = record {
  World = Bool;
  has_proxy_config = λ w. w;
  create_and_send = perform;
  send_lib_program_id = 6;
  receive_lib_program_id = 7;
}

abbrev IsMade : Submitted → Bool → Type 0
IsMade t w = w ≡ true

run_unknown : init sdk chain "test" 3 false ≡ (throw (invalid_environment "test"), false)
unfolding init check_env
run_unknown = refl

setconfig_lem_example :
    (size key : ℕ) × (sending receiving : UlnArgs) × (setconfig sdk chain "staging" true
      ≡ send chain
          (set_configs
            (get_orderly_eid ids "staging")
            (executor (some size) key ∷ send_uln sending ∷ receive_uln receiving ∷ []))
          true)
    × IsComplete sdk chain sending
    × IsComplete sdk chain receiving
    × (sending.required_dvns ≡ receiving.required_dvns)
unfolding check_env
setconfig_lem_example = setconfig_lem sdk chain "staging" true refl

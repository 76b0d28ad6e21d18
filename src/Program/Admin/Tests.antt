-- ===== src/Program/Admin/Tests.antt =====
-- A proxy that is initialised, paused and handed over.
use solana_proxy.Prelude.{ℕ, ◌≡◌, ◌≤◌, refl, true, false, Bool, some, none, Option}
use solana_proxy.Bytes.{Bytes}
use solana_proxy.Program.Outcome.{done, failed, invalid_proxy_admin}
use solana_proxy.Program.Admin.{
  State, ProxyConfig, PeerConfig, step, init_proxy, set_pause, transfer_admin,
}
use solana_proxy.Program.Admin.Laws.{run, Fixed}
use solana_proxy.Program.Admin.Reachability.{
  Reaches, start, next, Reaches-Fixed, Reaches-StateIsValid, StateIsValid, PeerIsValid,
}

abbrev rent : ℕ
rent = 10

abbrev all_options : Bytes → Bool
all_options options = true

abbrev no_peers : ℕ → Option PeerConfig
no_peers eid = none

abbrev empty : State
empty = record {
  config = none;
  backward_fee = none;
  peer_config = no_peers;
  config_lamports = 0;
  delegate = 0;
}

abbrev config : ProxyConfig
config = record {
  endpoint_program = 1;
  usdc_token_account = 2;
  admin = 5;
  orderly_eid = 40200;
  sol_chain_id = 901901901;
  paused = false;
}

abbrev initialised : State
initialised = record empty { config = some config; config_lamports = 10; delegate = 5 }

abbrev paused : State
paused = record initialised { config = some (record config { paused = true }) }

abbrev handed_over : State
handed_over = record paused { config = some (record config { paused = true; admin = 6 }) }

steps : Reaches rent all_options initialised handed_over
unfolding step
steps = next 200 5 (transfer_admin 6) (next 200 5 (set_pause true) start refl) refl

Reaches-Fixed_example :
    (config' : ProxyConfig) × (handed_over.config ≡ some config') × Fixed config config'
Reaches-Fixed_example = Reaches-Fixed rent all_options initialised handed_over config refl steps

no_config : (c : ProxyConfig) → none ≡ some c → rent ≤ 0
no_config c h = cc

no_peer_set : (eid : ℕ) (peer : PeerConfig) → no_peers eid ≡ some peer → PeerIsValid peer
no_peer_set eid peer h = cc

init_step :
    run rent all_options 100 5
      (init_proxy (record {
        endpoint_program = 1;
        usdc_token_account = 2;
        admin = 5;
        orderly_eid = 40200;
        sol_chain_id = 901901901;
      }))
      empty
    ≡ done initialised
unfolding step
init_step = refl

Reaches-StateIsValid_example : StateIsValid rent all_options initialised
Reaches-StateIsValid_example =
    Reaches-StateIsValid rent all_options empty initialised (no_config, no_peer_set)
      (next 100 5
        (init_proxy (record {
          endpoint_program = 1;
          usdc_token_account = 2;
          admin = 5;
          orderly_eid = 40200;
          sol_chain_id = 901901901;
        }))
        start init_step)

not_the_admin : run rent all_options 200 6 (set_pause true) initialised ≡ failed invalid_proxy_admin
unfolding step
not_the_admin = refl

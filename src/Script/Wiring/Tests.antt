-- ===== src/Script/Wiring/Tests.antt =====
-- A graph of three connections, one of them from Solana.
use solana_proxy.Prelude.{
  ℕ, ◌≡◌, refl, String, some, none, List, [], ◌∷◌, ok, All, ◌==◌, if◌then◌else◌,
}
use mathlib.Core.List.{Permᴰ}
use mathlib.Core.List.Permᴰ
use solana_proxy.Script.Wiring.{
  Devtools, Connection, Configs, get_eid, is_solana, active_config, tasks_of, sol_tasks_of,
  run_tasks, get_configs, no_configs,
}
use solana_proxy.Script.Wiring.Laws.{entry, get_configs-run_tasks}

abbrev name : ℕ → String
name eid = if eid == 40168 then "solana-testnet" else if eid == 40161 then "sepolia" else "orderly"

abbrev tools : Devtools
tools = record {
  UlnConfig = ℕ;
  ExecutorConfig = ℕ;
  solana_v2_testnet = 40168;
  solana_v2_mainnet = 30168;
  is_solana_chain = λ eid. eid == 40168;
  network_for_chain_id = λ eid. ok (name eid);
  get_network_name_for_eid = λ eid. ok (name eid);
  get_receive_config = λ from eid. some ("receive", eid);
  get_send_config = λ from eid. none;
  get_receive_library = λ address eid. none;
  get_send_library = λ address eid. some address;
  get_app_receive_uln_config = λ address eid. 2;
  get_app_send_uln_config = λ address eid. 10;
  get_app_executor_config = λ address library eid. 10000;
  uln_program_address = "7a4W";
}

abbrev between : ℕ → ℕ → Connection
between from to = record {
  from = record { eid = from; address = "A" };
  to = record { eid = to; address = "B" };
}

abbrev graph : List Connection
graph = between 40161 40168 ∷ between 40168 40161 ∷ between 40200 40168 ∷ []

abbrev later_first : List Connection
later_first = between 40200 40168 ∷ between 40161 40168 ∷ []

get_configs-run_tasks_example :
    (configs : Configs tools) × (run_tasks tools graph (no_configs tools) ≡ ok configs)
    × (get_configs tools later_first (between 40168 40161 ∷ []) ≡ ok configs)
    × All (λ c. entry tools name c configs ≡ some (active_config tools c)) graph
unfolding tasks_of sol_tasks_of is_solana get_eid
get_configs-run_tasks_example =
    get_configs-run_tasks tools name graph later_first (between 40168 40161 ∷ [])
      (Permᴰ.swap refl refl) (Permᴰ.refl _) ((refl, refl), ((refl, refl), ((refl, refl), tt)))
      ((refl, (refl, tt)), ((refl, tt), (tt, tt)))

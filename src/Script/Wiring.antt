-- ===== src/Script/Wiring.antt =====
-- lz:oapp:config:get of tasks/common/config.get.ts, with tasks/common/taskHelper.ts: the table of active
-- configurations that it returns. A task asks its endpoint, waits for the answers, and then writes one entry
-- without waiting, so that a run, in series or in parallel, is an order of the connections. What the
-- LayerZero SDK answers is a parameter. The tables that it prints are left out.
pub mod Laws
pub mod Orders
pub mod Writes
mod Tests
use solana_proxy.Prelude.{
  ℕ, String, Bool, not, Option, none, some, List, [], ◌∷◌, Result, ok, ◌>>=◌, ◌==◌, str_eq, ◌||◌,
  if◌then◌else◌,
}

pub record OmniPoint : Type 0 where
  pub eid : ℕ
  pub address : String

pub record Connection : Type 0 where
  pub from : OmniPoint
  pub to : OmniPoint

-- The endpoints and the networks. A configuration with its library is `undefined` when the SDK has none.
pub record Devtools : Type 1 where
  pub UlnConfig : Type 0
  pub ExecutorConfig : Type 0
  pub solana_v2_testnet : ℕ
  pub solana_v2_mainnet : ℕ
  -- `endpointIdToChainType(eid) === ChainType.SOLANA`
  pub is_solana_chain : ℕ → Bool
  -- `${chainName}-${env}` of `getNetworkForChainId(eid)`
  pub network_for_chain_id : ℕ → Result String
  pub get_network_name_for_eid : ℕ → Result String
  pub get_receive_config : OmniPoint → ℕ → Option (String × UlnConfig)
  pub get_send_config : OmniPoint → ℕ → Option (String × UlnConfig × ExecutorConfig)
  -- Of Solana's endpoint, by the OApp's address and the remote endpoint.
  pub get_receive_library : String → ℕ → Option String
  pub get_send_library : String → ℕ → Option String
  pub get_app_receive_uln_config : String → ℕ → UlnConfig
  pub get_app_send_uln_config : String → ℕ → UlnConfig
  pub get_app_executor_config : String → String → ℕ → ExecutorConfig
  pub uln_program_address : String

abbrev pub or_else : Option String → String → String
or_else none default = default
or_else (some text) default = text

-- `Array.prototype.filter`
abbrev pub select {ℓ} : {A : Type ℓ} → (A → Bool) → List A → List A
select test [] = []
select test (a ∷ rest) = if test a then a ∷ select test rest else select test rest

module _ (tools : Devtools) where
  open tools use {UlnConfig, ExecutorConfig}

  -- `none` is a property that is `undefined`.
  pub record ActiveConfig : Type 0 where
    pub default_send_library : Option String
    pub default_receive_library : Option String
    pub send_uln_config : Option UlnConfig
    pub send_executor_config : Option ExecutorConfig
    pub receive_uln_config : Option UlnConfig

  -- `Record<string, Record<string, unknown>>`
  abbrev pub Configs : Type 0
  Configs = String → Option (String → Option ActiveConfig)

  unfoldable pub is_solana : OmniPoint → Bool
  is_solana point = tools.is_solana_chain point.eid

  unfoldable pub get_eid : ℕ → Result String
  get_eid eid =
      if (eid == tools.solana_v2_testnet) || (eid == tools.solana_v2_mainnet)
      then tools.network_for_chain_id eid
      else tools.get_network_name_for_eid eid

  unfoldable pub get_solana_receive_config : ℕ → String → Option (String × UlnConfig)
  get_solana_receive_config remote_eid address = some (
    or_else (tools.get_receive_library address remote_eid) tools.uln_program_address,
    tools.get_app_receive_uln_config address remote_eid,
  )

  unfoldable pub get_solana_send_config : ℕ → String → Option (String × UlnConfig × ExecutorConfig)
  get_solana_send_config eid address =
      let send_library = or_else (tools.get_send_library address eid) tools.uln_program_address in
      some (
        send_library,
        tools.get_app_send_uln_config address eid,
        tools.get_app_executor_config address send_library eid,
      )

  -- `const [library, ulnConfig, executorConfig] = config ?? []`
  abbrev pub active :
      Option (String × UlnConfig × ExecutorConfig) → Option (String × UlnConfig) → ActiveConfig
  active none none = record {
    default_send_library = none;
    default_receive_library = none;
    send_uln_config = none;
    send_executor_config = none;
    receive_uln_config = none;
  }
  active none (some (library, uln)) = record {
    default_send_library = none;
    default_receive_library = some library;
    send_uln_config = none;
    send_executor_config = none;
    receive_uln_config = some uln;
  }
  active (some (library, uln, executor)) none = record {
    default_send_library = some library;
    default_receive_library = none;
    send_uln_config = some uln;
    send_executor_config = some executor;
    receive_uln_config = none;
  }
  active (some (library, uln, executor)) (some (library', uln')) = record {
    default_send_library = some library;
    default_receive_library = some library';
    send_uln_config = some uln;
    send_executor_config = some executor;
    receive_uln_config = some uln';
  }

  unfoldable pub active_config : Connection → ActiveConfig
  active_config c =
      if is_solana c.from
      then active (get_solana_send_config c.to.eid c.from.address)
          (get_solana_receive_config c.to.eid c.from.address)
      else active (tools.get_send_config c.from c.to.eid) (tools.get_receive_config c.from c.to.eid)

  -- `{ ...configs[localNetworkName], [remoteNetworkName]: … }`
  abbrev pub extended :
      Option (String → Option ActiveConfig) → String → ActiveConfig → String → Option ActiveConfig
  extended none remote config r = if str_eq r remote then some config else none
  extended (some row) remote config r = if str_eq r remote then some config else row r

  unfoldable pub write : String → String → ActiveConfig → Configs → Configs
  write local remote config configs l =
      if str_eq l local then some (extended (configs local) remote config) else configs l

  -- The tasks of the connections, in the order in which they write.
  unfoldable pub run_tasks : List Connection → Configs → Result Configs
  run_tasks [] configs = ok configs
  run_tasks (c ∷ cs) configs = do
    local ← get_eid c.from.eid
    remote ← get_eid c.to.eid
    run_tasks cs (write local remote (active_config c) configs)

  abbrev pub no_configs : Configs
  no_configs l = none

  -- Those not from Solana first, then those from it, each in an order.
  unfoldable pub get_configs : List Connection → List Connection → Result Configs
  get_configs tasks sol_tasks = do configs ← run_tasks tasks no_configs; run_tasks sol_tasks configs

  unfoldable pub tasks_of : List Connection → List Connection
  tasks_of connections = select (λ c. not (is_solana c.from)) connections

  unfoldable pub sol_tasks_of : List Connection → List Connection
  sol_tasks_of connections = select (λ c. is_solana c.from) connections

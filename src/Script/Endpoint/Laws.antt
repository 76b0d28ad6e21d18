-- ===== src/Script/Endpoint/Laws.antt =====
-- A second run of sol:proxy:init, and the configuration that sol:proxy:setconfig sends.
use solana_proxy.Prelude.{
  ℕ, ◌≡◌, refl, true, Bool-cases, inl, inr, String, some, List, [], ◌∷◌, length, ok, str_eq,
}
use solana_proxy.Script.Environment.{
  check_env, get_orderly_eid, get_solana_network, get_local_lz_config,
}
use solana_proxy.Program.Admin.{Instruction}
use solana_proxy.Script.Setup.{Sdk}
use solana_proxy.Script.Endpoint.{
  Chain, Submitted, to_program, set_configs, init_config, UlnArgs, executor, send_uln, receive_uln,
  send, attempt, configs_of, setconfig,
}

-- What is done: doing it again changes nothing; and a configuration that the program made stays.
pub record KeepsWhatIsDone (chain : Chain) (done : Submitted → chain.World → Type 0) : Type 0 where
  pub again : (t : Submitted) (w : chain.World) → done t w → (chain.create_and_send t w).1 ≡ w
  pub config_made :
      (ixs : List Instruction) (w w' : chain.World)
      → chain.create_and_send (to_program ixs) w ≡ (true, w')
      → chain.has_proxy_config w' ≡ true
  pub config_stays :
      (t : Submitted) (w : chain.World)
      → chain.has_proxy_config w ≡ true
      → chain.has_proxy_config ((chain.create_and_send t w).1) ≡ true

module _ (sdk : Sdk) (chain : Chain) where
  abbrev pub IsComplete : UlnArgs → Type 0
  IsComplete uln =
      (n : ℕ) × (uln.confirmations ≡ some n)
      × (uln.required_dvn_count ≡ some (length uln.required_dvns))
      × (uln.optional_dvn_count ≡ some (length uln.optional_dvns))
      × (uln.optional_dvn_threshold ≡ some 0)

  -- In every environment that `checkENV` lets pass, sol:proxy:setconfig attempts to make the configuration and
  -- then sends, for Orderly's eid, an executor with a message size and two complete ULNs, whose counts are
  -- the numbers of the DVNs that stand in them, the same for both directions.
  pub setconfig_lem :
      (env : String) (w : chain.World)
      → check_env env ≡ ok tt
      → let eid = get_orderly_eid sdk.endpoint_ids env in
        (size key : ℕ) × (sending receiving : UlnArgs) × (setconfig sdk chain env w
          ≡ send chain
              (set_configs eid
                (executor (some size) key ∷ send_uln sending ∷ receive_uln receiving ∷ []))
              ((chain.create_and_send (init_config eid) w).1))
        × IsComplete sending
        × IsComplete receiving
        × (sending.required_dvns ≡ receiving.required_dvns)
  unfolding setconfig attempt configs_of get_local_lz_config get_solana_network
  setconfig_lem env w known = elim (Bool-cases (str_eq env "mainnet")) [
    | inl main ↦
        rw (known, main)
          (_, _, _, _, refl, (_, refl, refl, refl, refl), (_, refl, refl, refl, refl), refl)
    | inr test ↦
        rw (known, test)
          (_, _, _, _, refl, (_, refl, refl, refl, refl), (_, refl, refl, refl, refl), refl)
  ]

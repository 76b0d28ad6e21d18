-- ===== src/Script/Environment/Laws.antt =====
-- The tables of the environments are complete and agree with one another.
use solana_proxy.Prelude.{
  ◌≡◌, refl, inl, inr, Bool, true, false, String, Option, some, Result, ok, throw, ◌>>=◌, is_some,
  is_some-lookup, includes, includes-All, Bool-cases, str_eq, eq_iff, is_ok, require, or_throw,
  Error, none, sym, ◌∙◌, ◌&&◌,
}
use solana_proxy.Script.Constants.Networks.{environments, solana_info}
use solana_proxy.Script.Constants.Accounts.{proxy_accounts, oft_accounts, ledger_oapp_accounts}
use solana_proxy.Script.Constants.Lz.{EndpointIds, LzConfig}
use solana_proxy.Script.Environment.{
  check_env, get_oft_accounts, get_proxy_accounts, get_usdc_mint, get_ledger_oapp_address,
  get_solana_chain_id, get_sol_chain_id, get_solana_network, get_orderly_network,
  check_orderly_network, get_options, getconfig_network, get_solana_eid, get_orderly_eid,
  get_local_lz_config, deploy_arguments,
}

is_ok-require : (b : Bool) (e : Error) → is_ok (require b e) ≡ b
is_ok-require true e = refl
is_ok-require false e = refl

-- A table's entry, and a field of it.
is_ok-or_throw {ℓ κ} :
    {A : Type ℓ} {B : Type κ} (e : Error) (o : Option A) (field : A → B)
    → is_ok (or_throw e o >>= λ a. ok (field a)) ≡ is_some o
is_ok-or_throw e none field = refl
is_ok-or_throw e (some a) field = refl

is_ok-and {ℓ} :
    {A : Type ℓ} (m : Result (Unit {0})) (b : Bool) (e : Error) (a : A)
    → is_ok (m >>= λ _. (require b e >>= λ _. ok a)) ≡ is_ok m && b
is_ok-and (ok u) true e a = refl
is_ok-and (ok u) false e a = refl
is_ok-and (throw f) b e a = refl

is_ok_last {ℓ} :
    {A : Type ℓ} (m : Result (Unit {0})) (b : Bool) (e : Error) (last : Result A)
    → is_ok last ≡ false
    → is_ok (m >>= λ _. (require b e >>= λ _. last)) ≡ false
is_ok_last (ok u) true e last h = h
is_ok_last (ok u) false e last h = refl
is_ok_last (throw g) b e last h = refl

pub includes_of_check_env :
    (env : String) → check_env env ≡ ok tt → includes env environments ≡ true
unfolding check_env
includes_of_check_env env h = elim (Bool-cases (includes env environments)) [
  | inl known ↦ known
  | inr unknown ↦ cc (rw unknown at h)
]

-- The two functions for the chain id agree on every environment that `checkENV` lets pass.
pub get_sol_chain_id-eq-get_solana_chain_id :
    (env : String) → check_env env ≡ ok tt → get_sol_chain_id env ≡ ok (get_solana_chain_id env)
unfolding get_sol_chain_id get_solana_chain_id
get_sol_chain_id-eq-get_solana_chain_id env h =
    includes-All (λ e. get_sol_chain_id e ≡ ok (get_solana_chain_id e)) env environments
      (refl, (refl, (refl, (refl, (refl, tt))))) (includes_of_check_env env h)

-- The account tables and the chain table have an entry exactly for the environments that `checkENV`
-- lets pass.
pub environment_tables :
    (env : String)
    → (is_some (get_oft_accounts env) ≡ is_ok (check_env env))
      × (is_some (get_proxy_accounts env) ≡ is_ok (check_env env))
      × (is_ok (get_usdc_mint env) ≡ is_ok (check_env env))
      × (is_ok (get_ledger_oapp_address env) ≡ is_ok (check_env env))
      × (is_ok (get_sol_chain_id env) ≡ is_ok (check_env env))
unfolding get_oft_accounts get_proxy_accounts get_usdc_mint get_ledger_oapp_address get_sol_chain_id
    check_env
environment_tables env = (
  is_some-lookup env oft_accounts ∙ sym (is_ok-require _ _),
  is_some-lookup env proxy_accounts ∙ sym (is_ok-require _ _),
  is_ok-or_throw _ _ _ ∙ is_some-lookup env proxy_accounts ∙ sym (is_ok-require _ _),
  is_ok-or_throw _ _ _ ∙ is_some-lookup env ledger_oapp_accounts ∙ sym (is_ok-require _ _),
  is_ok-or_throw _ _ _ ∙ is_some-lookup env solana_info ∙ sym (is_ok-require _ _),
)

-- The task that prints the configuration compares with the options that the other tasks set,
-- though it swaps the names of the two networks.
pub get_options-getconfig_network :
    (env : String)
    → get_options env (getconfig_network env) ≡ get_options env (get_solana_network env)
unfolding get_options getconfig_network get_solana_network
get_options-getconfig_network env = elim (Bool-cases (str_eq env "mainnet")) [
  | inl main ↦ rw main refl
  | inr test ↦ rw test refl
]

module _ (ids : EndpointIds) where
  -- The networks of an environment are configured with its own endpoints and chain.
  pub get_local_lz_config-endpoint :
      (env : String)
      → ((c : LzConfig) × (get_local_lz_config ids (get_solana_network env) ≡ ok c)
          × (c.endpoint_id ≡ get_solana_eid ids env)
          × (c.chain_id ≡ get_solana_chain_id env))
        × ((c : LzConfig) × (get_local_lz_config ids (get_orderly_network env) ≡ ok c)
            × (c.endpoint_id ≡ get_orderly_eid ids env)
            × is_some c.endpoint_address ≡ true)
  unfolding get_local_lz_config get_solana_network get_orderly_network get_solana_eid
      get_orderly_eid get_solana_chain_id
  get_local_lz_config-endpoint env = elim (Bool-cases (str_eq env "mainnet")) [
    | inl main ↦ rw main ((_, refl, refl, refl), (_, refl, refl, refl))
    | inr test ↦ rw test ((_, refl, refl, refl), (_, refl, refl, refl))
  ]

  on_sepolia :
      (env contract owner : String)
      → is_ok (deploy_arguments ids "orderlysepolia" env contract owner)
        ≡ is_ok (check_env env) && str_eq contract "LedgerOApp"
  unfolding deploy_arguments check_orderly_network get_local_lz_config
  on_sepolia env contract owner = is_ok-and (check_env env) (str_eq contract "LedgerOApp") _ _

  on_mainnet :
      (env contract owner : String)
      → is_ok (deploy_arguments ids "orderlymainnet" env contract owner) ≡ false
  unfolding deploy_arguments check_orderly_network get_local_lz_config
  on_mainnet env contract owner = is_ok_last (check_env env) (str_eq contract "LedgerOApp") _ _ refl

  -- `orderly:deploy` computes its arguments on one network only: on `orderlymainnet`, which
  -- `checkOrderlyNetwork` lets pass, the LayerZero configuration is not found.
  pub deploy_arguments-network :
      (network env contract owner : String)
      → is_ok (deploy_arguments ids network env contract owner)
        ≡ (str_eq network "orderlysepolia" && is_ok (check_env env) && str_eq contract "LedgerOApp")
  deploy_arguments-network network env contract owner =
      elim (Bool-cases (str_eq network "orderlysepolia")) [
        | inl same ↦ rw ((eq_iff network "orderlysepolia").0 same) (on_sepolia env contract owner)
        | inr other ↦ elim (Bool-cases (str_eq network "orderlymainnet")) [
          | inl main ↦ rw ((eq_iff network "orderlymainnet").0 main) (on_mainnet env contract owner)
          | inr neither ↦ unfold deploy_arguments check_orderly_network in rw (other, neither) refl
        ]
      ]

-- ===== src/Script/Setup/Laws.antt =====
-- What the program's accounts are after the tasks have run.
use solana_proxy.Prelude.{ℕ, ◌≡◌, refl, not, str_eq, is_ok, String, Bool, ok, includes-All}
use solana_proxy.Bytes.{Bytes}
use solana_proxy.Script.Constants.Networks.{environments}
use solana_proxy.Script.Environment.{check_env, get_proxy_accounts}
use solana_proxy.Script.Environment.Laws.{includes_of_check_env}
use solana_proxy.Script.Setup.{Sdk, admin_instructions}

module _ (required_lamports : ℕ) (assert_type_3 : Bytes → Bool) (sdk : Sdk) where
  -- Of the environments that `checkENV` lets pass, `sol:proxy:admin` finds a new admin in all but
  -- staging.
  pub admin_instructions-is_ok :
      (env : String)
      → check_env env ≡ ok tt
      → is_ok (admin_instructions sdk env) ≡ not (str_eq env "staging")
  unfolding admin_instructions get_proxy_accounts
  admin_instructions-is_ok env h =
      includes-All (λ env. is_ok (admin_instructions sdk env) ≡ not (str_eq env "staging")) env
        environments (refl, (refl, (refl, (refl, (refl, tt))))) (includes_of_check_env env h)

-- ===== src/Script/Peer/Entries.antt =====
-- The transactions of orderly:ledgeroapp:setpeer, where the constants have an entry for the environment.
use solana_proxy.Prelude.{
  ℕ, ◌<◌, ◌≡◌, refl, String, Option, some, List, ◌++◌, Result, ok, ◌>>=◌, ◌>>◌, or_throw,
  type_error, lookup, includes-All, arith,
}
use solana_proxy.Script.Constants.Accounts.{ProxyAccounts}
use solana_proxy.Script.Constants.Networks.{LzOptions, options_to_solana, environments}
use solana_proxy.Script.Environment.{
  check_env, check_orderly_network, get_ledger_oapp_address, get_proxy_accounts,
}
use solana_proxy.Script.Environment.Laws.{includes_of_check_env}
use solana_proxy.Script.Peer.{
  Remote, Transaction, peer_transactions, option_transactions, setpeer_transactions,
}

-- The tables' entries for an environment; the gas is set.
abbrev pub Entries : String → ProxyAccounts → LzOptions → Type 0
Entries env accounts options =
    (get_proxy_accounts env ≡ some accounts)
    × (lookup env options_to_solana ≡ some options)
    × (0 < options.lz_receive_gas)

pub entries :
    (env : String)
    → check_env env ≡ ok tt
    → (a : String) × (accounts : ProxyAccounts) × (options : LzOptions) × (get_ledger_oapp_address
          env
        ≡ ok a)
      × Entries env accounts options
unfolding get_proxy_accounts get_ledger_oapp_address check_env
entries env h =
    includes-All
      (λ env.
        (a : String) × (accounts : ProxyAccounts) × (options : LzOptions) × (get_ledger_oapp_address
            env
          ≡ ok a)
        × Entries env accounts options)
      env environments
      (
        (_, _, _, refl, (refl, refl, omega arith)),
        (
          (_, _, _, refl, (refl, refl, omega arith)),
          (
            (_, _, _, refl, (refl, refl, omega arith)),
            (
              (_, _, _, refl, (refl, refl, omega arith)),
              ((_, _, _, refl, (refl, refl, omega arith)), tt),
            ),
          ),
        ),
      )
      (includes_of_check_env env h)

-- A chain of look-ups that nothing stops.
chain :
    (n e : Result Unit) (f : Result String) (i : Option ℕ) (p : Option ProxyAccounts)
    (o : Option LzOptions) (k : ℕ → ProxyAccounts → LzOptions → List Transaction) (a : String)
    (eid : ℕ) (accounts : ProxyAccounts) (options : LzOptions)
    → n ≡ ok tt
    → e ≡ ok tt
    → f ≡ ok a
    → i ≡ some eid
    → p ≡ some accounts
    → o ≡ some options
    → (do
      n
      e
      _ ← f
      sol_eid ← or_throw type_error i
      found ← or_throw type_error p
      chosen ← or_throw type_error o
      ok (k sol_eid found chosen))
      ≡ ok (k eid accounts options)
chain n e f i p o k a eid accounts options hn he hf hi hp ho = rw (hn, he, hf, hi, hp, ho) refl

module _ (hex_of_base58 : String → String) where
  -- The transactions, where nothing throws.
  pub setpeer_transactions-eq :
      (network env : String) (eid : ℕ) (a : String) (accounts : ProxyAccounts) (options : LzOptions)
      (r : Remote)
      → check_orderly_network network ≡ ok tt
      → check_env env ≡ ok tt
      → get_ledger_oapp_address env ≡ ok a
      → r.solana_eid ≡ some eid
      → Entries env accounts options
      → setpeer_transactions hex_of_base58 network env r
        ≡ ok (
            peer_transactions eid (hex_of_base58 (ProxyAccounts.config_pda accounts)) r
            ++ option_transactions options.lz_receive_gas options.lz_receive_value r)
  unfolding setpeer_transactions
  setpeer_transactions-eq network env eid a accounts options r n e f h (p, o, _) =
      chain (check_orderly_network network) (check_env env) (get_ledger_oapp_address env)
        r.solana_eid (get_proxy_accounts env) (lookup env options_to_solana)
        (λ sol_eid found chosen.
          peer_transactions sol_eid (hex_of_base58 (ProxyAccounts.config_pda found)) r
          ++ option_transactions chosen.lz_receive_gas chosen.lz_receive_value r)
        a eid accounts options n e f h p o
